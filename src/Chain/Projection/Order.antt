-- ===== src/Chain/Projection/Order.antt =====
-- Balance events carry the state after them: the order in which they arrive does not matter.
use you_fen.Base.{
  ℕ, ◌≡◌, ◌≢◌, refl, sym, ap, ◌∙◌, ◌&&◌, Bool, true, false, Option, none, some, [], ◌∷◌, ◌==◌, ◌⊎◌,
  or_default, find, find-append_none, find-append_some, find-update_first_ne, Option-cases, inl,
  inr, arith,
}
use you_fen.Chain.Projection.{
  is_member_balance, fold_balance, is_supply_of, fold_supply, Projections, EventName,
  DecodedChainEvent, ChainEventRow, is_event, stamp, mark_verified, fold_counts,
  apply_balance_event, fold_event, add_event, find_event, was_applied, apply_event,
}
use you_fen.Chain.Projection.Replay.{folded, applies, fold_event-events}
use you_fen.Chain.Projection.Fresher.{
  known_of, known_balance, supply_known_of, known_supply, fresher, fresher_swaps,
  fold_balance-fresher, fold_supply-fresher,
}

-- The event is a mint for the member or a reversal.
pub record IsBalanceEvent (c m : ℕ) (e : DecodedChainEvent) : Type 0 where
  pub named :
      (e.event_name ≡ EventName.mint_executed) ⊎ (e.event_name ≡ EventName.reversal_executed)
  pub community : e.community_id ≡ some c
  pub member : e.member_id_hash ≡ some m

abbrev pub seq_of : DecodedChainEvent → ℕ
seq_of e = or_default e.ledger_seq 0

-- The balances and the supplies after the fold of the event.
verified-counts :
    (b now : ℕ) (h : Option ℕ) (p : Projections)
    → ((mark_verified b now h p).balances ≡ p.balances)
      × ((mark_verified b now h p).supplies ≡ p.supplies)
verified-counts b now none p = (refl, refl)
verified-counts b now (some h) p = (refl, refl)

added-counts :
    (e : DecodedChainEvent) (o : Option ChainEventRow) (p : Projections)
    → ((add_event e o p).balances ≡ p.balances) × ((add_event e o p).supplies ≡ p.supplies)
added-counts e none p = (refl, refl)
added-counts e (some r) p = (refl, refl)

-- What a balance event makes of both tables.
abbrev Folds : ℕ → ℕ → DecodedChainEvent → Projections → Projections → Type 0
Folds c m e p q =
    (q.balances ≡ fold_balance c m (or_default e.args.member_balance_after 0) (seq_of e) p.balances)
    × (q.supplies ≡ fold_supply c (or_default e.args.total_supply_after 0) (seq_of e) p.supplies)

apply_balance_event-Folds :
    (now c m : ℕ) (b : Bool) (e : DecodedChainEvent) (p : Projections)
    → e.community_id ≡ some c
    → e.member_id_hash ≡ some m
    → Folds c m e p (apply_balance_event now b e p)
unfolding apply_balance_event
apply_balance_event-Folds now c m b e p hc hm =
    rw (hc, hm) (verified-counts e.block_number now e.record_hash (fold_counts b e c m p))

fold_event-Folds :
    (now c m : ℕ) (e : DecodedChainEvent) (p : Projections)
    → IsBalanceEvent c m e
    → Folds c m e p (fold_event now e e.event_name p)
unfolding apply_balance_event
fold_event-Folds now c m e p k = elim k.named [
  | inl n ↦ rw n (apply_balance_event-Folds now c m false e p k.community k.member)
  | inr n ↦ rw n (apply_balance_event-Folds now c m true e p k.community k.member)
]

folded-Folds :
    (now c m : ℕ) (e : DecodedChainEvent) (p : Projections)
    → IsBalanceEvent c m e
    → Folds c m e p (folded now e p)
folded-Folds now c m e p k =
    let (eb, es) = added-counts e (find_event e p) p in
    let (fb, fs) = fold_event-Folds now c m e (add_event e (find_event e p) p) k in
    (fb ∙ ap (fold_balance c m _ _) eb, fs ∙ ap (fold_supply c _ _) es)

-- What a new balance event makes known.
known-folded :
    (now c m : ℕ) (e : DecodedChainEvent) (p : Projections)
    → IsBalanceEvent c m e
    → (known_balance c m (folded now e p)
        ≡ fresher (known_balance c m p) (or_default e.args.member_balance_after 0) (seq_of e))
      × (known_supply c (folded now e p)
          ≡ fresher (known_supply c p) (or_default e.args.total_supply_after 0) (seq_of e))
known-folded now c m e p k =
    let (fb, fs) = folded-Folds now c m e p k in
    (
      ap (λ rows. known_of (find (is_member_balance c m) rows)) fb
          ∙ fold_balance-fresher c m _ _ p.balances,
      ap (λ rows. supply_known_of (find (is_supply_of c) rows)) fs
          ∙ fold_supply-fresher c _ _ p.supplies,
    )

-- Two events of different places in the chain.
abbrev pub AreApart : DecodedChainEvent → DecodedChainEvent → Type 0
AreApart e f = (e.tx_hash == f.tx_hash && e.log_index == f.log_index) ≡ false

added-apart :
    (e f : DecodedChainEvent) (o : Option ChainEventRow) (p : Projections)
    → AreApart e f
    → find_event f (add_event e o p) ≡ find_event f p
added-apart e f (some r) p h = refl
added-apart e f none p h = elim (Option-cases (find_event f p)) [
  | inl missing ↦ ground (
    arith,
    find-append_none (is_event f.tx_hash f.log_index) p.events
        (record { event = e; applied_at = none } ∷ []),
  )
  | inr (r, there) ↦ ground (
    arith,
    find-append_some (is_event f.tx_hash f.log_index) p.events
        (record { event = e; applied_at = none } ∷ []) r,
  )
]

-- An event that is folded leaves another as new as it was.
folded-apart :
    (now : ℕ) (e f : DecodedChainEvent) (p : Projections)
    → AreApart e f
    → find_event f (folded now e p) ≡ find_event f p
folded-apart now e f p h =
    let q = add_event e (find_event e p) p in
    find-update_first_ne (is_event e.tx_hash e.log_index) (is_event f.tx_hash f.log_index)
      (stamp now) (fold_event now e e.event_name q).events (λ x t. ground arith) (λ x. refl)
    ∙ (ap (find (is_event f.tx_hash f.log_index)) (fold_event-events now e e.event_name q)
        ∙ added-apart e f (find_event e p) p h)

-- The tables after two events.
abbrev pub apply_both : ℕ → DecodedChainEvent → DecodedChainEvent → Projections → Projections
apply_both now e f p = (apply_event now f (apply_event now e p).1).1

both-folded :
    (now : ℕ) (e f : DecodedChainEvent) (p : Projections)
    → AreApart e f
    → was_applied (find_event e p) ≡ false
    → was_applied (find_event f p) ≡ false
    → apply_both now e f p ≡ folded now f (folded now e p)
both-folded now e f p h ne nf =
    ap (λ x. (apply_event now f x.1).1) (applies now e p ne)
    ∙ ap (λ x. x.1)
        (applies now f (folded now e p) (ap was_applied (folded-apart now e f p h) ∙ nf))

known-both :
    (now c m : ℕ) (e f : DecodedChainEvent) (p : Projections)
    → IsBalanceEvent c m e
    → IsBalanceEvent c m f
    → apply_both now e f p ≡ folded now f (folded now e p)
    → (known_balance c m (apply_both now e f p)
        ≡ fresher
            (fresher (known_balance c m p) (or_default e.args.member_balance_after 0) (seq_of e))
            (or_default f.args.member_balance_after 0)
            (seq_of f))
      × (known_supply c (apply_both now e f p)
          ≡ fresher
              (fresher (known_supply c p) (or_default e.args.total_supply_after 0) (seq_of e))
              (or_default f.args.total_supply_after 0)
              (seq_of f))
known-both now c m e f p ke kf both =
    let (be, se) = known-folded now c m e p ke in
    let (bf, sf) = known-folded now c m f (folded now e p) kf in
    (
      ap (known_balance c m) both
          ∙ (bf ∙ ap (λ o. fresher o (or_default f.args.member_balance_after 0) (seq_of f)) be),
      ap (known_supply c) both
          ∙ (sf ∙ ap (λ o. fresher o (or_default f.args.total_supply_after 0) (seq_of f)) se),
    )

-- For two balance events of one member, from different places of the chain and with different
-- sequences, neither of which has been folded: whichever is folded first, the balance of the member
-- and the supply of the community are the same, with the same sequences.
pub apply_event-commutes :
    (now c m : ℕ) (e f : DecodedChainEvent) (p : Projections)
    → IsBalanceEvent c m e
    → IsBalanceEvent c m f
    → AreApart e f
    → seq_of e ≢ seq_of f
    → was_applied (find_event e p) ≡ false
    → was_applied (find_event f p) ≡ false
    → (known_balance c m (apply_both now e f p) ≡ known_balance c m (apply_both now f e p))
      × (known_supply c (apply_both now e f p) ≡ known_supply c (apply_both now f e p))
apply_event-commutes now c m e f p ke kf apart ne fe ff =
    let (b1, s1) = known-both now c m e f p ke kf (both-folded now e f p apart fe ff) in
    let (b2, s2) = known-both now c m f e p kf ke (both-folded now f e p (ground arith) ff fe) in
    (b1 ∙ (fresher_swaps _ _ _ _ _ ne ∙ sym b2), s1 ∙ (fresher_swaps _ _ _ _ _ ne ∙ sym s2))
