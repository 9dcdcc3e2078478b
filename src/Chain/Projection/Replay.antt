-- ===== src/Chain/Projection/Replay.antt =====
-- An event that has been folded is not folded again.
use you_fen.Base.{
  ℕ, ◌≡◌, refl, sym, subst, ap, ◌∙◌, true, false, Option, none, some, find, find_sound, Bool-cases,
  find-update_first, find-append_none, inl, inr, ==_refl, arith,
}
use you_fen.Chain.Projection.{
  EventName, DecodedChainEvent, ChainEventRow, Projections, is_event, mark_verified, fold_counts,
  for_member, apply_balance_event, apply_enroll, apply_rotate, record_execution,
  apply_proposal_executed, fold_event, ApplyOutcome, was_applied, find_event, add_event, stamp,
  mark_applied, apply_event,
}

-- The fold leaves the table of events alone.
for_member-events :
    (c m : Option ℕ) (f : ℕ → ℕ → Projections → Projections) (p : Projections)
    → ((x y : ℕ) (q : Projections) → (f x y q).events ≡ q.events)
    → (for_member c m f p).events ≡ p.events
for_member-events none m f p k = refl
for_member-events (some c) none f p k = refl
for_member-events (some c) (some m) f p k = k c m p

mark_verified-events :
    (block now : ℕ) (h : Option ℕ) (p : Projections)
    → (mark_verified block now h p).events ≡ p.events
mark_verified-events block now none p = refl
mark_verified-events block now (some h) p = refl

record_execution-events :
    (now : ℕ) (e : DecodedChainEvent) (o : Option ℕ) (p : Projections)
    → (record_execution now e o p).events ≡ p.events
record_execution-events now e none p = refl
record_execution-events now e (some x) p = refl

pub fold_event-events :
    (now : ℕ) (e : DecodedChainEvent) (n : EventName) (p : Projections)
    → (fold_event now e n p).events ≡ p.events
unfolding apply_balance_event apply_enroll apply_rotate apply_proposal_executed
fold_event-events now e EventName.mint_executed p =
    for_member-events e.community_id e.member_id_hash _ p
      (λ c m q. mark_verified-events e.block_number now e.record_hash (fold_counts false e c m q))
fold_event-events now e EventName.reversal_executed p =
    for_member-events e.community_id e.member_id_hash _ p
      (λ c m q. mark_verified-events e.block_number now e.record_hash (fold_counts true e c m q))
fold_event-events now e EventName.member_enrolled p =
    for_member-events e.community_id e.member_id_hash _ p (λ c m q. refl)
fold_event-events now e EventName.member_key_rotated p =
    for_member-events e.community_id e.member_id_hash _ p (λ c m q. refl)
fold_event-events now e EventName.proposal_executed p =
    record_execution-events now e e.proposal_id p
fold_event-events now e EventName.other p = refl

-- After the row is there, it is found.
added :
    (e : DecodedChainEvent) (o : Option ChainEventRow) (p : Projections)
    → find_event e p ≡ o
    → (r : ChainEventRow) × (find_event e (add_event e o p) ≡ some r)
added e (some r) p h = (r, h)
added e none p h = (
  record { event = e; applied_at = none },
  find-append_none (is_event e.tx_hash e.log_index) p.events _ h
      ∙ ground (arith, ==_refl e.tx_hash, ==_refl e.log_index),
)

marked :
    (now : ℕ) (e : DecodedChainEvent) (p : Projections) (r : ChainEventRow)
    → find_event e p ≡ some r
    → find_event e (mark_applied now e p) ≡ some (stamp now r)
marked now e p r h =
    find-update_first (is_event e.tx_hash e.log_index) (stamp now) p.events r h
      (find_sound (is_event e.tx_hash e.log_index) p.events r h)

skips :
    (now : ℕ) (e : DecodedChainEvent) (p : Projections)
    → was_applied (find_event e p) ≡ true
    → apply_event now e p ≡ (ApplyOutcome.skipped, p)
unfolding apply_event
skips now e p done = rw done refl

-- The tables after the fold of a new event.
abbrev pub folded : ℕ → DecodedChainEvent → Projections → Projections
folded now e p = mark_applied now e (fold_event now e e.event_name (add_event e (find_event e p) p))

pub applies :
    (now : ℕ) (e : DecodedChainEvent) (p : Projections)
    → was_applied (find_event e p) ≡ false
    → apply_event now e p ≡ (ApplyOutcome.applied, folded now e p)
unfolding apply_event
applies now e p new = rw new refl

folded-done :
    (now : ℕ) (e : DecodedChainEvent) (p : Projections)
    → was_applied (find_event e (folded now e p)) ≡ true
folded-done now e p =
    let (r, there) = added e (find_event e p) p refl in
    let q = add_event e (find_event e p) p in
    ap was_applied (
      marked now e (fold_event now e e.event_name q) r (
        ap (find (is_event e.tx_hash e.log_index)) (fold_event-events now e e.event_name q)
        ∙ there))

-- Whatever the tables are: an event that was given to the fold is skipped when it is given to it
-- again, at whatever time, and the tables stay as they are.
pub apply_event-replay :
    (now later : ℕ) (e : DecodedChainEvent) (p : Projections)
    → let q = (apply_event now e p).1 in apply_event later e q ≡ (ApplyOutcome.skipped, q)
apply_event-replay now later e p = elim (Bool-cases (was_applied (find_event e p))) [
  | inl done ↦
      subst (λ x. apply_event later e x.1 ≡ (ApplyOutcome.skipped, x.1)) (sym (skips now e p done))
        (skips later e p done)
  | inr new ↦
      subst (λ x. apply_event later e x.1 ≡ (ApplyOutcome.skipped, x.1)) (sym (applies now e p new))
        (skips later e (folded now e p) (folded-done now e p))
]
