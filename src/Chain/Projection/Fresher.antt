-- ===== src/Chain/Projection/Fresher.antt =====
-- What is known of a member's balance and of a supply: the fresher of what was known and what an
-- event says.
use you_fen.Base.{
  ℕ, ◌≡◌, ◌≢◌, Option, none, some, List, [], ◌∷◌, ltb, find, find_sound, any-find, find-append_none,
  find-update_first, Option-cases, inl, inr, ==_refl, if◌then◌else◌, arith,
}
use you_fen.Chain.Projection.{
  MemberChainBalance, is_member_balance, take_balance, fold_balance, CommunityTokenState,
  is_supply_of, take_supply, fold_supply, new_balance, new_supply, Projections,
}

-- What is known of a member or a community: a number and the sequence that it stands for.
abbrev pub known_of : Option MemberChainBalance → Option (ℕ × ℕ)
known_of none = none
known_of (some b) = some (b.balance, b.ledger_seq)

abbrev pub known_balance : ℕ → ℕ → Projections → Option (ℕ × ℕ)
known_balance c m p = known_of (find (is_member_balance c m) p.balances)

abbrev pub supply_known_of : Option CommunityTokenState → Option (ℕ × ℕ)
supply_known_of none = none
supply_known_of (some s) = some (s.current_total_supply, s.ledger_seq)

abbrev pub known_supply : ℕ → Projections → Option (ℕ × ℕ)
known_supply c p = supply_known_of (find (is_supply_of c) p.supplies)

-- The fresher of what is known and what an event says.
abbrev pub fresher : Option (ℕ × ℕ) → ℕ → ℕ → Option (ℕ × ℕ)
fresher none amount seq = some (amount, seq)
fresher (some old) amount seq = if ltb old.1 seq then some (amount, seq) else some old

pub fresher_swaps :
    (o : Option (ℕ × ℕ)) (b s b' s' : ℕ)
    → s ≢ s'
    → fresher (fresher o b s) b' s' ≡ fresher (fresher o b' s') b s
fresher_swaps none b s b' s' ne = ground arith
fresher_swaps (some old) b s b' s' ne = ground arith

pub fold_balance-fresher :
    (c m balance seq : ℕ) (rows : List MemberChainBalance)
    → known_of (find (is_member_balance c m) (fold_balance c m balance seq rows))
      ≡ fresher (known_of (find (is_member_balance c m) rows)) balance seq
unfolding fold_balance
fold_balance-fresher c m balance seq rows =
    elim (Option-cases (find (is_member_balance c m) rows)) [
      | inl missing ↦ ground (
        arith,
        any-find (is_member_balance c m) rows,
        find-append_none (is_member_balance c m) rows (new_balance c m balance seq ∷ []),
        ==_refl c,
        ==_refl m,
      )
      | inr (b, there) ↦ ground (
        arith,
        any-find (is_member_balance c m) rows,
        find_sound (is_member_balance c m) rows b,
        find-update_first (is_member_balance c m) (take_balance balance seq) rows b,
      )
    ]

pub fold_supply-fresher :
    (c supply seq : ℕ) (rows : List CommunityTokenState)
    → supply_known_of (find (is_supply_of c) (fold_supply c supply seq rows))
      ≡ fresher (supply_known_of (find (is_supply_of c) rows)) supply seq
unfolding fold_supply
fold_supply-fresher c supply seq rows = elim (Option-cases (find (is_supply_of c) rows)) [
  | inl missing ↦ ground (
    arith,
    any-find (is_supply_of c) rows,
    find-append_none (is_supply_of c) rows (new_supply c supply seq ∷ []),
    ==_refl c,
  )
  | inr (s, there) ↦ ground (
    arith,
    any-find (is_supply_of c) rows,
    find_sound (is_supply_of c) rows s,
    find-update_first (is_supply_of c) (take_supply supply seq) rows s,
  )
]
