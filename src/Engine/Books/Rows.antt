-- ===== src/Engine/Books/Rows.antt =====
-- What an update of one row does to the sums over its table, and the keys of the balances.
use you_fen.Base.{
  ℕ, ◌+◌, ◌≡◌, refl, Bool, true, some, List, [], ◌∷◌, inl, inr, arith, sum_of, find, any, any-find,
  update_first, update_all, sum_of-update_first, Option-cases,
}
use you_fen.Engine.Tables.{BalanceRow, StateRow}
use you_fen.Engine.Db.Locks.{is_state_of, bump_seq}
use you_fen.Engine.Books.{counts_for, held_by, supply_in}

pub found :
    {A : Type 0} (p : A → Bool) (xs : List A) → any p xs ≡ true → (x : A) × (find p xs ≡ some x)
found p xs h = elim (Option-cases (find p xs)) [
  | inl e ↦ absurd (cc (any-find p xs, e))
  | inr f ↦ f
]

-- The row that an update addresses, and its part of the sum.
pub held-change :
    (c : ℕ) (p : BalanceRow → Bool) (g : BalanceRow → BalanceRow) (bs : List BalanceRow)
    (b : BalanceRow)
    → ((b : BalanceRow) → (g b).community_id ≡ b.community_id)
    → find p bs ≡ some b
    → sum_of (held_by c) (update_first p g bs) + counts_for c b.community_id b.total_balance
      ≡ sum_of (held_by c) bs + counts_for c b.community_id (g b).total_balance
held-change c p g bs b same h = ground (arith, sum_of-update_first (held_by c) p g bs b h, same b)

pub supply-change :
    (c owner : ℕ) (k : StateRow → StateRow) (ss : List StateRow) (w : StateRow)
    → ((s : StateRow) → (k s).community_id ≡ s.community_id)
    → find (is_state_of owner) ss ≡ some w
    → supply_in (find (is_state_of c) (update_first (is_state_of owner) k ss))
        + counts_for c owner w.current_total_supply
      ≡ supply_in (find (is_state_of c) ss) + counts_for c owner (k w).current_total_supply
supply-change c owner k [] w same h = cc
supply-change c owner k (s ∷ ss) w same h =
    ground (arith, same s, supply-change c owner k ss w same)

pub supply-bump :
    (c owner : ℕ) (ss : List StateRow)
    → supply_in (find (is_state_of c) (update_all (is_state_of owner) bump_seq ss))
      ≡ supply_in (find (is_state_of c) ss)
supply-bump c owner [] = refl
supply-bump c owner (s ∷ ss) = ground (arith, supply-bump c owner ss)
