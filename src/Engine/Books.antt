-- ===== src/Engine/Books.antt =====
-- The books of a community, read off the tables of the engine: what its members hold, what its
-- state row says, what its append-only ledgers add up to.
pub mod Rows
pub mod Keys
pub mod Updates
pub mod Steps
pub mod Acts
use you_fen.Base.{
  ℕ, ◌+◌, ◌≤◌, ◌≡◌, Bool, true, false, Option, none, some, ◌==◌, List, [], ◌∷◌, ◌≢◌, ◌<◌, sum_of,
  find, All, if◌then◌else◌,
}
use you_fen.Engine.Tables.{EpochRow, BalanceRow, StateRow, MintEventRow, ReversalEventRow}
use you_fen.Engine.Db.{Db}
use you_fen.Engine.Db.Locks.{is_state_of}

-- An amount that counts for community `c` if it belongs to it.
abbrev pub counts_for : ℕ → ℕ → ℕ → ℕ
counts_for c owner amount = if owner == c then amount else 0

abbrev pub held_by : ℕ → BalanceRow → ℕ
held_by c b = counts_for c b.community_id b.total_balance

abbrev pub minted_by : ℕ → MintEventRow → ℕ
minted_by c m = counts_for c m.community_id m.amount

abbrev pub reversed_by : ℕ → ReversalEventRow → ℕ
reversed_by c r = counts_for c r.community_id r.amount

-- The sum of the members' balances.
abbrev pub held : ℕ → Db → ℕ
held c d = sum_of (held_by c) d.balances

-- `currentTotalSupply` of the row that `lockState` finds.
abbrev pub supply_in : Option StateRow → ℕ
supply_in none = 0
supply_in (some s) = s.current_total_supply

abbrev pub supply : ℕ → Db → ℕ
supply c d = supply_in (find (is_state_of c) d.states)

abbrev pub minted : ℕ → Db → ℕ
minted c d = sum_of (minted_by c) d.mint_events

abbrev pub reversed : ℕ → Db → ℕ
reversed c d = sum_of (reversed_by c) d.reversal_events

-- A balance is the sum of its active and its pending part.
abbrev pub IsSplit : BalanceRow → Type 0
IsSplit b = b.total_balance ≡ b.active_governance_balance + b.pending_governance_balance

-- An epoch has minted no more than its two budgets.
abbrev pub IsWithinBudget : EpochRow → Type 0
IsWithinBudget e =
    (e.regular_minted_amount ≤ e.effective_regular_budget)
    × (e.advanced_minted_amount ≤ e.max_advance_amount)

-- The rows of a table have different ids, all of them handed out before.
abbrev pub Differ : List BalanceRow → Type 0
Differ [] = Unit
Differ (b ∷ bs) = All (λ x. x.id ≢ b.id) bs × Differ bs

abbrev pub Keyed : ℕ → List BalanceRow → Type 0
Keyed n bs = All (λ b. b.id < n) bs × Differ bs

-- The four totals of community `c`, and what holds of every row.
pub record Totals (c h s m r : ℕ) (d : Db) : Type 0 where
  pub held_eq : held c d ≡ h
  pub supply_eq : supply c d ≡ s
  pub minted_eq : minted c d ≡ m
  pub reversed_eq : reversed c d ≡ r
  pub split : All IsSplit d.balances
  pub meters : All IsWithinBudget d.epochs
  pub keyed : Keyed d.next_id d.balances

-- The books of community `c` balance: its members hold the supply that is on record, which is what
-- was minted less what was reversed; every balance splits; every epoch is within its budgets;
-- the balances have ids of their own.
pub record Balanced (c : ℕ) (d : Db) : Type 0 where
  pub conserved : supply c d ≡ held c d
  pub ledgered : held c d + reversed c d ≡ minted c d
  pub split : All IsSplit d.balances
  pub meters : All IsWithinBudget d.epochs
  pub keyed : Keyed d.next_id d.balances
