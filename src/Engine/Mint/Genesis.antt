-- ===== src/Engine/Mint/Genesis.antt =====
-- `mintInitialAllocation` of lib/engine/mint-service.ts: the genesis distribution.
use you_fen.Base.{
  ℕ, ◌+◌, ◌-◌, ℤ, pos, negsuc, Bool, true, false, ◌&&◌, none, some, List, [], ◌∷◌, ◌==◌, ltb, any,
  find, if◌then◌else◌,
}
use you_fen.Engine.Errors.{Result, ok, fail, already_minted, not_found, validation_error}
use you_fen.Engine.Calc.{calculate_ownership_percentage}
use you_fen.Engine.Tables.{
  MintType, current_epoch, GovernanceStatus, BalanceRow, MintEventRow, PolicyRow, StateRow,
}
use you_fen.Engine.Db.{Tx, ◌>>=◌, ◌>>◌, pure, gets, lift, require, throw_if}
use you_fen.Engine.Db.Locks.{lock_state, allocate_ledger_seq}
use you_fen.Engine.Balances.{lock_or_create_balance, credit_balance, grow_supply}
use you_fen.Engine.Ports.{Ports}
use you_fen.Engine.Mint.{MintOutcome, insert_mint_event, attach_records}

pub record Allocation : Type 0 where
  pub member_id : ℕ
  pub amount : ℤ

pub record AllocationInput : Type 0 where
  pub community_id : ℕ
  pub allocations : List Allocation
  pub reason : ℕ
  pub approved_by : ℕ

abbrev is_initial : MintType → Bool
is_initial MintType.initial_allocation = true
is_initial _ = false

abbrev pub is_seed_of : ℕ → MintEventRow → Bool
is_seed_of community_id m = m.community_id == community_id && is_initial m.mint_type

-- `if (alloc.amount <= 0n) throw`, which hands on a positive number.
abbrev pub require_positive_allocation : ℤ → Result ℕ
require_positive_allocation (pos n) = if ltb 0 n then ok n else fail validation_error
require_positive_allocation (negsuc n) = fail validation_error

abbrev pub genesis_credit : ℕ → ℕ → BalanceRow → BalanceRow
genesis_credit amount now b = record b {
  total_balance = b.total_balance + amount;
  active_governance_balance = b.active_governance_balance + amount;
  tokens_earned_lifetime = b.tokens_earned_lifetime + amount;
  last_mint_at = some now;
}

-- The row of one allocation, on top of the running supply.
abbrev pub genesis_row :
    AllocationInput → PolicyRow → Allocation → BalanceRow → ℕ → ℕ → ℕ → ℕ → ℕ → ℕ → ℕ → MintEventRow
genesis_row i policy alloc balance amount supply before after ledger_seq now id = record {
  id = id;
  community_id = i.community_id;
  member_id = alloc.member_id;
  epoch_id = none;
  epoch_number = 0;
  mint_type = MintType.initial_allocation;
  budget_source = current_epoch;
  amount = amount;
  governance_activation_epoch = none;
  governance_status = GovernanceStatus.active;
  member_balance_before = balance.total_balance;
  member_balance_after = balance.total_balance + amount;
  total_supply_before = supply;
  total_supply_after = supply + amount;
  token_policy_version = policy.policy_version;
  reason = i.reason;
  approved_by = i.approved_by;
  active_governance_before = balance.active_governance_balance;
  active_governance_after = balance.active_governance_balance + amount;
  ownership_percentage_before = before;
  ownership_percentage_after = after;
  contribution_id = none;
  rule_id = none;
  proposal_id = none;
  advance_request_id = none;
  second_approved_by = none;
  related_party = false;
  evidence_urls = [];
  ledger_seq = ledger_seq;
  created_at = now;
  public_record_id = none;
}

-- One round of the loop: the row, with the amount that was checked.
unfoldable pub allocate_one :
    AllocationInput → PolicyRow → ℕ → ℕ → Allocation → Tx (ℕ × MintEventRow)
allocate_one i policy now supply alloc = do
  amount ← lift (require_positive_allocation alloc.amount)
  balance ← lock_or_create_balance i.community_id alloc.member_id
  ledger_seq ← allocate_ledger_seq i.community_id
  before ← lift (calculate_ownership_percentage (pos balance.total_balance) (pos supply))
  after ← lift (
      calculate_ownership_percentage (pos (balance.total_balance + amount)) (pos (supply + amount)))
  row ←
      insert_mint_event
        (genesis_row i policy alloc balance amount supply before after ledger_seq now)
  credit_balance i.community_id alloc.member_id (genesis_credit amount now)
  pure (amount, row)

-- The loop, with the running supply: the rows, and the supply after them.
unfoldable pub allocate_all :
    AllocationInput → PolicyRow → ℕ → ℕ → List Allocation → Tx (List MintEventRow × ℕ)
allocate_all i policy now supply [] = pure ([], supply)
allocate_all i policy now supply (alloc ∷ allocs) =
    allocate_one i policy now supply alloc >>= λ one.
    allocate_all i policy now (supply + one.0) allocs >>= λ rest. pure (one.1 ∷ rest.0, rest.1)

-- `lastMemberBalanceAfter`, which starts at zero.
abbrev pub last_balance : List MintEventRow → ℕ
last_balance [] = 0
last_balance (row ∷ []) = row.member_balance_after
last_balance (row ∷ (next ∷ rows)) = last_balance (next ∷ rows)

-- What follows the loop: the supply is raised by the difference, and the rows get their records.
unfoldable pub finish_allocation :
    Ports → AllocationInput → StateRow → List MintEventRow × ℕ → Tx MintOutcome
finish_allocation ports i state all = do
  grow_supply i.community_id (all.1 - state.current_total_supply)
  record_ids ← attach_records ports i.community_id all.0
  pure (record {
    mint_events = all.0;
    record_ids = record_ids;
    member_balance_after = last_balance all.0;
    total_supply_after = all.1;
  })

unfoldable pub mint_initial_allocation : Ports → AllocationInput → Tx MintOutcome
unfolding lock_state
mint_initial_allocation ports i = do
  throw_if (← gets λ d. any (is_seed_of i.community_id) d.mint_events) already_minted
  state ← require (← lock_state i.community_id) not_found
  policy ← require (← gets λ d. find (λ p. p.community_id == i.community_id) d.policies) not_found
  all ← allocate_all i policy ports.now state.current_total_supply i.allocations
  finish_allocation ports i state all
