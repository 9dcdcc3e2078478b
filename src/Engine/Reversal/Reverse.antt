-- ===== src/Engine/Reversal/Reverse.antt =====
-- `reverseMint` of lib/engine/reversal-service.ts: the transaction.
pub mod Runs
pub mod Conservation
pub mod Once
use you_fen.Base.{
  ℕ, ◌+◌, ◌-◌, Bool, true, false, not, Option, none, some, List, [], ◌∷◌, ◌++◌, ◌==◌, any, find,
  update_first, if◌then◌else◌,
}
use you_fen.Engine.Errors.{not_found, invalid_reason, already_reversed, conflict}
use you_fen.Engine.Tables.{
  MintEventRow, BalanceRow, StateRow, ReversalEventRow, RecordType, SourceTable,
}
use you_fen.Engine.Db.{
  Db, Tx, ◌>>=◌, ◌>>◌, pure, gets, lift, require, throw_if, modify, fresh_id, assert_found,
}
use you_fen.Engine.Db.Locks.{
  lock_mint_event, lock_state, lock_balance, allocate_ledger_seq, is_state_of,
}
use you_fen.Engine.Ports.{Ports, RecordSource, TokenReversalEventData, create_pending_record}
use you_fen.Engine.Reversal.Guards.{
  ReverseInput, is_known_reason, governance_gate, reversal_amount, active_deduct, pending_deduct,
  overdraws,
}

-- The rows of step 2.
pub record ReversalRows : Type 0 where
  pub mint : MintEventRow
  pub state : StateRow
  pub balance : BalanceRow

-- Step 2: the state is locked before the balance.
unfoldable pub lock_rows : ℕ → Tx ReversalRows
unfolding lock_mint_event lock_state lock_balance
lock_rows original_mint_event_id = do
  mint ← require (← lock_mint_event original_mint_event_id) not_found
  state ← require (← lock_state mint.community_id) not_found
  balance ← require (← lock_balance mint.community_id mint.member_id) not_found
  pure (record { mint = mint; state = state; balance = balance })

-- Steps 4 to 6: one reversal for a mint; an amount within the mint and within the balances.
unfoldable pub bound_amount : ReverseInput → ReversalRows → Tx ℕ
bound_amount i rows = do
  throw_if
      (← gets
        λ d. any (λ r. r.original_mint_event_id == i.original_mint_event_id) d.reversal_events)
      already_reversed
  amount ← lift (reversal_amount i.amount rows.mint.amount)
  throw_if (overdraws rows.mint rows.balance rows.state amount) conflict
  pure amount

-- What steps 1 to 6 have read and decided.
pub record ReversalPlan : Type 0 where
  pub mint : MintEventRow
  pub state : StateRow
  pub balance : BalanceRow
  pub amount : ℕ

unfoldable pub check_reversal : ReverseInput → Tx ReversalPlan
check_reversal i = do
  throw_if (not (is_known_reason i.reason)) invalid_reason
  rows ← lock_rows i.original_mint_event_id
  governance_gate i rows.mint
  amount ← bound_amount i rows
  pure (record { mint = rows.mint; state = rows.state; balance = rows.balance; amount = amount })

abbrev pub reversal_row : ReverseInput → ReversalPlan → ℕ → ℕ → ℕ → ReversalEventRow
reversal_row i plan now ledger_seq id = record {
  id = id;
  community_id = plan.mint.community_id;
  member_id = plan.mint.member_id;
  original_mint_event_id = i.original_mint_event_id;
  amount = plan.amount;
  reason = i.reason;
  total_balance_after = plan.balance.total_balance - plan.amount;
  active_governance_balance_after =
      plan.balance.active_governance_balance - active_deduct plan.mint plan.amount;
  pending_governance_balance_after =
      plan.balance.pending_governance_balance - pending_deduct plan.mint plan.amount;
  total_supply_after = plan.state.current_total_supply - plan.amount;
  approved_by = i.approved_by;
  proposal_id = i.proposal_id;
  ledger_seq = ledger_seq;
  created_at = now;
  public_record_id = none;
}

-- Step 7: a second reversal of one mint violates the unique key, and turns into ALREADY_REVERSED.
unfoldable pub insert_reversal : (ℕ → ReversalEventRow) → Tx ReversalEventRow
insert_reversal row_of = do
  id ← fresh_id
  throw_if
      (← gets λ d.
        any (λ r. r.original_mint_event_id == (row_of id).original_mint_event_id) d.reversal_events)
      already_reversed
  modify λ d. record d { reversal_events = d.reversal_events ++ row_of id ∷ [] }
  pure (row_of id)

abbrev pub debit : MintEventRow → ℕ → BalanceRow → BalanceRow
debit mint amount b = record b {
  total_balance = b.total_balance - amount;
  active_governance_balance = b.active_governance_balance - active_deduct mint amount;
  pending_governance_balance = b.pending_governance_balance - pending_deduct mint amount;
  tokens_reversed_lifetime = b.tokens_reversed_lifetime + amount;
}

abbrev pub shrink : ℕ → StateRow → StateRow
shrink amount s = record s { current_total_supply = s.current_total_supply - amount }

-- Step 8: the rows are those of the locks, so that no difference is cut off.
unfoldable pub debit_member : ReversalPlan → Tx Unit
debit_member plan = do
  assert_found (← gets λ d. any (λ b. b.id == plan.balance.id) d.balances)
  modify λ d. record d {
    balances = update_first (λ b. b.id == plan.balance.id) (debit plan.mint plan.amount) d.balances;
  }
  assert_found (← gets λ d. any (is_state_of plan.mint.community_id) d.states)
  modify λ d. record d {
    states = update_first (is_state_of plan.mint.community_id) (shrink plan.amount) d.states;
  }

abbrev pub reversal_event_data : ReversalEventRow → TokenReversalEventData
reversal_event_data r = record {
  id = r.id;
  community_id = r.community_id;
  member_id = r.member_id;
  original_mint_event_id = r.original_mint_event_id;
  amount = r.amount;
  total_balance_after = r.total_balance_after;
  total_supply_after = r.total_supply_after;
  created_at = r.created_at;
  ledger_seq = r.ledger_seq;
}

abbrev pub set_reversal_record : ℕ → ReversalEventRow → ReversalEventRow
set_reversal_record record_id r = record r { public_record_id = some record_id }

pub record ReversalOutcome : Type 0 where
  pub reversal_event_id : ℕ
  pub public_record_id : ℕ

-- Step 9: the record of the reversal names the hash of the original record. A stored hash is never
-- the empty text.
unfoldable pub attach_reversal_record : Ports → MintEventRow → ReversalEventRow → Tx ReversalOutcome
unfolding create_pending_record
attach_reversal_record ports mint rev = do
  original_id ← require mint.public_record_id conflict
  original ← require (← gets λ d. find (λ r. r.id == original_id) d.records) conflict
  record_id ←
      create_pending_record RecordType.token_reversal SourceTable.token_reversal_event rev.id
        mint.community_id
        (ports.build_envelope
          (RecordSource.token_reversal (reversal_event_data rev) original.record_hash))
  assert_found (← gets λ d. any (λ r. r.id == rev.id) d.reversal_events)
  modify λ d. record d {
    reversal_events =
        update_first (λ r. r.id == rev.id) (set_reversal_record record_id) d.reversal_events;
  }
  pure (record { reversal_event_id = rev.id; public_record_id = record_id })

-- Steps 7 to 9.
unfoldable pub write_reversal : Ports → ReverseInput → ReversalPlan → Tx ReversalOutcome
write_reversal ports i plan = do
  ledger_seq ← allocate_ledger_seq plan.mint.community_id
  rev ← insert_reversal (reversal_row i plan ports.now ledger_seq)
  debit_member plan
  attach_reversal_record ports plan.mint rev

unfoldable pub reverse_mint : Ports → ReverseInput → Tx ReversalOutcome
reverse_mint ports i = do plan ← check_reversal i; write_reversal ports i plan
