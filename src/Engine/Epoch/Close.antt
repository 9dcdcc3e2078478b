-- ===== src/Engine/Epoch/Close.antt =====
-- `closeEpoch` of lib/engine/epoch-service.ts: the transaction, in the order of its steps.
use you_fen.Base.{
  ℕ, ◌+◌, ℤ, pos, sub_ℕ, Bool, true, false, ◌&&◌, Option, none, some, List, [], ◌∷◌, ◌++◌, ◌==◌,
  ltb, any, find, update_first, update_all, option_eq, or_default, if◌then◌else◌,
}
use you_fen.Engine.Errors.{not_found, invalid_status, conflict}
use you_fen.Engine.Calc.{calculate_carried_over_debt}
use you_fen.Engine.Tables.{
  EpochRow, EpochStatus, BalanceRow, MintEventRow, PolicyRow, StateRow, GovernanceStatus,
  RecordType, SourceTable,
}
use you_fen.Engine.Db.{
  Tx, ◌>>=◌, ◌>>◌, pure, gets, lift, throw, require, throw_if, modify, fresh_id, assert_found,
}
use you_fen.Engine.Db.Locks.{lock_epoch_by_id, lock_state}
use you_fen.Engine.Db.Sql.{activate_pending_governance}
use you_fen.Engine.Ports.{
  Ports, RecordSource, TokenEpochData, create_pending_record, create_db_only_record,
}
use you_fen.Engine.Policy.{read_policy, activate_pending_version}
use you_fen.Engine.Epoch.{DerivedBudget, derive_budget, epoch_row, same_epoch_key}

pub data CloseOutcome : Type 0 where
  noop : CloseOutcome
  -- The community, the next epoch, the records to submit.
  closed : ℕ → ℕ → List ℕ → CloseOutcome

-- `tokenEpoch.update`
unfoldable pub update_epoch : ℕ → (EpochRow → EpochRow) → Tx Unit
update_epoch epoch_id change = do
  assert_found (← gets λ d. any (λ e. e.id == epoch_id) d.epochs)
  modify λ d. record d { epochs = update_first (λ e. e.id == epoch_id) change d.epochs }

abbrev pub mark_closing : ℤ → ℕ → EpochRow → EpochRow
mark_closing unused now e = record e {
  status = EpochStatus.closing;
  unused_regular_budget = unused;
  closed_at = some now;
}

abbrev pub mark_closed : ℕ → EpochRow → EpochRow
mark_closed record_id e = record e {
  status = EpochStatus.closed;
  public_record_id = some record_id;
}

-- `requirePolicy` and `requireState`
unfoldable pub require_policy : ℕ → Tx PolicyRow
unfolding read_policy
require_policy community_id = do row ← read_policy community_id; require row not_found

unfoldable pub require_state : ℕ → Tx StateRow
unfolding lock_state
require_state community_id = do row ← lock_state community_id; require row not_found

-- The policy is read again where a version was activated.
abbrev pub reread_policy : ℕ → PolicyRow → Option ℕ → Tx PolicyRow
reread_policy community_id policy none = pure policy
reread_policy community_id policy (some record_id) = require_policy community_id

-- What the next epoch starts from.
pub record Opening : Type 0 where
  pub opening_supply : ℕ
  pub advance_debt : ℕ
  pub policy : PolicyRow
  pub activated : Option ℕ
  pub budget : DerivedBudget

-- Steps 4 to 7.
unfoldable pub open_next : Ports → EpochRow → Tx Opening
open_next ports current = do
  policy ← require_policy current.community_id
  state ← require_state current.community_id
  carried ← lift (
      calculate_carried_over_debt (pos current.base_mint_budget)
        (pos current.advance_debt_from_previous_epoch))
  activated ← activate_pending_version ports current.community_id (current.epoch_number + 1)
  effective ← reread_policy current.community_id policy activated
  budget ← lift (
      derive_budget state.current_total_supply (current.advanced_minted_amount + carried) effective)
  pure (record {
    opening_supply = state.current_total_supply;
    advance_debt = current.advanced_minted_amount + carried;
    policy = effective;
    activated = activated;
    budget = budget;
  })

abbrev is_pending : GovernanceStatus → Bool
is_pending GovernanceStatus.pending = true
is_pending GovernanceStatus.active = false

-- The events whose governance starts with the epoch that opens.
abbrev pub activates : ℕ → ℕ → MintEventRow → Bool
activates community_id epoch_number m =
    m.community_id == community_id
    && (is_pending m.governance_status
        && option_eq m.governance_activation_epoch (some epoch_number))

abbrev pub set_active : MintEventRow → MintEventRow
set_active m = record m { governance_status = GovernanceStatus.active }

abbrev pub reset_meter : BalanceRow → BalanceRow
reset_meter b = record b { tokens_earned_current_epoch = 0 }

-- Steps 8 and 9.
unfoldable pub roll_governance : ℕ → ℕ → Tx Unit
roll_governance community_id next_epoch_number = do
  rolled ← activate_pending_governance community_id
  modify λ d. record d {
    mint_events = update_all (activates community_id next_epoch_number) set_active d.mint_events;
  }
  modify λ d. record d {
    balances = update_all (λ b. b.community_id == community_id) reset_meter d.balances;
  }

-- `tokenEpoch.create`, where the unique key turns into CONFLICT.
unfoldable pub insert_epoch : (ℕ → EpochRow) → Tx EpochRow
insert_epoch row_of = do
  id ← fresh_id
  throw_if
      (← gets λ d. any (same_epoch_key (row_of id).community_id (row_of id).epoch_number) d.epochs)
      conflict
  modify λ d. record d { epochs = d.epochs ++ row_of id ∷ [] }
  pure (row_of id)

-- `toEpochData`
abbrev pub to_epoch_data : EpochRow → ℕ → ℕ → TokenEpochData
to_epoch_data e closed_at created_at = record {
  id = e.id;
  community_id = e.community_id;
  epoch_number = e.epoch_number;
  opening_supply = e.opening_supply;
  base_mint_budget = e.base_mint_budget;
  regular_minted_amount = e.regular_minted_amount;
  advanced_minted_amount = e.advanced_minted_amount;
  advance_debt_from_previous_epoch = e.advance_debt_from_previous_epoch;
  closed_at = closed_at;
  created_at = created_at;
}

-- Step 11.
unfoldable pub record_budget : Ports → EpochRow → Opening → Tx Unit
record_budget ports next o = do
  created ←
      create_db_only_record ports next.community_id RecordType.epoch_budget_created
        SourceTable.token_epoch next.id
        (next.epoch_number
          ∷ (o.opening_supply
              ∷ (o.budget.base_mint_budget
                  ∷ (o.budget.effective_regular_budget
                      ∷ (o.budget.max_advance_amount
                          ∷ (o.policy.monthly_inflation_rate_bps ∷ []))))))
  repaid ←
      if ltb 0 o.advance_debt
      then create_db_only_record ports next.community_id RecordType.advance_debt_repayment
          SourceTable.token_epoch next.id (next.epoch_number ∷ (o.advance_debt ∷ []))
      else pure 0
  pure tt

-- Steps 12 and 13: the summary describes the epoch as it was locked.
unfoldable pub record_summary : Ports → EpochRow → ℕ → Tx ℕ
unfolding create_pending_record update_epoch
record_summary ports current created_at = do
  summary_id ←
      create_pending_record RecordType.epoch_summary SourceTable.token_epoch current.id
        current.community_id
        (ports.build_envelope
          (RecordSource.epoch_summary (to_epoch_data current ports.now created_at)))
  update_epoch current.id (mark_closed summary_id)
  pure summary_id

abbrev pub created_at_of : ℕ → Option EpochRow → ℕ
created_at_of now none = now
created_at_of now (some e) = e.created_at

abbrev pub record_list : Option ℕ → List ℕ
record_list none = []
record_list (some id) = id ∷ []

-- Steps 2 to 13, for an epoch that is active.
unfoldable pub close_active : Ports → EpochRow → Tx CloseOutcome
close_active ports current = do
  update_epoch current.id (
      mark_closing (sub_ℕ current.effective_regular_budget current.regular_minted_amount) ports.now)
  full ← gets λ d. find (λ e. e.id == current.id) d.epochs
  o ← open_next ports current
  roll_governance current.community_id (current.epoch_number + 1)
  next ← insert_epoch (
      epoch_row current.community_id (current.epoch_number + 1)
        (or_default current.end_time ports.now) o.opening_supply o.advance_debt o.policy o.budget
        ports.now)
  record_budget ports next o
  summary_id ← record_summary ports current (created_at_of ports.now full)
  pure (closed current.community_id next.id (summary_id ∷ record_list o.activated))

abbrev pub close_from : Ports → EpochRow → EpochStatus → Tx CloseOutcome
close_from ports current EpochStatus.closed = pure noop
close_from ports current EpochStatus.active = close_active ports current
close_from ports current EpochStatus.closing = throw invalid_status
close_from ports current EpochStatus.other = throw invalid_status

unfoldable pub close_epoch : Ports → ℕ → Tx CloseOutcome
unfolding lock_epoch_by_id
close_epoch ports epoch_id = do
  current ← require (← lock_epoch_by_id epoch_id) not_found
  close_from ports current current.status
