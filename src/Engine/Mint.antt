-- ===== src/Engine/Mint.antt =====
-- lib/engine/mint-service.ts, what its two entry points share: the balance row, the insertion of a
-- mint event and its public record.
mod Legs
pub mod Gates
pub mod Events
pub mod Frames
pub mod Conservation
pub mod Once
pub mod Contribution
pub mod Genesis
pub mod Seed
unfoldable pub use Legs.*
use you_fen.Base.{
  ℕ, ◌+◌, ◌-◌, ℤ, pos, negsuc, Bool, true, false, ◌&&◌, ◌||◌, not, Option, none, some, List, [],
  ◌∷◌, ◌++◌, ◌==◌, ltb, leb, option_eq, or_default, is_some, any, find, update_first, if◌then◌else◌,
}
use you_fen.Engine.Errors.{
  ok, err, already_minted, not_found, not_approved, epoch_not_active, rule_violation,
  member_cap_exceeded, insufficient_budget, advance_cap_exceeded, rolling_advance_forbidden,
  advance_rate_exceeded, proposal_required, second_approver_required, invalid_status, forbidden,
  conflict, validation_error,
}
use you_fen.Engine.Calc.{
  calculate_cumulative_advance_rate_bps, calculate_member_epoch_cap, calculate_ownership_percentage,
  resolve_advance_approval, standard_rule, dual_admin, community_proposal, system_forbidden,
}
use you_fen.Engine.Tables.{
  BudgetSource, current_epoch, next_epoch_advance, MintType, GovernanceStatus, EpochRow, BalanceRow,
  StateRow, MintEventRow, PolicyRow, PolicyRule, ContributionRow, AdvanceRequestRow, ProposalRow,
  RequestStatus, ProposalType, RecordType, SourceTable, request_is_approved, proposal_is_recorded,
  contribution_is_approved, is_related_role,
}
use you_fen.Engine.Db.{
  Db, Tx, ◌>>=◌, ◌>>◌, pure, gets, lift, throw, require, throw_if, modify, fresh_id, assert_found,
}
use you_fen.Engine.Db.Locks.{
  lock_active_epoch, lock_balance, lock_state, allocate_ledger_seq, is_balance_of, is_state_of,
}
use you_fen.Engine.Db.Sql.{increment_regular_minted_guarded, increment_advanced_minted_guarded}
use you_fen.Engine.Ports.{Ports, TokenMintEventData, RecordSource, create_pending_record}

-- The id of the epoch that genesis mints name is no epoch's: it is modelled by `none`.
abbrev genesis_epoch_number : ℕ
genesis_epoch_number = 0

-- `ruleTokenAmount`
abbrev pub rule_token_amount : Option (List PolicyRule) → Option ℕ → Option ℤ
rule_token_amount (some rules) (some rule_id) = elim (find (λ r. r.id == rule_id) rules) [
  | none ↦ none
  | some r ↦ some r.token_amount
]
rule_token_amount _ _ = none

abbrev pub same_source : BudgetSource → BudgetSource → Bool
same_source current_epoch current_epoch = true
same_source next_epoch_advance next_epoch_advance = true
same_source _ _ = false

-- The unique key [contributionId, budgetSource]; a null contribution never clashes.
abbrev pub same_mint_key : MintEventRow → MintEventRow → Bool
same_mint_key a b =
    is_some a.contribution_id
    && (option_eq a.contribution_id b.contribution_id
        && same_source a.budget_source b.budget_source)

abbrev pub mint_record_type : BudgetSource → RecordType
mint_record_type current_epoch = RecordType.token_mint
mint_record_type next_epoch_advance = RecordType.advance_mint

abbrev pub mint_event_data : MintEventRow → TokenMintEventData
mint_event_data m = record {
  id = m.id;
  community_id = m.community_id;
  member_id = m.member_id;
  epoch_number = m.epoch_number;
  mint_type = m.mint_type;
  budget_source = m.budget_source;
  amount = m.amount;
  member_balance_before = m.member_balance_before;
  member_balance_after = m.member_balance_after;
  total_supply_before = m.total_supply_before;
  total_supply_after = m.total_supply_after;
  governance_activation_epoch = m.governance_activation_epoch;
  token_policy_version = m.token_policy_version;
  created_at = m.created_at;
  ledger_seq = m.ledger_seq;
}

abbrev pub mint_source : MintEventRow → RecordSource
mint_source m = elim m.budget_source [
  | current_epoch ↦ RecordSource.token_mint (mint_event_data m)
  | next_epoch_advance ↦ RecordSource.advance_mint (mint_event_data m)
]

-- `insertMintEvent`: the data of the row, without its id, is given as a function of the id. A row
-- of the same key turns the insertion into ALREADY_MINTED.
unfoldable pub insert_mint_event : (ℕ → MintEventRow) → Tx MintEventRow
insert_mint_event data_of = do
  id ← fresh_id
  let row = data_of id
  throw_if (← gets λ d. any (same_mint_key row) d.mint_events) already_minted
  modify λ d. record d { mint_events = d.mint_events ++ row ∷ [] }
  pure row

abbrev pub set_mint_record : ℕ → MintEventRow → MintEventRow
set_mint_record record_id m = record m { public_record_id = some record_id }

-- `attachRecord`
unfoldable pub attach_record : Ports → ℕ → MintEventRow → Tx ℕ
unfolding create_pending_record
attach_record ports community_id m = do
  record_id ←
      create_pending_record (mint_record_type m.budget_source) SourceTable.token_mint_event m.id
        community_id (ports.build_envelope (mint_source m))
  assert_found (← gets λ d. any (λ r. r.id == m.id) d.mint_events)
  modify λ d. record d {
    mint_events = update_first (λ r. r.id == m.id) (set_mint_record record_id) d.mint_events;
  }
  pure record_id

-- The loop over `created`: the ids of the records, in order.
unfoldable pub attach_records : Ports → ℕ → List MintEventRow → Tx (List ℕ)
attach_records ports community_id [] = pure []
attach_records ports community_id (m ∷ ms) = attach_record ports community_id m >>= λ id.
    attach_records ports community_id ms >>= λ ids. pure (id ∷ ids)

-- `MintOutcome`, with the mint events as they were created and their record ids beside them.
pub record MintOutcome : Type 0 where
  pub mint_events : List MintEventRow
  pub record_ids : List ℕ
  pub member_balance_after : ℕ
  pub total_supply_after : ℕ
