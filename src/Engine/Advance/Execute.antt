-- ===== src/Engine/Advance/Execute.antt =====
-- `execute` of lib/engine/advance-service.ts: the mint against the advance budget.
use you_fen.Base.{
  ℕ, ◌+◌, pos, not, ◌||◌, Option, none, some, List, [], ◌∷◌, ◌==◌, ltb, leb, find, option_eq,
  or_default, is_some, if◌then◌else◌,
}
use you_fen.Engine.Errors.{
  conflict, invalid_status, epoch_not_active, rolling_advance_forbidden, not_found,
  advance_rate_exceeded, proposal_required, second_approver_required, advance_cap_exceeded,
}
use you_fen.Engine.Calc.{calculate_cumulative_advance_rate_bps, calculate_ownership_percentage}
use you_fen.Engine.Tables.{
  AdvanceRequestRow, RequestStatus, EpochRow, BalanceRow, StateRow, PolicyRow, MintEventRow,
  MintType, next_epoch_advance, GovernanceStatus, RecordType, SourceTable, epoch_is_active,
  proposal_is_recorded,
}
use you_fen.Engine.Db.{Db, Tx, ◌>>=◌, ◌>>◌, pure, gets, lift, throw, require, throw_if}
use you_fen.Engine.Db.Locks.{lock_epoch_by_id, lock_state, allocate_ledger_seq}
use you_fen.Engine.Db.Sql.{increment_advanced_minted_guarded}
use you_fen.Engine.Balances.{lock_or_create_balance, credit_member}
use you_fen.Engine.Ports.{Ports, create_db_only_record}
use you_fen.Engine.Mint.{MintOutcome, insert_mint_event, attach_record}
use you_fen.Engine.Advance.{load_request, update_request}
use you_fen.Engine.Advance.Requests.{advance_rate_clamp_bps, proposal_threshold_bps}

pub record ExecuteInput : Type 0 where
  pub request_id : ℕ
  pub evidence_urls : Option (List ℕ)

-- `mintOutcomeFrom`: nothing is to be submitted for a replay.
abbrev pub mint_outcome_from : MintEventRow → MintOutcome
mint_outcome_from mint = record {
  mint_events = mint ∷ [];
  record_ids = [];
  member_balance_after = mint.member_balance_after;
  total_supply_after = mint.total_supply_after;
}

-- The mint that a request has led to.
abbrev pub mint_of_request : ℕ → Db → Option MintEventRow
mint_of_request request_id d =
    find (λ m. option_eq m.advance_request_id (some request_id)) d.mint_events

-- The recheck of the approval, by the way that the request has taken.
abbrev pub recheck_approval : AdvanceRequestRow → ℕ → Option ℕ → Tx Unit
recheck_approval req cumulative_bps (some proposal_id) = do
  p ← require (← gets λ d. find (λ r. r.id == proposal_id) d.proposals) proposal_required
  throw_if (not (proposal_is_recorded p.status)) proposal_required
recheck_approval req cumulative_bps none =
    if ltb proposal_threshold_bps cumulative_bps || req.related_party
    then throw proposal_required
    else throw_if
        (not (is_some req.second_approved_by)
          || option_eq req.second_approved_by (some req.requested_by))
        second_approver_required

-- What the checks of `execute` have read.
pub record AdvancePlan : Type 0 where
  pub epoch : EpochRow
  pub policy : PolicyRow
  pub amount : ℕ
  pub cumulative_bps : ℕ

-- The checks between the lock of the epoch and the lock of the state.
unfoldable pub check_advance : AdvanceRequestRow → EpochRow → Tx AdvancePlan
check_advance req epoch = do
  let amount = or_default req.approved_amount req.requested_amount
  throw_if (leb (epoch.regular_minted_amount + amount) epoch.effective_regular_budget) conflict
  throw_if (ltb 0 epoch.advance_debt_from_previous_epoch) rolling_advance_forbidden
  policy ← require (← gets λ d. find (λ p. p.community_id == req.community_id) d.policies) not_found
  cumulative_bps ← lift (
      calculate_cumulative_advance_rate_bps (pos epoch.advanced_minted_amount) (pos amount)
        (pos epoch.base_mint_budget))
  throw_if (ltb advance_rate_clamp_bps cumulative_bps) advance_rate_exceeded
  throw_if (ltb policy.max_advance_rate_bps cumulative_bps) advance_rate_exceeded
  recheck_approval req cumulative_bps req.proposal_id
  pure (record { epoch = epoch; policy = policy; amount = amount; cumulative_bps = cumulative_bps })

abbrev pub advance_row :
    AdvanceRequestRow
    → AdvancePlan
    → StateRow
    → BalanceRow
    → List ℕ
    → ℕ
    → ℕ
    → ℕ
    → ℕ
    → ℕ
    → MintEventRow
advance_row req plan state balance evidence before after ledger_seq now id = record {
  id = id;
  community_id = req.community_id;
  member_id = req.member_id;
  epoch_id = some plan.epoch.id;
  epoch_number = plan.epoch.epoch_number;
  mint_type = MintType.special_reward;
  budget_source = next_epoch_advance;
  amount = plan.amount;
  governance_activation_epoch = some (plan.epoch.epoch_number + 1);
  governance_status = GovernanceStatus.pending;
  member_balance_before = balance.total_balance;
  member_balance_after = balance.total_balance + plan.amount;
  total_supply_before = state.current_total_supply;
  total_supply_after = state.current_total_supply + plan.amount;
  token_policy_version = plan.policy.policy_version;
  reason = req.reason;
  approved_by = req.requested_by;
  active_governance_before = balance.active_governance_balance;
  active_governance_after = balance.active_governance_balance;
  ownership_percentage_before = before;
  ownership_percentage_after = after;
  contribution_id = none;
  rule_id = none;
  proposal_id = req.proposal_id;
  advance_request_id = some req.id;
  second_approved_by = req.second_approved_by;
  related_party = req.related_party;
  evidence_urls = evidence;
  ledger_seq = ledger_seq;
  created_at = now;
  public_record_id = none;
}

abbrev pub credit_pending : ℕ → BalanceRow → BalanceRow
credit_pending amount b = record b {
  total_balance = b.total_balance + amount;
  pending_governance_balance = b.pending_governance_balance + amount;
}

abbrev pub mark_executed : ℕ → ℕ → AdvanceRequestRow → AdvanceRequestRow
mark_executed amount now r = record r {
  status = RequestStatus.executed;
  approved_amount = some amount;
  executed_at = some now;
}

abbrev pub set_request_record : ℕ → AdvanceRequestRow → AdvanceRequestRow
set_request_record record_id r = record r { public_record_id = some record_id }

-- The row of the mint: the state is locked before the balance. No contribution is named, so that
-- the unique key of mints never clashes.
unfoldable pub insert_advance :
    Ports → ExecuteInput → AdvanceRequestRow → AdvancePlan → Tx MintEventRow
unfolding lock_state
insert_advance ports i req plan = do
  state ← require (← lock_state req.community_id) not_found
  balance ← lock_or_create_balance req.community_id req.member_id
  ledger_seq ← allocate_ledger_seq req.community_id
  before ←
      lift (
        calculate_ownership_percentage (pos balance.total_balance) (pos state.current_total_supply))
  after ← lift (
      calculate_ownership_percentage (pos (balance.total_balance + plan.amount))
        (pos (state.current_total_supply + plan.amount)))
  insert_mint_event (
      advance_row req plan state balance (or_default i.evidence_urls []) before after ledger_seq
        ports.now)

-- The writes that follow the insertion of the mint.
unfoldable pub settle_advance :
    Ports → AdvanceRequestRow → AdvancePlan → MintEventRow → Tx MintOutcome
settle_advance ports req plan mint = do
  credit_member req.community_id req.member_id (credit_pending plan.amount) plan.amount
  applied ← increment_advanced_minted_guarded plan.epoch.id plan.amount
  throw_if (applied == 0) advance_cap_exceeded
  update_request req.id (mark_executed plan.amount ports.now)
  record_id ← attach_record ports req.community_id mint
  db_only_id ←
      create_db_only_record ports req.community_id RecordType.budget_advance
        SourceTable.token_advance_request req.id
        (plan.amount ∷ (plan.cumulative_bps ∷ (plan.epoch.epoch_number ∷ [])))
  update_request req.id (set_request_record db_only_id)
  pure (record {
    mint_events = mint ∷ [];
    record_ids = record_id ∷ [];
    member_balance_after = mint.member_balance_after;
    total_supply_after = mint.total_supply_after;
  })

-- `priorMint` replays; otherwise the advance is minted.
abbrev pub mint_unless_prior :
    Ports → ExecuteInput → AdvanceRequestRow → EpochRow → Option MintEventRow → Tx MintOutcome
mint_unless_prior ports i req epoch (some prior) = pure (mint_outcome_from prior)
mint_unless_prior ports i req epoch none = do
  plan ← check_advance req epoch
  mint ← insert_advance ports i req plan
  settle_advance ports req plan mint

abbrev pub execute_from : Ports → ExecuteInput → AdvanceRequestRow → RequestStatus → Tx MintOutcome
execute_from ports i req RequestStatus.executed = do
  existing ← require (← gets (mint_of_request req.id)) conflict
  pure (mint_outcome_from existing)
execute_from ports i req RequestStatus.approved = do
  epoch ← require (← lock_epoch_by_id req.epoch_id) epoch_not_active
  throw_if (not (epoch_is_active epoch.status)) epoch_not_active
  prior ← gets (mint_of_request req.id)
  mint_unless_prior ports i req epoch prior
execute_from ports i req _ = throw invalid_status

unfoldable pub execute : Ports → ExecuteInput → Tx MintOutcome
unfolding lock_epoch_by_id load_request
execute ports i = do req ← load_request i.request_id; execute_from ports i req req.status
