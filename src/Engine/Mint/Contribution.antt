-- ===== src/Engine/Mint/Contribution.antt =====
-- `mintForContribution` of lib/engine/mint-service.ts: the transaction, in the order of its steps.
use you_fen.Base.{
  ℕ, ◌+◌, pos, Bool, Option, none, some, List, [], ◌∷◌, ◌==◌, ltb, any, find, update_first,
  if◌then◌else◌,
}
use you_fen.Engine.Errors.{
  Result, ok, err, type_error, not_found, epoch_not_active, member_cap_exceeded,
  insufficient_budget, advance_cap_exceeded,
}
use you_fen.Engine.Calc.{calculate_member_epoch_cap}
use you_fen.Engine.Tables.{
  MintType, EpochRow, BalanceRow, StateRow, MintEventRow, PolicyRow, ContributionRow,
  AdvanceRequestRow, RequestStatus,
}
use you_fen.Engine.Db.{Tx, ◌>>=◌, ◌>>◌, pure, gets, lift, require, throw_if, modify, assert_found}
use you_fen.Engine.Db.Locks.{lock_active_epoch, lock_state, allocate_ledger_seq}
use you_fen.Engine.Db.Sql.{increment_regular_minted_guarded, increment_advanced_minted_guarded}
use you_fen.Engine.Balances.{lock_or_create_balance, credit_member}
use you_fen.Engine.Ports.{Ports}
use you_fen.Engine.Mint.{LegPlan, plan_legs, MintOutcome, insert_mint_event, attach_records}
use you_fen.Engine.Mint.Gates.{
  MintInput, Split, load_contribution, resolve_amount, arbitrate, resolve_budget,
}

-- What steps 1 to 8 have read and decided.
pub record MintPlan : Type 0 where
  pub contribution : ContributionRow
  pub epoch : EpochRow
  pub policy : PolicyRow
  pub state : StateRow
  pub balance : BalanceRow
  pub amount : ℕ
  pub related_party : Bool
  pub split : Split

-- Steps 1 to 8. The one write is the zero balance of a member that has none.
unfoldable pub prepare_mint : MintInput → Tx MintPlan
unfolding lock_active_epoch lock_state calculate_member_epoch_cap
prepare_mint i = do
  contribution ← load_contribution i.contribution_id
  epoch ← require (← lock_active_epoch contribution.community_id) epoch_not_active
  policy ←
      require (← gets λ d. find (λ p. p.community_id == contribution.community_id) d.policies)
        not_found
  state ← require (← lock_state contribution.community_id) not_found
  balance ← lock_or_create_balance contribution.community_id contribution.member_id
  amount ← resolve_amount contribution policy
  cap ← lift (
      calculate_member_epoch_cap (pos epoch.base_mint_budget) (pos policy.member_mint_cap_rate_bps))
  throw_if (ltb cap (balance.tokens_earned_current_epoch + amount)) member_cap_exceeded
  related_party ← arbitrate i contribution.community_id contribution.member_id
  split ← resolve_budget epoch contribution amount i.advance_request_id
  pure (record {
    contribution = contribution;
    epoch = epoch;
    policy = policy;
    state = state;
    balance = balance;
    amount = amount;
    related_party = related_party;
    split = split;
  })

-- The row of one leg.
abbrev pub leg_row : MintInput → MintPlan → ℕ → LegPlan → ℕ → ℕ → MintEventRow
leg_row i plan now leg ledger_seq id = record {
  id = id;
  community_id = plan.contribution.community_id;
  member_id = plan.contribution.member_id;
  epoch_id = some plan.epoch.id;
  epoch_number = plan.epoch.epoch_number;
  mint_type = MintType.contribution;
  budget_source = leg.budget_source;
  amount = leg.amount;
  governance_activation_epoch = leg.governance_activation_epoch;
  governance_status = leg.governance_status;
  member_balance_before = leg.member_balance_before;
  member_balance_after = leg.member_balance_after;
  total_supply_before = leg.total_supply_before;
  total_supply_after = leg.total_supply_after;
  token_policy_version = plan.policy.policy_version;
  reason = plan.contribution.description;
  approved_by = i.approver_id;
  active_governance_before = leg.active_governance_before;
  active_governance_after = leg.active_governance_after;
  ownership_percentage_before = leg.ownership_percentage_before;
  ownership_percentage_after = leg.ownership_percentage_after;
  contribution_id = some plan.contribution.id;
  rule_id = plan.contribution.rule_id;
  proposal_id = i.proposal_id;
  advance_request_id = leg.advance_request_id;
  second_approved_by = i.second_approver_id;
  related_party = plan.related_party;
  evidence_urls = plan.contribution.evidence;
  ledger_seq = ledger_seq;
  created_at = now;
  public_record_id = none;
}

-- Step 9, the loop over the legs: a ledger number and a row for each.
unfoldable pub insert_legs : MintInput → MintPlan → ℕ → List LegPlan → Tx (List MintEventRow)
insert_legs i plan now [] = pure []
insert_legs i plan now (leg ∷ legs) =
    allocate_ledger_seq plan.contribution.community_id >>= λ ledger_seq.
    insert_mint_event (leg_row i plan now leg ledger_seq) >>= λ row.
    insert_legs i plan now legs >>= λ rows. pure (row ∷ rows)

-- The increments of step 10.
abbrev pub credit : ℕ → ℕ → ℕ → ℕ → BalanceRow → BalanceRow
credit amount regular advance now b = record b {
  total_balance = b.total_balance + amount;
  active_governance_balance = b.active_governance_balance + regular;
  pending_governance_balance = b.pending_governance_balance + advance;
  tokens_earned_current_epoch = b.tokens_earned_current_epoch + regular;
  tokens_earned_lifetime = b.tokens_earned_lifetime + amount;
  last_mint_at = some now;
}

-- Step 12: the meters of the epoch.
unfoldable pub meter_budgets : ℕ → ℕ → ℕ → Tx Unit
unfolding increment_regular_minted_guarded increment_advanced_minted_guarded
meter_budgets epoch_id regular advance = do
  regular_rows ← increment_regular_minted_guarded epoch_id regular
  throw_if (regular_rows == 0) insufficient_budget
  advance_rows ←
      if ltb 0 advance then increment_advanced_minted_guarded epoch_id advance else pure 1
  throw_if (advance_rows == 0) advance_cap_exceeded

abbrev pub consume : ℕ → ℕ → AdvanceRequestRow → AdvanceRequestRow
consume amount now r = record r {
  status = RequestStatus.executed;
  approved_amount = some amount;
  executed_at = some now;
}

-- Step 13.
unfoldable pub consume_request : Option AdvanceRequestRow → ℕ → ℕ → Tx Unit
consume_request none advance now = pure tt
consume_request (some req) advance now =
    if ltb 0 advance
    then (do
      assert_found (← gets λ d. any (λ r. r.id == req.id) d.advance_requests)
      modify λ d. record d {
        advance_requests =
            update_first (λ r. r.id == req.id) (consume advance now) d.advance_requests;
      })
    else pure tt

-- `legs[legs.length - 1]`, of which the code then reads a field.
abbrev pub last_leg : List LegPlan → Result LegPlan
last_leg [] = err type_error
last_leg (leg ∷ []) = ok leg
last_leg (leg ∷ (next ∷ legs)) = last_leg (next ∷ legs)

-- Steps 9 to 14.
unfoldable pub write_mint : Ports → MintInput → MintPlan → Tx MintOutcome
write_mint ports i plan = do
  let c = plan.contribution
  let split = plan.split
  legs ← lift (
      plan_legs plan.balance plan.state split.regular_part split.advance_part
        plan.epoch.epoch_number (elim split.advance_request [ none ↦ none | some r ↦ some r.id ]))
  created ← insert_legs i plan ports.now legs
  credit_member c.community_id c.member_id
      (credit plan.amount split.regular_part split.advance_part ports.now) plan.amount
  meter_budgets plan.epoch.id split.regular_part split.advance_part
  consume_request split.advance_request split.advance_part ports.now
  record_ids ← attach_records ports c.community_id created
  last ← lift (last_leg legs)
  pure (record {
    mint_events = created;
    record_ids = record_ids;
    member_balance_after = last.member_balance_after;
    total_supply_after = last.total_supply_after;
  })

unfoldable pub mint_for_contribution : Ports → MintInput → Tx MintOutcome
mint_for_contribution ports i = do plan ← prepare_mint i; write_mint ports i plan
