-- ===== src/Engine/Mint/Legs.antt =====
-- `planLegs` of lib/engine/mint-service.ts: the legs of a mint, each with the snapshots that chain
-- on from the one before.
use you_fen.Base.{
  ℕ, ◌+◌, pos, Option, none, some, List, [], ◌∷◌, ltb, Bool, true, false, if◌then◌else◌,
}
use you_fen.Engine.Errors.{Result, ok, ◌>>=◌}
use you_fen.Engine.Calc.{calculate_ownership_percentage}
use you_fen.Engine.Tables.{
  BudgetSource, current_epoch, next_epoch_advance, GovernanceStatus, BalanceRow, StateRow,
}

-- One mint leg, before anything is written.
pub record LegPlan : Type 0 where
  pub amount : ℕ
  pub budget_source : BudgetSource
  pub governance_status : GovernanceStatus
  pub governance_activation_epoch : Option ℕ
  pub advance_request_id : Option ℕ
  pub member_balance_before : ℕ
  pub member_balance_after : ℕ
  pub total_supply_before : ℕ
  pub total_supply_after : ℕ
  pub active_governance_before : ℕ
  pub active_governance_after : ℕ
  pub ownership_percentage_before : ℕ
  pub ownership_percentage_after : ℕ

-- The variables `bal`, `sup` and `act` of the source.
pub record Running : Type 0 where
  pub bal : ℕ
  pub sup : ℕ
  pub act : ℕ

abbrev pub start : BalanceRow → StateRow → Running
start balance state = record {
  bal = balance.total_balance;
  sup = state.current_total_supply;
  act = balance.active_governance_balance;
}

abbrev pub advance_running : Running → ℕ → Bool → Running
advance_running r part active = record {
  bal = r.bal + part;
  sup = r.sup + part;
  act = if active then r.act + part else r.act;
}

-- `push`: one leg on top of what is running.
abbrev pub make_leg :
    Running → ℕ → BudgetSource → GovernanceStatus → Option ℕ → Option ℕ → Bool → Result LegPlan
make_leg r part source status activation request active = do
  let r' = advance_running r part active
  before ← calculate_ownership_percentage (pos r.bal) (pos r.sup)
  after ← calculate_ownership_percentage (pos r'.bal) (pos r'.sup)
  ok (record {
    amount = part;
    budget_source = source;
    governance_status = status;
    governance_activation_epoch = activation;
    advance_request_id = request;
    member_balance_before = r.bal;
    member_balance_after = r'.bal;
    total_supply_before = r.sup;
    total_supply_after = r'.sup;
    active_governance_before = r.act;
    active_governance_after = r'.act;
    ownership_percentage_before = before;
    ownership_percentage_after = after;
  })

abbrev advance_leg : Running → ℕ → ℕ → Option ℕ → Result (List LegPlan)
advance_leg r advance_part epoch_number request =
    if ltb 0 advance_part
    then (do
      leg ←
          make_leg r advance_part next_epoch_advance GovernanceStatus.pending
            (some (epoch_number + 1)) request false
      ok (leg ∷ []))
    else ok []

unfoldable pub plan_legs : BalanceRow → StateRow → ℕ → ℕ → ℕ → Option ℕ → Result (List LegPlan)
plan_legs balance state regular_part advance_part epoch_number request =
    let r = start balance state in
    if ltb 0 regular_part
    then (do
      leg ← make_leg r regular_part current_epoch GovernanceStatus.active none none true
      legs ← advance_leg (advance_running r regular_part true) advance_part epoch_number request
      ok (leg ∷ legs))
    else advance_leg r advance_part epoch_number request
