-- ===== src/Engine/Epoch/Budget.antt =====
-- The budget of an epoch, derived from its opening supply and the debt it starts with.
use you_fen.Base.{ℕ, ◌+◌, ◌-◌, ◌*◌, ◌/◌, ◌≤◌, ◌≡◌, arith}
use you_fen.Engine.Errors.{ok}
use you_fen.Engine.Calc.{
  calculate_base_mint_budget, calculate_effective_regular_budget, calculate_max_advance_amount,
}
use you_fen.Engine.Calc.Budget.{floor-mul_le}
use you_fen.Engine.Tables.{PolicyRow}
use you_fen.Engine.Epoch.{DerivedBudget, derive_budget}

-- Under a policy whose rates are at most 10000 bps a budget is always derived; its base is at most
-- the opening supply, its advance cap at most the base, and the base is handed out or pays the debt:
-- effective budget plus debt is base plus the debt that the base does not cover.
pub derive_budget_lem :
    (supply debt : ℕ) (p : PolicyRow)
    → p.monthly_inflation_rate_bps ≤ 10000
    → p.max_advance_rate_bps ≤ 10000
    → (b : DerivedBudget) × (derive_budget supply debt p ≡ ok b)
      × (b.base_mint_budget ≤ supply)
      × (b.max_advance_amount ≤ b.base_mint_budget)
      × (b.effective_regular_budget + debt ≡ b.base_mint_budget + (debt - b.base_mint_budget))
unfolding derive_budget calculate_base_mint_budget calculate_effective_regular_budget
    calculate_max_advance_amount
derive_budget_lem supply debt p hi ha =
    let base = supply * p.monthly_inflation_rate_bps / 10000 in
    (
      record {
        base_mint_budget = base;
        effective_regular_budget = base - debt;
        max_advance_amount = base * p.max_advance_rate_bps / 10000;
      },
      ground arith,
      floor-mul_le supply p.monthly_inflation_rate_bps hi,
      floor-mul_le base p.max_advance_rate_bps ha,
      omega arith,
    )
