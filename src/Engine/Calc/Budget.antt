-- ===== src/Engine/Calc/Budget.antt =====
-- The budget rules of lib/engine/calc.ts: floors, the split of a debt, percentages.
use you_fen.Base.{ℕ, ◌+◌, ◌*◌, ◌/◌, ◌-◌, ◌≤◌, pos, ◌≡◌, arith, min}
use you_fen.Engine.Errors.{ok}
use you_fen.Engine.Calc.{calculate_effective_regular_budget, calculate_carried_over_debt}

pub effective_lem : (b d : ℕ) → calculate_effective_regular_budget (pos b) (pos d) ≡ ok (b - d)
unfolding calculate_effective_regular_budget
effective_lem b d = ground arith

pub carried_lem : (b d : ℕ) → calculate_carried_over_debt (pos b) (pos d) ≡ ok (d - b)
unfolding calculate_carried_over_debt
carried_lem b d = ground arith

-- For a base budget and a debt that are not negative, the effective budget and the carried debt
-- exist; what the base does not hand out it has paid off: effective budget plus debt equals base
-- plus carried debt, and at most one of the two is positive.
pub debt_split :
    (b d : ℕ)
    → (e : ℕ) × (c : ℕ) × (calculate_effective_regular_budget (pos b) (pos d) ≡ ok e)
      × (calculate_carried_over_debt (pos b) (pos d) ≡ ok c)
      × (e + d ≡ b + c)
      × (min e c ≡ 0)
debt_split b d = (b - d, d - b, effective_lem b d, carried_lem b d, omega arith, omega arith)

pub floor-mul_le : (n bps : ℕ) → bps ≤ 10000 → n * bps / 10000 ≤ n
floor-mul_le n bps h = grind arith
