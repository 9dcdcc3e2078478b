-- ===== src/Engine/Calc.antt =====
-- lib/engine/calc.ts: the token arithmetic. Amounts and rates come in signed, as the code takes
-- them; every result is non-negative. A rate that is no integer is not modelled. `Number(x)` of a
-- bigint is taken as exact, which it is below 2 ^ 53.
pub mod Budget
pub mod Approval
mod Tests
use you_fen.Base.{
  ℕ, ◌+◌, ◌*◌, ◌/◌, ◌-◌, ◌^◌, ℤ, pos, negsuc, sub_ℕ, Bool, ◌||◌, ltb, ◌==◌, if◌then◌else◌,
}
use you_fen.Engine.Errors.{Result, ok, fail, validation_error, ◌>>=◌}

abbrev pub bps_denominator : ℕ
bps_denominator = 10000

-- `Number.MAX_SAFE_INTEGER`
abbrev pub max_safe_integer : ℕ
max_safe_integer = 2 ^ 53 - 1

-- A value that passes is handed on as a natural number.
unfoldable pub assert_non_negative_bigint : ℤ → Result ℕ
assert_non_negative_bigint (pos n) = ok n
assert_non_negative_bigint (negsuc n) = fail validation_error

unfoldable pub assert_non_negative_bps : ℤ → Result ℕ
assert_non_negative_bps (pos n) = ok n
assert_non_negative_bps (negsuc n) = fail validation_error

-- `x > 0n ? x : 0n`
unfoldable pub clamp_zero : ℤ → ℕ
clamp_zero (pos n) = n
clamp_zero (negsuc n) = 0

unfoldable pub calculate_base_mint_budget : ℤ → ℤ → Result ℕ
unfolding assert_non_negative_bigint assert_non_negative_bps
calculate_base_mint_budget opening_supply inflation_rate_bps = do
  supply ← assert_non_negative_bigint opening_supply
  bps ← assert_non_negative_bps inflation_rate_bps
  ok (supply * bps / bps_denominator)

unfoldable pub calculate_effective_regular_budget : ℤ → ℤ → Result ℕ
unfolding assert_non_negative_bigint clamp_zero
calculate_effective_regular_budget base debt = do
  b ← assert_non_negative_bigint base
  d ← assert_non_negative_bigint debt
  ok (clamp_zero (sub_ℕ b d))

unfoldable pub calculate_carried_over_debt : ℤ → ℤ → Result ℕ
unfolding assert_non_negative_bigint clamp_zero
calculate_carried_over_debt base debt = do
  b ← assert_non_negative_bigint base
  d ← assert_non_negative_bigint debt
  ok (clamp_zero (sub_ℕ d b))

unfoldable pub calculate_max_advance_amount : ℤ → ℤ → Result ℕ
unfolding assert_non_negative_bigint assert_non_negative_bps
calculate_max_advance_amount base max_advance_rate_bps = do
  b ← assert_non_negative_bigint base
  bps ← assert_non_negative_bps max_advance_rate_bps
  ok (b * bps / bps_denominator)

unfoldable pub calculate_member_epoch_cap : ℤ → ℤ → Result ℕ
unfolding assert_non_negative_bigint assert_non_negative_bps
calculate_member_epoch_cap base member_mint_cap_rate_bps = do
  b ← assert_non_negative_bigint base
  bps ← assert_non_negative_bps member_mint_cap_rate_bps
  ok (b * bps / bps_denominator)

-- The percentage in ten-thousandths: the code divides by 10,000 once more, into a float.
unfoldable pub calculate_ownership_percentage : ℤ → ℤ → Result ℕ
unfolding assert_non_negative_bigint
calculate_ownership_percentage balance supply = do
  b ← assert_non_negative_bigint balance
  s ← assert_non_negative_bigint supply
  if s == 0 then ok 0 else ok (b * 1000000 / s)

unfoldable pub calculate_cumulative_advance_rate_bps : ℤ → ℤ → ℤ → Result ℕ
unfolding assert_non_negative_bigint
calculate_cumulative_advance_rate_bps already_advanced requested base_mint_budget = do
  a ← assert_non_negative_bigint already_advanced
  r ← assert_non_negative_bigint requested
  b ← assert_non_negative_bigint base_mint_budget
  if b == 0
      then ok (if ltb 0 r then max_safe_integer else 0)
      else ok ((a + r) * bps_denominator / b)

pub data AdvanceApprovalPath : Type 0 where
  standard_rule dual_admin community_proposal system_forbidden : AdvanceApprovalPath

unfoldable pub resolve_advance_approval : ℕ → Bool → Bool → AdvanceApprovalPath
resolve_advance_approval cumulative_bps related_party is_special_no_contribution =
    if ltb 2500 cumulative_bps
    then system_forbidden
    else if related_party || is_special_no_contribution
    then community_proposal
    else if ltb 1000 cumulative_bps
    then community_proposal
    else if ltb 0 cumulative_bps
    then dual_admin
    else standard_rule
