-- ===== src/Engine/Epoch.antt =====
-- lib/engine/epoch-service.ts: the close of an epoch, which opens the next one.
pub mod Close
pub mod Next
pub mod Budget
pub mod Conservation
use you_fen.Base.{
  ℕ, suc, ◌+◌, ◌*◌, pos, Bool, ◌&&◌, Option, none, some, List, [], ◌∷◌, ◌++◌, ◌==◌, any, find,
  update_first,
}
use you_fen.Engine.Errors.{Result, ok, ◌>>=◌, not_found}
use you_fen.Engine.Calc.{
  calculate_base_mint_budget, calculate_effective_regular_budget, calculate_max_advance_amount,
}
use you_fen.Engine.Tables.{EpochRow, EpochStatus, PolicyRow, StateRow}

abbrev pub ms_per_day : ℕ
ms_per_day = 86400000

pub record DerivedBudget : Type 0 where
  pub base_mint_budget : ℕ
  pub effective_regular_budget : ℕ
  pub max_advance_amount : ℕ

-- `deriveBudget`
unfoldable pub derive_budget : ℕ → ℕ → PolicyRow → Result DerivedBudget
derive_budget opening_supply advance_debt policy = do
  base ← calculate_base_mint_budget (pos opening_supply) (pos policy.monthly_inflation_rate_bps)
  effective ← calculate_effective_regular_budget (pos base) (pos advance_debt)
  max_advance ← calculate_max_advance_amount (pos base) (pos policy.max_advance_rate_bps)
  ok (record {
    base_mint_budget = base;
    effective_regular_budget = effective;
    max_advance_amount = max_advance;
  })

-- The row of a new epoch.
abbrev pub epoch_row : ℕ → ℕ → ℕ → ℕ → ℕ → PolicyRow → DerivedBudget → ℕ → ℕ → EpochRow
epoch_row community_id epoch_number start_time opening_supply advance_debt policy budget now id =
    record {
      id = id;
      community_id = community_id;
      epoch_number = epoch_number;
      opening_supply = opening_supply;
      base_mint_budget = budget.base_mint_budget;
      advance_debt_from_previous_epoch = advance_debt;
      effective_regular_budget = budget.effective_regular_budget;
      max_advance_amount = budget.max_advance_amount;
      regular_minted_amount = 0;
      advanced_minted_amount = 0;
      unused_regular_budget = pos 0;
      inflation_rate_bps = policy.monthly_inflation_rate_bps;
      status = EpochStatus.active;
      start_time = some start_time;
      end_time = some (start_time + policy.epoch_duration_days * ms_per_day);
      closed_at = none;
      public_record_id = none;
      created_at = now;
    }

-- The unique key [communityId, epochNumber].
abbrev pub same_epoch_key : ℕ → ℕ → EpochRow → Bool
same_epoch_key community_id epoch_number e =
    e.community_id == community_id && e.epoch_number == epoch_number
