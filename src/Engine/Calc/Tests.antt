-- ===== src/Engine/Calc/Tests.antt =====
-- The budget rules at concrete values.
use you_fen.Base.{ℕ, ◌≤◌, ◌<◌, ◌≡◌, ◌↔◌, ◌⊎◌, true, false}
use you_fen.Engine.Calc.{
  standard_rule, dual_admin, community_proposal, system_forbidden, resolve_advance_approval,
}
use you_fen.Engine.Calc.Approval.{resolve_advance_approval_table}

abbrev rate : ℕ
rate = 1200

resolve_advance_approval_table_example :
    ((resolve_advance_approval rate false false ≡ system_forbidden) ↔ (2500 < rate))
    × ((resolve_advance_approval rate false false ≡ community_proposal)
        ↔ ((rate ≤ 2500) × ((false ≡ true) ⊎ (false ≡ true) ⊎ (1000 < rate))))
    × ((resolve_advance_approval rate false false ≡ dual_admin)
        ↔ ((false ≡ false) × (false ≡ false) × (0 < rate) × (rate ≤ 1000)))
    × ((resolve_advance_approval rate false false ≡ standard_rule)
        ↔ ((false ≡ false) × (false ≡ false) × (rate ≡ 0)))
resolve_advance_approval_table_example = resolve_advance_approval_table rate false false
