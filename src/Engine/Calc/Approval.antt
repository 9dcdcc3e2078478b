-- ===== src/Engine/Calc/Approval.antt =====
-- The decision table of lib/engine/calc.ts.
use you_fen.Base.{ℕ, ◌≤◌, ◌<◌, ◌≡◌, ◌↔◌, ◌⊎◌, Bool, true, false, arith}
use you_fen.Engine.Calc.{
  standard_rule, dual_admin, community_proposal, system_forbidden, resolve_advance_approval,
}

-- The path for a cumulative rate, in both directions: forbidden exactly above 2500 bps; else a
-- proposal exactly for a related party, a special mint or a rate above 1000 bps; else two admins
-- exactly for a positive rate; the standard rule exactly for rate zero.
pub resolve_advance_approval_table :
    (bps : ℕ) (related special : Bool)
    → ((resolve_advance_approval bps related special ≡ system_forbidden) ↔ (2500 < bps))
      × ((resolve_advance_approval bps related special ≡ community_proposal)
          ↔ ((bps ≤ 2500) × ((related ≡ true) ⊎ (special ≡ true) ⊎ (1000 < bps))))
      × ((resolve_advance_approval bps related special ≡ dual_admin)
          ↔ ((related ≡ false) × (special ≡ false) × (0 < bps) × (bps ≤ 1000)))
      × ((resolve_advance_approval bps related special ≡ standard_rule)
          ↔ ((related ≡ false) × (special ≡ false) × (bps ≡ 0)))
unfolding resolve_advance_approval
resolve_advance_approval_table bps true special = ground arith
resolve_advance_approval_table bps false true = ground arith
resolve_advance_approval_table bps false false = ground arith
