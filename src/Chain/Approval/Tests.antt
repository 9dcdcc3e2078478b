-- ===== src/Chain/Approval/Tests.antt =====
-- A mint that takes the last of a budget as an advance.
use you_fen.Base.{◌≤◌, ◌≡◌, ◌≢◌, ◌↔◌, ◌⊎◌, refl, pos, true, false, some, arith}
use you_fen.Engine.Errors.{ok}
use you_fen.Engine.Calc.{
  standard_rule, dual_admin, community_proposal, system_forbidden, resolve_advance_approval,
  calculate_cumulative_advance_rate_bps,
}
use you_fen.Chain.Approval.{ApprovalTier, MintApprovalInput, resolve_mint_approval}
use you_fen.Chain.Approval.Mirror.{
  requirement, resolve_mint_approval-mirror, resolve_mint_approval_bounds,
}

-- 10 on a base of 100, with nothing advanced before: exactly the dual limit.
rate : calculate_cumulative_advance_rate_bps (pos 0) (pos 10) (pos 100) ≡ ok 1000
unfolding calculate_cumulative_advance_rate_bps
rate = refl

resolve_mint_approval-mirror_example :
    let q = requirement 0 10 100 1 false in
    let path = resolve_advance_approval 1000 false false in
    ((q.forbidden ≡ true) ↔ (path ≡ system_forbidden))
    × (((q.proposal_required ≡ true) × (q.forbidden ≡ false)) ↔ (path ≡ community_proposal))
    × ((q.tier ≡ ApprovalTier.dual) ↔ ((path ≡ dual_admin) ⊎ (path ≡ standard_rule)))
    × (q.tier ≢ ApprovalTier.single)
resolve_mint_approval-mirror_example =
    resolve_mint_approval-mirror 0 10 100 1 1000 (omega arith) rate

abbrev related_mint : MintApprovalInput
related_mint = record {
  advance_amount = 0;
  cumulative_advance_bps = some 0;
  related_party = true;
  approver_threshold = 1;
}

resolve_mint_approval_bounds_example :
    let q = resolve_mint_approval related_mint in
    (1 ≤ q.required_approvers)
    × (related_mint.approver_threshold ≤ q.required_approvers)
    × ((q.tier ≢ ApprovalTier.dual) ⊎ (2 ≤ q.required_approvers))
    × ((q.proposal_required ≡ true)
        ⊎ (related_mint.related_party ≡ false)
        ⊎ (2 ≤ q.required_approvers))
    × ((q.proposal_required ≡ true)
        ⊎ (related_mint.advance_amount ≡ 0)
        ⊎ (2 ≤ q.required_approvers))
resolve_mint_approval_bounds_example = resolve_mint_approval_bounds related_mint
