-- ===== src/Chain/Approval/Mirror.antt =====
-- The requirement on chain against the engine's own table (lib/engine/calc.ts), and its bounds.
use you_fen.Base.{ℕ, ◌≤◌, ◌<◌, ◌≡◌, ◌≢◌, ◌↔◌, ◌⊎◌, pos, Bool, true, false, arith}
use you_fen.Engine.Errors.{ok}
use you_fen.Engine.Calc.{
  standard_rule, dual_admin, community_proposal, system_forbidden, resolve_advance_approval,
  calculate_cumulative_advance_rate_bps,
}
use you_fen.Chain.Approval.{
  ApprovalTier, MintApprovalInput, MintApprovalRequirement, resolve_mint_approval,
  cumulative_advance_bps,
}

-- What the assembler of a mint finds for an advance of `r` on meters `a` and `b`.
abbrev pub requirement : ℕ → ℕ → ℕ → ℕ → Bool → MintApprovalRequirement
requirement a r b threshold related = resolve_mint_approval (record {
  advance_amount = r;
  cumulative_advance_bps = cumulative_advance_bps a r b;
  related_party = related;
  approver_threshold = threshold;
})

-- For an advance of more than nothing to a recipient who is no related party, and the rate that the
-- engine calculates for it: the requirement is forbidden exactly if the engine forbids it, wants a
-- proposal without being forbidden exactly if the engine wants one, and is of the dual tier exactly if
-- the engine wants two admins or, for a rate that rounds to zero, the standard rule; it is never of the
-- single tier. Of the number of approvers nothing is said.
pub resolve_mint_approval-mirror :
    (a r b threshold n : ℕ)
    → 0 < r
    → calculate_cumulative_advance_rate_bps (pos a) (pos r) (pos b) ≡ ok n
    → let q = requirement a r b threshold false in
      let path = resolve_advance_approval n false false in
      ((q.forbidden ≡ true) ↔ (path ≡ system_forbidden))
      × (((q.proposal_required ≡ true) × (q.forbidden ≡ false)) ↔ (path ≡ community_proposal))
      × ((q.tier ≡ ApprovalTier.dual) ↔ ((path ≡ dual_admin) ⊎ (path ≡ standard_rule)))
      × (q.tier ≢ ApprovalTier.single)
unfolding resolve_mint_approval cumulative_advance_bps calculate_cumulative_advance_rate_bps
    resolve_advance_approval
resolve_mint_approval-mirror a r b threshold n h rate = ground arith

-- For every input: at least one approver is needed and at least as many as the community's
-- threshold; a dual tier needs two; and without a proposal a related party or an advance needs two.
pub resolve_mint_approval_bounds :
    (i : MintApprovalInput)
    → let q = resolve_mint_approval i in
      (1 ≤ q.required_approvers)
      × (i.approver_threshold ≤ q.required_approvers)
      × ((q.tier ≢ ApprovalTier.dual) ⊎ (2 ≤ q.required_approvers))
      × ((q.proposal_required ≡ true) ⊎ (i.related_party ≡ false) ⊎ (2 ≤ q.required_approvers))
      × ((q.proposal_required ≡ true) ⊎ (i.advance_amount ≡ 0) ⊎ (2 ≤ q.required_approvers))
unfolding resolve_mint_approval
resolve_mint_approval_bounds i = ground arith
