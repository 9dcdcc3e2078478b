-- ===== src/Chain/Approval.antt =====
-- lib/blockchain/signatures/threshold.ts: the approvals that a mint needs on chain. A reason is the
-- tier, or the limit that is exceeded.
pub mod Mirror
mod Tests
use you_fen.Base.{
  ℕ, ◌+◌, ◌*◌, ◌/◌, max, Bool, true, false, ◌&&◌, ◌||◌, Option, none, some, ◌==◌, leb, ltb,
  if◌then◌else◌,
}

abbrev pub advance_dual_bps : ℕ
advance_dual_bps = 1000

abbrev pub advance_limit_bps : ℕ
advance_limit_bps = 2500

pub data ApprovalTier : Type 0 where
  single dual proposal : ApprovalTier

-- The rate is `none` where it is infinite.
pub record MintApprovalInput : Type 0 where
  pub advance_amount : ℕ
  pub cumulative_advance_bps : Option ℕ
  pub related_party : Bool
  pub approver_threshold : ℕ

pub record MintApprovalRequirement : Type 0 where
  pub tier : ApprovalTier
  pub required_approvers : ℕ
  pub proposal_required : Bool
  pub forbidden : Bool

-- `bps > limit`
abbrev pub exceeds : Option ℕ → ℕ → Bool
exceeds none limit = true
exceeds (some bps) limit = ltb limit bps

abbrev pub floor_of : ℕ → ℕ
floor_of threshold = if leb 1 threshold then threshold else 1

-- `tierFloor`, where no proposal is required.
abbrev pub tier_floor : ℕ → Bool → ℕ
tier_floor advance related = if ltb 0 advance || related then 2 else 1

-- `resolveMintApproval`
unfoldable pub resolve_mint_approval : MintApprovalInput → MintApprovalRequirement
resolve_mint_approval i =
    let floor = floor_of i.approver_threshold in
    let tiers = tier_floor i.advance_amount i.related_party in
    if ltb 0 i.advance_amount && exceeds i.cumulative_advance_bps advance_limit_bps
    then record {
      tier = ApprovalTier.proposal;
      required_approvers = floor;
      proposal_required = true;
      forbidden = true;
    }
    else (if ltb 0 i.advance_amount && exceeds i.cumulative_advance_bps advance_dual_bps
        then record {
          tier = ApprovalTier.proposal;
          required_approvers = floor;
          proposal_required = true;
          forbidden = false;
        }
        else record {
          tier = if leb 2 tiers then ApprovalTier.dual else ApprovalTier.single;
          required_approvers = max floor tiers;
          proposal_required = false;
          forbidden = false;
        })

-- `cumulativeAdvanceBps`
unfoldable pub cumulative_advance_bps : ℕ → ℕ → ℕ → Option ℕ
cumulative_advance_bps epoch_advance_minted requested base_mint_budget =
    if base_mint_budget == 0
    then (if ltb 0 requested then none else some 0)
    else some ((epoch_advance_minted + requested) * 10000 / base_mint_budget)
