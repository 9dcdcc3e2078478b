-- ===== src/Engine/Mint/Frames.antt =====
-- The checks of `mintForContribution` write nothing.
use you_fen.Base.{ℕ, Option, none, some}
use you_fen.Engine.Calc.{
  AdvanceApprovalPath, standard_rule, dual_admin, community_proposal, system_forbidden,
}
use you_fen.Engine.Tables.{EpochRow, PolicyRow, ContributionRow, AdvanceRequestRow}
use you_fen.Engine.Db.{Db}
use you_fen.Engine.Db.Keeps.{Keeps, reads}
use you_fen.Engine.Mint.Gates.{
  MintInput, load_contribution, resolve_amount, require_related_party_proposal, arbitrate,
  second_approver_given, governance_path, resolve_split, approval_check, verify_advance_approval,
  split_budget, resolve_budget,
}

module _ {P : Db → Type 0} where
  pub load_contribution-Keeps : (id : ℕ) → Keeps P (load_contribution id)
  unfolding load_contribution
  load_contribution-Keeps id = search reads depth 14

  pub resolve_amount-Keeps : (c : ContributionRow) (p : PolicyRow) → Keeps P (resolve_amount c p)
  unfolding resolve_amount
  resolve_amount-Keeps c p = search reads depth 14

  require_related_party_proposal-Keeps :
      (p c m : ℕ) → Keeps P (require_related_party_proposal p c m)
  unfolding require_related_party_proposal
  require_related_party_proposal-Keeps p c m = search reads depth 14

  second_approver_given-Keeps : (o : Option ℕ) → Keeps P (second_approver_given o)
  second_approver_given-Keeps none = search reads depth 14
  second_approver_given-Keeps (some s) = search reads depth 14

  governance_path-Keeps : (p s : Option ℕ) (c m : ℕ) → Keeps P (governance_path p s c m)
  governance_path-Keeps (some p) s c m = require_related_party_proposal-Keeps p c m
  governance_path-Keeps none s c m = second_approver_given-Keeps s

  pub arbitrate-Keeps : (i : MintInput) (c m : ℕ) → Keeps P (arbitrate i c m)
  unfolding arbitrate
  arbitrate-Keeps i c m = search (reads, governance_path-Keeps) depth 14

  resolve_split-Keeps : (r c : ℕ) → Keeps P (resolve_split r c)
  unfolding resolve_split
  resolve_split-Keeps r c = search reads depth 14

  approval_check-Keeps :
      (r : AdvanceRequestRow) (p : AdvanceApprovalPath) → Keeps P (approval_check r p)
  approval_check-Keeps r system_forbidden = search reads depth 14
  approval_check-Keeps r community_proposal = search reads depth 14
  approval_check-Keeps r dual_admin = search reads depth 14
  approval_check-Keeps r standard_rule = search reads depth 14

  verify_advance_approval-Keeps :
      (r : AdvanceRequestRow) (e : EpochRow) (a : ℕ) → Keeps P (verify_advance_approval r e a)
  unfolding verify_advance_approval
  verify_advance_approval-Keeps r e a = search (reads, approval_check-Keeps) depth 14

  split_budget-Keeps :
      (e : EpochRow) (c : ContributionRow) (a : ℕ) (r : Option ℕ) → Keeps P (split_budget e c a r)
  split_budget-Keeps e c a none = search reads depth 14
  split_budget-Keeps e c a (some r) =
      search (reads, resolve_split-Keeps, verify_advance_approval-Keeps) depth 14

  pub resolve_budget-Keeps :
      (e : EpochRow) (c : ContributionRow) (a : ℕ) (r : Option ℕ) → Keeps P (resolve_budget e c a r)
  unfolding resolve_budget
  resolve_budget-Keeps e c a r = search (reads, split_budget-Keeps) depth 14
