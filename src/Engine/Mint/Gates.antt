-- ===== src/Engine/Mint/Gates.antt =====
-- The checks of `mintForContribution` in lib/engine/mint-service.ts (its steps 1, 2, 5, 7 and 8),
-- with `resolveSplit`, `verifyAdvanceApproval` and `requireRelatedPartyProposal`.
use you_fen.Base.{
  ℕ, ◌+◌, ◌-◌, ℤ, pos, negsuc, Bool, true, false, ◌&&◌, ◌||◌, not, Option, none, some, ◌==◌, ltb,
  leb, ltb_ℤ, option_eq, or_default, is_some, any, find, if◌then◌else◌,
}
use you_fen.Engine.Errors.{
  Result, ok, fail, already_minted, not_found, not_approved, rule_violation, insufficient_budget,
  advance_cap_exceeded, rolling_advance_forbidden, advance_rate_exceeded, proposal_required,
  second_approver_required, invalid_status, forbidden, conflict,
}
use you_fen.Engine.Calc.{
  calculate_cumulative_advance_rate_bps, resolve_advance_approval, AdvanceApprovalPath,
  standard_rule, dual_admin, community_proposal, system_forbidden,
}
use you_fen.Engine.Tables.{
  EpochRow, PolicyRow, ContributionRow, AdvanceRequestRow, ProposalRow, ProposalType,
  request_is_approved, proposal_is_recorded, contribution_is_approved, is_related_role, quorum_met,
  approve_option_id,
}
use you_fen.Engine.Db.{Db, Tx, ◌>>=◌, ◌>>◌, pure, gets, lift, throw, require, throw_if}
use you_fen.Engine.Mint.{rule_token_amount}

pub record MintInput : Type 0 where
  pub contribution_id : ℕ
  pub approver_id : ℕ
  pub second_approver_id : Option ℕ
  pub proposal_id : Option ℕ
  pub advance_request_id : Option ℕ

-- Steps 1 and 2: an approved contribution that no mint event names.
unfoldable pub load_contribution : ℕ → Tx ContributionRow
load_contribution id = do
  c ← require (← gets λ d. find (λ r. r.id == id) d.contributions) not_found
  throw_if (not (contribution_is_approved c.status)) not_approved
  throw_if (← gets λ d. any (λ m. option_eq m.contribution_id (some c.id)) d.mint_events)
      already_minted
  pure c

-- `if (amount <= 0n) throw`, which hands on a positive number.
abbrev pub require_positive : ℤ → Result ℕ
require_positive (pos n) = if ltb 0 n then ok n else fail rule_violation
require_positive (negsuc n) = fail rule_violation

abbrev within_ceiling : Option ℤ → ℕ → Bool
within_ceiling none amount = false
within_ceiling (some ceiling) amount = not (ltb_ℤ ceiling (pos amount))

-- Step 5.
unfoldable pub resolve_amount : ContributionRow → PolicyRow → Tx ℕ
resolve_amount c policy = do
  amount ← lift (require_positive (or_default c.approved_token_amount (pos 0)))
  throw_if (not (within_ceiling (rule_token_amount policy.rules c.rule_id) amount)) rule_violation
  pure amount

abbrev is_related_party_mint : Option ProposalType → Bool
is_related_party_mint (some ProposalType.related_party_mint) = true
is_related_party_mint _ = false

-- The conjunction that `requireRelatedPartyProposal` asks of the proposal.
abbrev pub authorizes_mint : ℕ → ℕ → ProposalRow → Bool
authorizes_mint community_id member_id p =
    proposal_is_recorded p.status
    && (is_related_party_mint p.type
        && (p.community_id == community_id
            && (option_eq p.winning_option_id (some approve_option_id)
                && (quorum_met p && option_eq p.special_mint_recipient_id (some member_id)))))

unfoldable pub require_related_party_proposal : ℕ → ℕ → ℕ → Tx Unit
require_related_party_proposal proposal_id community_id member_id = do
  p ← require (← gets λ d. find (λ r. r.id == proposal_id) d.proposals) proposal_required
  throw_if (not (authorizes_mint community_id member_id p)) proposal_required
  throw_if (← gets λ d. any (λ m. option_eq m.proposal_id (some proposal_id)) d.mint_events)
      conflict

abbrev pub second_approver_given : Option ℕ → Tx Unit
second_approver_given none = throw second_approver_required
second_approver_given (some s) = pure tt

abbrev pub governance_path : Option ℕ → Option ℕ → ℕ → ℕ → Tx Unit
governance_path (some p) second community_id member_id =
    require_related_party_proposal p community_id member_id
governance_path none second community_id member_id = second_approver_given second

-- Step 7: returns whether the member is a related party.
unfoldable pub arbitrate : MintInput → ℕ → ℕ → Tx Bool
unfolding require_related_party_proposal
arbitrate i community_id member_id = do
  throw_if (option_eq i.second_approver_id (some i.approver_id)) forbidden
  member ← require (← gets λ d. find (λ m. m.id == member_id) d.members) not_found
  if is_related_role member.role
      then governance_path i.proposal_id i.second_approver_id community_id member_id
      else pure tt
  pure (is_related_role member.role)

-- `resolveSplit`
unfoldable pub resolve_split : ℕ → ℕ → Tx AdvanceRequestRow
resolve_split request_id contribution_id = do
  req ← require (← gets λ d. find (λ r. r.id == request_id) d.advance_requests) not_found
  throw_if
      (not (request_is_approved req.status && any (λ c. c == contribution_id) req.contribution_ids))
      invalid_status
  pure req

abbrev attached_proposal : AdvanceRequestRow → Db → Option ProposalRow
attached_proposal req d = elim req.proposal_id [
  | none ↦ none
  | some p ↦ find (λ r. r.id == p) d.proposals
]

-- The check of one approval path.
abbrev pub approval_check : AdvanceRequestRow → AdvanceApprovalPath → Tx Unit
approval_check req system_forbidden = throw advance_rate_exceeded
approval_check req community_proposal = do
  p ← require (← gets (attached_proposal req)) proposal_required
  throw_if (not (proposal_is_recorded p.status)) proposal_required
approval_check req dual_admin =
    throw_if
      (not (is_some req.second_approved_by)
        || option_eq req.second_approved_by (some req.requested_by))
      second_approver_required
approval_check req standard_rule = pure tt

-- `verifyAdvanceApproval`
unfoldable pub verify_advance_approval : AdvanceRequestRow → EpochRow → ℕ → Tx Unit
unfolding calculate_cumulative_advance_rate_bps resolve_advance_approval
verify_advance_approval req epoch advance_part = do
  bps ← lift (
      calculate_cumulative_advance_rate_bps (pos epoch.advanced_minted_amount) (pos advance_part)
        (pos epoch.base_mint_budget))
  approval_check req (resolve_advance_approval bps req.related_party false)

pub record Split : Type 0 where
  pub regular_part : ℕ
  pub advance_part : ℕ
  pub advance_request : Option AdvanceRequestRow

-- Step 8, the branch of the split: `normalRemaining > 0n ? normalRemaining : 0n` is the truncated
-- difference.
abbrev pub split_budget : EpochRow → ContributionRow → ℕ → Option ℕ → Tx Split
split_budget epoch c amount none = throw insufficient_budget
split_budget epoch c amount (some request_id) = do
  req ← resolve_split request_id c.id
  let regular = epoch.effective_regular_budget - epoch.regular_minted_amount
  throw_if (ltb (or_default req.approved_amount req.requested_amount) (amount - regular))
      advance_cap_exceeded
  verify_advance_approval req epoch (amount - regular)
  throw_if (ltb 0 epoch.advance_debt_from_previous_epoch) rolling_advance_forbidden
  pure (record {
    regular_part = regular;
    advance_part = amount - regular;
    advance_request = some req;
  })

-- Step 8: `amount <= normalRemaining` over the integers, where the remaining budget may be negative.
unfoldable pub resolve_budget : EpochRow → ContributionRow → ℕ → Option ℕ → Tx Split
resolve_budget epoch c amount request =
    if leb (epoch.regular_minted_amount + amount) epoch.effective_regular_budget
    then pure (record { regular_part = amount; advance_part = 0; advance_request = none })
    else split_budget epoch c amount request
