-- ===== src/Engine/Proposal/End.antt =====
-- lib/engine/proposal-service.ts: end and settle.
pub mod Settle
pub mod Rows
pub mod Results
pub mod Again
pub mod Quiet
use you_fen.Base.{
  ℕ, ℤ, negsuc, Bool, true, false, ◌&&◌, not, Option, none, some, List, ◌==◌, leb, length, map,
  select, update_all, or_default, if◌then◌else◌,
}
use you_fen.Engine.Errors.{type_error, invalid_status, err}
use you_fen.Engine.Tables.{
  ProposalRow, ProposalStatus, ProposalType, PolicyChangePayload, VoteRow, AdvanceRequestRow,
  RequestStatus, approve_option_id,
}
use you_fen.Engine.Db.{Tx, ◌>>=◌, ◌>>◌, pure, gets, lift, throw_if, modify}
use you_fen.Engine.Db.Sql.{status_eq, end_proposal_if_due}
use you_fen.Engine.Ports.{Ports}
use you_fen.Engine.Policy.{PendingVersionInput, create_pending_version}
use you_fen.Chain.Merkle.{build_merkle_root}
use you_fen.Engine.Proposal.{
  load_proposal, update_proposal, emit, ProposalRecordKind, proposal_data,
}
use you_fen.Engine.Proposal.Tally.{tally_votes, resolve_outcome}

-- A rate that is not there fails the check that a negative one fails.
abbrev pub rate_or_invalid : Option ℤ → ℤ
rate_or_invalid r = or_default r (negsuc 0)

-- The argument of `createPendingVersion`: the spread of the payload comes last.
abbrev pub pending_input : ProposalRow → Option PolicyChangePayload → PendingVersionInput
pending_input p none = record {
  community_id = p.community_id;
  proposal_id = p.id;
  monthly_inflation_rate_bps = negsuc 0;
  max_advance_rate_bps = negsuc 0;
  member_mint_cap_rate_bps = negsuc 0;
  rules = none;
}
pending_input p (some payload) = record {
  community_id = or_default payload.community_id p.community_id;
  proposal_id = or_default payload.proposal_id p.id;
  monthly_inflation_rate_bps = rate_or_invalid payload.monthly_inflation_rate_bps;
  max_advance_rate_bps = rate_or_invalid payload.max_advance_rate_bps;
  member_mint_cap_rate_bps = rate_or_invalid payload.member_mint_cap_rate_bps;
  rules = payload.rules;
}

-- An id that is not there does not restrict the query.
abbrev matches_id : Option ℕ → ℕ → Bool
matches_id none id = true
matches_id (some k) id = id == k

abbrev waits_for_proposal : RequestStatus → Bool
waits_for_proposal RequestStatus.pending_proposal = true
waits_for_proposal _ = false

abbrev pub awaits_vote : Option ℕ → AdvanceRequestRow → Bool
awaits_vote request_id r = matches_id request_id r.id && waits_for_proposal r.status

abbrev pub approve_by_vote : ℕ → AdvanceRequestRow → AdvanceRequestRow
approve_by_vote now r = record r { status = RequestStatus.approved; approved_at = some now }

-- `tokenAdvanceRequest.updateMany`; a payload that is null throws.
abbrev pub approve_request : Ports → Option PolicyChangePayload → Tx Unit
approve_request ports none = lift (err type_error)
approve_request ports (some payload) = modify λ d. record d {
  advance_requests =
      update_all (awaits_vote payload.advance_request_id) (approve_by_vote ports.now)
        d.advance_requests;
}

abbrev pub settle_type : Ports → ProposalRow → Option ProposalType → Tx Unit
settle_type ports p (some ProposalType.token_policy_change) = do
  version ← create_pending_version ports (pending_input p p.policy_change_payload)
  pure tt
settle_type ports p (some ProposalType.budget_advance) =
    approve_request ports p.policy_change_payload
settle_type ports p (some ProposalType.community_decision) = pure tt
settle_type ports p (some ProposalType.special_mint) = pure tt
settle_type ports p (some ProposalType.related_party_mint) = pure tt
settle_type ports p (some ProposalType.token_reversal) = pure tt
settle_type ports p none = pure tt

-- `settle`
unfoldable pub settle : Ports → ProposalRow → Tx Unit
settle ports p = settle_type ports p p.type

abbrev pub vote_leaf : Ports → ℕ → ℕ → VoteRow → ℕ
vote_leaf ports community_id proposal_id v =
    ports.hash_vote_leaf (ports.hash_member_id community_id v.member_id)
      (ports.hash_option_id proposal_id v.option_id) v.active_governance_balance_snapshot

-- The columns of the result, for the votes that were counted.
abbrev pub result_columns : Ports → ProposalRow → List VoteRow → ProposalRow → ProposalRow
result_columns ports p votes q = record q {
  ended_at = some ports.now;
  winning_option_id = some (resolve_outcome votes p.options);
  voter_count = some (length votes);
  total_vote_weight = some (tally_votes votes).total_vote_weight;
  votes_merkle_root =
      build_merkle_root ports.hash_node (map (vote_leaf ports p.community_id p.id) votes);
}

abbrev pub record_result : Ports → ProposalRow → List VoteRow → ℕ → ProposalRow → ProposalRow
record_result ports p votes record_id q = record (result_columns ports p votes q) {
  status = ProposalStatus.recorded;
  result_public_record_id = some record_id;
}

pub record EndSummary : Type 0 where
  pub winning_option_id : ℕ
  pub voter_count : ℕ
  pub total_vote_weight : ℕ
  pub quorum_met : Bool
  pub result_record_id : ℕ

pub data EndOutcome : Type 0 where
  noop : EndOutcome
  concluded : EndSummary → EndOutcome

-- 'approve' has won with a quorum.
abbrev pub is_carried : ProposalRow → List VoteRow → Bool
is_carried p votes =
    leb p.minimum_voter_count (length votes) && resolve_outcome votes p.options == approve_option_id

-- The count of a proposal that has just ended; `p` is the row that was read before.
unfoldable pub conclude : Ports → ProposalRow → Tx EndOutcome
conclude ports p = do
  votes ← gets λ d. select (λ v. v.proposal_id == p.id) d.votes
  if is_carried p votes then settle ports p else pure tt
  record_id ←
      emit ports ProposalRecordKind.result (proposal_data (result_columns ports p votes p))
        p.community_id
  update_proposal p.id (record_result ports p votes record_id)
  pure (
      EndOutcome.concluded (record {
        winning_option_id = resolve_outcome votes p.options;
        voter_count = length votes;
        total_vote_weight = (tally_votes votes).total_vote_weight;
        quorum_met = leb p.minimum_voter_count (length votes);
        result_record_id = record_id;
      }))

-- `moved` is the number of rows that the conditional update has ended.
abbrev pub conclude_if_moved : Ports → ProposalRow → ℕ → Tx EndOutcome
conclude_if_moved ports p moved =
    if moved == 0
    then (do
      throw_if (not (status_eq p.status ProposalStatus.recorded)) invalid_status
      pure EndOutcome.noop)
    else conclude ports p

-- `end`
unfoldable pub end : Ports → ℕ → Tx EndOutcome
end ports id = do
  proposal ← load_proposal id
  moved ← end_proposal_if_due id ports.now
  conclude_if_moved ports proposal moved
