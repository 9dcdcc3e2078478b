-- ===== src/Engine/Proposal/Tests.antt =====
-- Runs of the proposal service on a small community.
use you_fen.Base.{
  ◌≡◌, refl, true, false, none, some, List, [], ◌∷◌, sum_of, any, ◌==◌, ◌↔◌, ◌⊎◌, arith,
}
use you_fen.Engine.Errors.{ok}
use you_fen.Engine.Tables.{
  ProposalRow, VoteRow, ProposalStatus, ProposalType, approve_option_id, reject_option_id,
}
use you_fen.Engine.Db.{Db, ◌>>=◌}
use you_fen.Engine.Db.Keeps.{Commits, db_of, committed-run}
use you_fen.Engine.Db.Locks.{lock_proposal}
use you_fen.Engine.Db.Sql.{end_proposal_if_due}
use you_fen.Engine.Ports.{Ports, create_pending_record}
use you_fen.Engine.Fixture.{town, test_ports}
use you_fen.Engine.Proposal.{load_proposal, update_proposal, emit}
use you_fen.Engine.Proposal.Tally.{
  weigh_options, total_weight, find_lead, tally_votes, resolve_outcome, last_option,
}
use you_fen.Engine.Proposal.Tally.Plurality.{
  IsPlurality, IsUndecided, tally_votes_lem, resolve_outcome_lem,
}
use you_fen.Engine.Proposal.Vote.{VoteInput, VoteOutcome, check_ballot, cast_vote}
use you_fen.Engine.Proposal.End.{EndSummary, EndOutcome, settle, conclude, end}
use you_fen.Engine.Proposal.End.Results.{votes_on, HasResult, end-HasResult}
use you_fen.Engine.Proposal.End.Again.{end-again}
use you_fen.Engine.Proposal.End.Quiet.{IsQuiet, end-IsQuiet}
use you_fen.Engine.Proposal.Steps.{ProposalStep, ProposalReach}
use you_fen.Engine.Proposal.Ballots.{IsCounted, Reach-IsCounted}
use you_fen.Engine.Proposal.Casts.{cast_vote-once}

-- A decision between 'approve' and 'reject', open until 1500.
abbrev proposal_one : ProposalRow
proposal_one = record {
  id = 70;
  community_id = 1;
  status = ProposalStatus.active;
  type = some ProposalType.community_decision;
  options = 0 ∷ (1 ∷ []);
  end_time = some 1500;
  created_at = 0;
  epoch_number_snapshot = some 1;
  total_supply_snapshot = some 0;
  active_governance_supply_snapshot = some 12;
  token_policy_version_snapshot = some 1;
  snapshot_at = some 1;
  minimum_voter_count = 1;
  policy_change_payload = none;
  winning_option_id = none;
  voter_count = none;
  total_vote_weight = none;
  special_mint_recipient_id = none;
  ended_at = none;
  weights_merkle_root = some 0;
  votes_merkle_root = none;
  snapshot_public_record_id = some 1;
  result_public_record_id = none;
  title = 0;
  description = none;
  created_by = 2;
  start_time = some 1;
  epoch_id_snapshot = some 10;
  advance_amount = none;
  special_mint_amount = none;
  related_party_note = none;
}

abbrev polling_town : Db
polling_town = record town {
  proposals = proposal_one ∷ [];
  snapshots =
      record { proposal_id = 70; member_id = 2; active_governance_token = 5 }
      ∷ (record { proposal_id = 70; member_id = 3; active_governance_token = 7 } ∷ []);
}

abbrev for_it : VoteInput
for_it = record { proposal_id = 70; member_id = 2; option_id = 0 }

abbrev against_it : VoteInput
against_it = record { proposal_id = 70; member_id = 3; option_id = 1 }

abbrev first_ballot : Db
first_ballot = db_of (cast_vote test_ports for_it polling_town) polling_town

first_run : (o : VoteOutcome) × Commits (cast_vote test_ports for_it) polling_town o first_ballot
unfolding cast_vote check_ballot lock_proposal load_proposal ◌>>=◌
first_run = committed-run (cast_vote test_ports for_it) polling_town refl

abbrev both_ballots : Db
both_ballots = db_of (cast_vote test_ports against_it first_ballot) first_ballot

second_run :
    (o : VoteOutcome) × Commits (cast_vote test_ports against_it) first_ballot o both_ballots
unfolding cast_vote check_ballot lock_proposal load_proposal ◌>>=◌
second_run = committed-run (cast_vote test_ports against_it) first_ballot refl

polling_town-IsCounted : IsCounted polling_town
polling_town-IsCounted = (tt, tt)

Reach-IsCounted_example : IsCounted both_ballots
Reach-IsCounted_example =
    Reach-IsCounted polling_town both_ballots
      (ProposalReach.next
        (ProposalReach.next ProposalReach.start
          (ProposalStep.voting test_ports for_it first_run.0 first_run.1))
        (ProposalStep.voting test_ports against_it second_run.0 second_run.1))
      polling_town-IsCounted

-- The member changes sides, too late.
abbrev turned : VoteInput
turned = record { proposal_id = 70; member_id = 2; option_id = 1 }

abbrev recast : Db
recast = db_of (cast_vote test_ports turned first_ballot) first_ballot

recast_run : (o : VoteOutcome) × Commits (cast_vote test_ports turned) first_ballot o recast
unfolding cast_vote check_ballot lock_proposal load_proposal ◌>>=◌
recast_run = committed-run (cast_vote test_ports turned) first_ballot refl

cast_vote-once_example :
    (recast_run.0 ≡ record { vote_id = first_run.0.vote_id; idempotent = true })
    × (recast ≡ first_ballot)
cast_vote-once_example =
    cast_vote-once test_ports test_ports for_it turned polling_town first_ballot recast first_run.0
      recast_run.0 first_run.1 refl refl recast_run.1

-- The end, after the deadline: 'reject' wins by 7 to 5.
abbrev late_ports : Ports
late_ports = record test_ports { now = 2000 }

abbrev concluded_town : Db
concluded_town = db_of (end late_ports 70 both_ballots) both_ballots

abbrev verdict : EndSummary
verdict = record {
  winning_option_id = 1;
  voter_count = 2;
  total_vote_weight = 12;
  quorum_met = true;
  result_record_id = 1002;
}

end_run : end late_ports 70 both_ballots ≡ ok (EndOutcome.concluded verdict, concluded_town)
unfolding end load_proposal end_proposal_if_due conclude settle emit create_pending_record
    update_proposal cast_vote check_ballot lock_proposal tally_votes resolve_outcome weigh_options
    total_weight find_lead ◌>>=◌
end_run = refl

end-HasResult_example : HasResult late_ports 70 (votes_on 70 both_ballots) verdict concluded_town
end-HasResult_example = end-HasResult late_ports 70 both_ballots verdict concluded_town end_run

end-again_example : end test_ports 70 concluded_town ≡ ok (EndOutcome.noop, concluded_town)
unfolding cast_vote check_ballot lock_proposal load_proposal ◌>>=◌
end-again_example =
    end-again late_ports test_ports 70 both_ballots verdict concluded_town (omega arith) end_run

end-IsQuiet_example : IsQuiet both_ballots concluded_town
end-IsQuiet_example = end-IsQuiet late_ports 70 both_ballots verdict concluded_town end_run refl

abbrev split_votes : List VoteRow
split_votes =
    record {
      id = 1;
      proposal_id = 70;
      member_id = 2;
      option_id = 0;
      total_token_balance_snapshot = 5;
      active_governance_balance_snapshot = 5;
      total_supply_snapshot = 12;
    }
    ∷ (record {
      id = 2;
      proposal_id = 70;
      member_id = 3;
      option_id = 1;
      total_token_balance_snapshot = 7;
      active_governance_balance_snapshot = 7;
      total_supply_snapshot = 12;
    }
        ∷ [])

tally_votes_lem_example :
    (((tally_votes split_votes).winning_option_id ≡ some 1) ↔ IsPlurality split_votes 1)
    × ((tally_votes split_votes).total_vote_weight
        ≡ sum_of (λ v. v.active_governance_balance_snapshot) split_votes)
tally_votes_lem_example = tally_votes_lem split_votes 1

-- Nobody votes on a ballot without 'reject', of which 'approve' is the last option.
resolve_outcome_lem_example : (resolve_outcome [] (2 ∷ (0 ∷ [])) ≡ approve_option_id) ↔ (
    IsPlurality [] approve_option_id
    ⊎ (IsUndecided []
        × ((any (λ o. o == reject_option_id) (2 ∷ (0 ∷ [])) ≡ false)
            × (last_option (2 ∷ (0 ∷ [])) ≡ approve_option_id))))
resolve_outcome_lem_example = resolve_outcome_lem [] (2 ∷ (0 ∷ []))
