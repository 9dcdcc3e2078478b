-- ===== src/Engine/Proposal.antt =====
-- lib/engine/proposal-service.ts: proposals, their frozen weights, their votes and their results.
-- This file has what the operations share.
pub mod Create
pub mod Tally
pub mod Activate
pub mod Vote
pub mod End
pub mod Frames
pub mod Steps
pub mod Casts
pub mod Ballots
mod Tests
use you_fen.Base.{ℕ, Bool, Option, List, ◌==◌, any, find, update_first}
use you_fen.Engine.Errors.{not_found}
use you_fen.Engine.Tables.{ProposalRow, RecordType, SourceTable}
use you_fen.Engine.Db.{Db, Tx, ◌>>=◌, ◌>>◌, gets, require, modify, assert_found}
use you_fen.Engine.Ports.{Ports, ProposalData, RecordSource, create_pending_record}

-- `proposal.findUnique`, and the error for a proposal that is not there.
unfoldable pub load_proposal : ℕ → Tx ProposalRow
load_proposal id = do row ← gets λ d. find (λ p. p.id == id) d.proposals; require row not_found

-- `proposal.update`
unfoldable pub update_proposal : ℕ → (ProposalRow → ProposalRow) → Tx Unit
update_proposal id change = do
  assert_found (← gets λ d. any (λ p. p.id == id) d.proposals)
  modify λ d. record d { proposals = update_first (λ p. p.id == id) change d.proposals }

-- The `kind` that `emit` is called with.
pub data ProposalRecordKind : Type 0 where
  snapshot result : ProposalRecordKind

abbrev pub record_type_of : ProposalRecordKind → RecordType
record_type_of ProposalRecordKind.snapshot = RecordType.proposal_snapshot
record_type_of ProposalRecordKind.result = RecordType.proposal_result

abbrev pub source_of : ProposalRecordKind → ProposalData → RecordSource
source_of ProposalRecordKind.snapshot = RecordSource.proposal_snapshot
source_of ProposalRecordKind.result = RecordSource.proposal_result

-- `emit`
unfoldable pub emit : Ports → ProposalRecordKind → ProposalData → ℕ → Tx ℕ
emit ports kind source community_id =
    create_pending_record (record_type_of kind) SourceTable.proposal source.id community_id
      (ports.build_envelope (source_of kind source))

-- The columns of a proposal that an envelope is built from.
abbrev pub proposal_data : ProposalRow → ProposalData
proposal_data p = record {
  id = p.id;
  community_id = p.community_id;
  epoch_number_snapshot = p.epoch_number_snapshot;
  total_supply_snapshot = p.total_supply_snapshot;
  active_governance_supply_snapshot = p.active_governance_supply_snapshot;
  token_policy_version_snapshot = p.token_policy_version_snapshot;
  snapshot_at = p.snapshot_at;
  ended_at = p.ended_at;
  winning_option_id = p.winning_option_id;
  voter_count = p.voter_count;
  total_vote_weight = p.total_vote_weight;
  created_at = p.created_at;
  weights_merkle_root = p.weights_merkle_root;
  votes_merkle_root = p.votes_merkle_root;
}
