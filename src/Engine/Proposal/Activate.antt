-- ===== src/Engine/Proposal/Activate.antt =====
-- lib/engine/proposal-service.ts: activate, which freezes the weights of the members.
use you_fen.Base.{
  ℕ, ◌+◌, ◌*◌, Bool, ◌&&◌, not, Option, none, some, List, [], ◌∷◌, ◌++◌, map, ◌==◌, ltb, any,
  select, sum_of, or_default, if◌then◌else◌,
}
use you_fen.Engine.Errors.{ok, err, p2002, epoch_not_active, invalid_status}
use you_fen.Engine.Tables.{
  ProposalRow, ProposalStatus, BalanceRow, StateRow, EpochRow, PolicyRow, SnapshotRow,
}
use you_fen.Engine.Db.{Tx, ◌>>=◌, ◌>>◌, pure, gets, lift, require, throw_if, modify}
use you_fen.Engine.Db.Locks.{lock_active_epoch, lock_state}
use you_fen.Engine.Db.Sql.{status_eq, transition_proposal_status}
use you_fen.Engine.Ports.{Ports}
use you_fen.Engine.Policy.{read_policy}
use you_fen.Chain.Merkle.{build_merkle_root}
use you_fen.Engine.Proposal.{
  load_proposal, update_proposal, emit, ProposalRecordKind, proposal_data,
}

-- `VOTE_WINDOW_MS`
abbrev pub vote_window_ms : ℕ
vote_window_ms = 72 * 60 * 60 * 1000

-- A stable sort by member id, as `sort` does it.
abbrev pub insert_member : BalanceRow → List BalanceRow → List BalanceRow
insert_member b [] = b ∷ []
insert_member b (x ∷ xs) =
    let rest = insert_member b xs in if ltb x.member_id b.member_id then x ∷ rest else b ∷ x ∷ xs

abbrev pub sort_members : List BalanceRow → List BalanceRow
sort_members [] = []
sort_members (b ∷ bs) = insert_member b (sort_members bs)

abbrev pub snapshot_row : ℕ → BalanceRow → SnapshotRow
snapshot_row proposal_id m = record {
  proposal_id = proposal_id;
  member_id = m.member_id;
  active_governance_token = m.active_governance_balance;
}

abbrev pub is_snapshot_of : ℕ → ℕ → SnapshotRow → Bool
is_snapshot_of proposal_id member_id s = s.proposal_id == proposal_id && s.member_id == member_id

-- `proposalMemberSnapshot.createMany`, row by row; the key [proposalId, memberId] is unique.
unfoldable pub insert_snapshots : List SnapshotRow → Tx Unit
insert_snapshots [] = pure tt
insert_snapshots (s ∷ ss) = do
  lift
      (← gets λ d.
        if any (is_snapshot_of s.proposal_id s.member_id) d.snapshots then err p2002 else ok tt)
  modify λ d. record d { snapshots = d.snapshots ++ s ∷ [] }
  insert_snapshots ss

abbrev pub snapshot_leaf : Ports → ℕ → BalanceRow → ℕ
snapshot_leaf ports community_id m =
    ports.hash_snapshot_leaf (ports.hash_member_id community_id m.member_id)
      m.active_governance_balance

abbrev supply_of : Option StateRow → ℕ
supply_of none = 0
supply_of (some s) = s.current_total_supply

abbrev version_of : Option PolicyRow → ℕ
version_of none = 0
version_of (some p) = p.policy_version

-- The columns that an activation writes; `p` is the proposal that was read.
abbrev pub freeze :
    Ports
    → EpochRow
    → Option StateRow
    → Option PolicyRow
    → List BalanceRow
    → ProposalRow
    → ProposalRow
    → ProposalRow
freeze ports epoch state policy members p q = record q {
  community_id = p.community_id;
  epoch_number_snapshot = some epoch.epoch_number;
  total_supply_snapshot = some (supply_of state);
  active_governance_supply_snapshot = some (sum_of (λ m. m.active_governance_balance) members);
  token_policy_version_snapshot = some (version_of policy);
  snapshot_at = some ports.now;
  epoch_id_snapshot = some epoch.id;
  start_time = some ports.now;
  end_time = some (or_default p.end_time (ports.now + vote_window_ms));
  weights_merkle_root =
      build_merkle_root ports.hash_node (map (snapshot_leaf ports p.community_id) members);
}

-- The source of the envelope has no columns of a result.
abbrev pub without_result : ProposalRow → ProposalRow
without_result p = record p {
  ended_at = none;
  winning_option_id = none;
  voter_count = none;
  total_vote_weight = none;
  votes_merkle_root = none;
}

abbrev pub set_snapshot_record : ℕ → ProposalRow → ProposalRow
set_snapshot_record record_id p = record p { snapshot_public_record_id = some record_id }

pub data ActivateOutcome : Type 0 where
  noop : ActivateOutcome
  activated : ℕ → ActivateOutcome

-- The snapshot of a proposal that has just become active.
unfoldable pub take_snapshot : Ports → ProposalRow → Tx ActivateOutcome
take_snapshot ports p = do
  policy ← read_policy p.community_id
  epoch ← require (← lock_active_epoch p.community_id) epoch_not_active
  state ← lock_state p.community_id
  members ← gets λ d. sort_members (select (λ b. b.community_id == p.community_id) d.balances)
  insert_snapshots (map (snapshot_row p.id) members)
  update_proposal p.id (freeze ports epoch state policy members p)
  record_id ←
      emit ports ProposalRecordKind.snapshot
        (proposal_data (without_result (freeze ports epoch state policy members p p)))
        p.community_id
  update_proposal p.id (set_snapshot_record record_id)
  pure (ActivateOutcome.activated record_id)

-- `activate`
unfoldable pub activate : Ports → ℕ → Tx ActivateOutcome
activate ports id = do
  proposal ← load_proposal id
  moved ← transition_proposal_status id ProposalStatus.draft ProposalStatus.active
  if moved == 0
      then (do
        throw_if (not (status_eq proposal.status ProposalStatus.active)) invalid_status
        pure ActivateOutcome.noop)
      else take_snapshot ports proposal
