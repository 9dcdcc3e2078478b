-- ===== src/Engine/Proposal/Frames.antt =====
-- The proposal service changes no total of a community.
use you_fen.Base.{ℕ, refl, Option, none, some, List, [], ◌∷◌}
use you_fen.Engine.Tables.{
  ProposalRow, ProposalStatus, ProposalType, PolicyChangePayload, SnapshotRow, VoteRow,
  AdvanceRequestRow,
}
use you_fen.Engine.Db.{Db}
use you_fen.Engine.Db.Sql.{transition_proposal_status, end_proposal_if_due}
use you_fen.Engine.Db.Locks.{lock_active_epoch, lock_state, lock_proposal}
use you_fen.Engine.Db.Keeps.{Keeps, Keeps-update, Keeps-modify, Keeps-bind, Keeps-pure, reads}
use you_fen.Engine.Ports.{Ports, ProposalData}
use you_fen.Engine.Books.{Totals}
use you_fen.Engine.Books.Updates.{Totals-frame}
use you_fen.Engine.Books.Steps.{
  create_pending_record-Keeps, create_db_only_record-Keeps, fresh_id-Keeps,
}
use you_fen.Engine.Policy.{read_policy}
use you_fen.Engine.Policy.Frames.{create_pending_version-Keeps}
use you_fen.Engine.Proposal.{load_proposal, update_proposal, emit, ProposalRecordKind}
use you_fen.Engine.Proposal.Create.{ProposalCreateInput, create}
use you_fen.Engine.Proposal.Activate.{insert_snapshots, take_snapshot, activate}
use you_fen.Engine.Proposal.Vote.{
  VoteInput, insert_vote, vote_unless_existing, check_ballot, cast_vote,
}
use you_fen.Engine.Proposal.End.{approve_request, settle_type, settle, conclude, end}

module _ (c h s m r : ℕ) where
  proposals-Totals :
      (d : Db) (ps : List ProposalRow)
      → Totals c h s m r d
      → Totals c h s m r (record d { proposals = ps })
  proposals-Totals d ps t = Totals-frame c h s m r d _ t refl refl refl refl refl refl

  snapshots-Totals :
      (d : Db) (ss : List SnapshotRow)
      → Totals c h s m r d
      → Totals c h s m r (record d { snapshots = ss })
  snapshots-Totals d ss t = Totals-frame c h s m r d _ t refl refl refl refl refl refl

  votes-Totals :
      (d : Db) (vs : List VoteRow) → Totals c h s m r d → Totals c h s m r (record d { votes = vs })
  votes-Totals d vs t = Totals-frame c h s m r d _ t refl refl refl refl refl refl

  requests-Totals :
      (d : Db) (qs : List AdvanceRequestRow)
      → Totals c h s m r d
      → Totals c h s m r (record d { advance_requests = qs })
  requests-Totals d qs t = Totals-frame c h s m r d _ t refl refl refl refl refl refl

  update_proposal-Keeps :
      (id : ℕ) (f : ProposalRow → ProposalRow) → Keeps (Totals c h s m r) (update_proposal id f)
  unfolding update_proposal
  update_proposal-Keeps id f = search (reads, Keeps-modify, proposals-Totals) depth 14

  load_proposal-Keeps : (id : ℕ) → Keeps (Totals c h s m r) (load_proposal id)
  unfolding load_proposal
  load_proposal-Keeps id = search reads depth 14

  emit-Keeps :
      (ports : Ports) (k : ProposalRecordKind) (source : ProposalData) (owner : ℕ)
      → Keeps (Totals c h s m r) (emit ports k source owner)
  unfolding emit
  emit-Keeps ports k source owner = create_pending_record-Keeps c h s m r _ _ _ owner _

  pub create-Keeps :
      (ports : Ports) (i : ProposalCreateInput) → Keeps (Totals c h s m r) (create ports i)
  unfolding create
  create-Keeps ports i = Keeps-bind _ _ (search reads) λ type. Keeps-bind _ _ (search reads) λ _.
      Keeps-bind _ _ (search reads) λ end_time. Keeps-bind _ _ (search reads) λ _.
        Keeps-bind _ _ (fresh_id-Keeps c h s m r) λ id.
          Keeps-bind _ _ (Keeps-modify _ (λ d t. proposals-Totals d _ t))
            λ _. search (reads, create_db_only_record-Keeps c h s m r) depth 14

  insert_snapshots-Keeps : (ss : List SnapshotRow) → Keeps (Totals c h s m r) (insert_snapshots ss)
  unfolding insert_snapshots
  insert_snapshots-Keeps [] = search reads
  insert_snapshots-Keeps (x ∷ ss) = Keeps-bind _ _ (search reads) λ f.
      Keeps-bind _ _ (search reads) λ _.
        Keeps-bind _ _ (Keeps-modify _ (λ d t. snapshots-Totals d _ t))
          λ _. insert_snapshots-Keeps ss

  take_snapshot-Keeps :
      (ports : Ports) (p : ProposalRow) → Keeps (Totals c h s m r) (take_snapshot ports p)
  unfolding take_snapshot read_policy lock_active_epoch lock_state
  take_snapshot-Keeps ports p =
      search (reads, insert_snapshots-Keeps, update_proposal-Keeps, emit-Keeps) depth 50

  transition_proposal_status-Keeps :
      (id : ℕ) (from to : ProposalStatus)
      → Keeps (Totals c h s m r) (transition_proposal_status id from to)
  unfolding transition_proposal_status
  transition_proposal_status-Keeps id from to = Keeps-update _ _ λ d t. proposals-Totals d _ t

  end_proposal_if_due-Keeps : (id now : ℕ) → Keeps (Totals c h s m r) (end_proposal_if_due id now)
  unfolding end_proposal_if_due
  end_proposal_if_due-Keeps id now = Keeps-update _ _ λ d t. proposals-Totals d _ t

  pub activate-Keeps : (ports : Ports) (id : ℕ) → Keeps (Totals c h s m r) (activate ports id)
  unfolding activate
  activate-Keeps ports id =
      search (reads, load_proposal-Keeps, transition_proposal_status-Keeps, take_snapshot-Keeps)
        depth 30

  insert_vote-Keeps :
      (i : VoteInput) (row_of : ℕ → VoteRow) (o : Option VoteRow)
      → Keeps (Totals c h s m r) (insert_vote i row_of o)
  insert_vote-Keeps i row_of (some v) = search reads
  insert_vote-Keeps i row_of none =
      Keeps-bind _ _ (fresh_id-Keeps c h s m r)
        λ id. Keeps-bind _ _ (Keeps-modify _ (λ d t. votes-Totals d _ t)) λ _. Keeps-pure _

  vote_unless_existing-Keeps :
      (i : VoteInput) (p : ProposalRow) (x : SnapshotRow) (o : Option VoteRow)
      → Keeps (Totals c h s m r) (vote_unless_existing i p x o)
  vote_unless_existing-Keeps i p x (some v) = search reads
  vote_unless_existing-Keeps i p x none = search (reads, insert_vote-Keeps) depth 14

  check_ballot-Keeps :
      (ports : Ports) (i : VoteInput) → Keeps (Totals c h s m r) (check_ballot ports i)
  unfolding check_ballot lock_proposal
  check_ballot-Keeps ports i = search (reads, load_proposal-Keeps) depth 40

  pub cast_vote-Keeps :
      (ports : Ports) (i : VoteInput) → Keeps (Totals c h s m r) (cast_vote ports i)
  unfolding cast_vote
  cast_vote-Keeps ports i = search (reads, check_ballot-Keeps, vote_unless_existing-Keeps) depth 20

  approve_request-Keeps :
      (ports : Ports) (o : Option PolicyChangePayload)
      → Keeps (Totals c h s m r) (approve_request ports o)
  approve_request-Keeps ports none = search reads
  approve_request-Keeps ports (some payload) = Keeps-modify _ (λ d t. requests-Totals d _ t)

  settle_type-Keeps :
      (ports : Ports) (p : ProposalRow) (o : Option ProposalType)
      → Keeps (Totals c h s m r) (settle_type ports p o)
  settle_type-Keeps ports p none = search reads
  settle_type-Keeps ports p (some ProposalType.community_decision) = search reads
  settle_type-Keeps ports p (some ProposalType.token_policy_change) =
      search (reads, create_pending_version-Keeps c h s m r) depth 14
  settle_type-Keeps ports p (some ProposalType.budget_advance) = approve_request-Keeps ports _
  settle_type-Keeps ports p (some ProposalType.special_mint) = search reads
  settle_type-Keeps ports p (some ProposalType.related_party_mint) = search reads
  settle_type-Keeps ports p (some ProposalType.token_reversal) = search reads

  settle-Keeps : (ports : Ports) (p : ProposalRow) → Keeps (Totals c h s m r) (settle ports p)
  unfolding settle
  settle-Keeps ports p = settle_type-Keeps ports p p.type

  conclude-Keeps : (ports : Ports) (p : ProposalRow) → Keeps (Totals c h s m r) (conclude ports p)
  unfolding conclude
  conclude-Keeps ports p = search (reads, settle-Keeps, emit-Keeps, update_proposal-Keeps) depth 40

  pub end-Keeps : (ports : Ports) (id : ℕ) → Keeps (Totals c h s m r) (end ports id)
  unfolding end
  end-Keeps ports id =
      search (reads, load_proposal-Keeps, end_proposal_if_due-Keeps, conclude-Keeps) depth 30
