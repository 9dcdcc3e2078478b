-- ===== src/Engine/Proposal/Ballots.antt =====
-- Votes weigh what was frozen, and no member has two votes on one proposal.
use you_fen.Base.{
  ℕ, ◌≡◌, refl, false, some, List, [], ◌∷◌, ◌++◌, any, find, All, All-append, any-append, any-find,
  find-append_some, arith,
}
use you_fen.Engine.Tables.{ProposalRow, SnapshotRow, VoteRow}
use you_fen.Engine.Db.{Db}
use you_fen.Engine.Db.Locks.{lock_active_epoch, lock_state}
use you_fen.Engine.Db.Sql.{transition_proposal_status, end_proposal_if_due}
use you_fen.Engine.Db.Keeps.{Keeps, Keeps-modify, Keeps-fresh_id, Keeps-update, Keeps-bind, reads}
use you_fen.Engine.Ports.{Ports, create_pending_record, create_db_only_record}
use you_fen.Engine.Policy.{read_policy}
use you_fen.Engine.Proposal.End.Settle.{IsBlind, settle-blind}
use you_fen.Engine.Proposal.{load_proposal, update_proposal, emit}
use you_fen.Engine.Proposal.Create.{ProposalCreateInput, create}
use you_fen.Engine.Proposal.Activate.{is_snapshot_of, insert_snapshots, take_snapshot, activate}
use you_fen.Engine.Proposal.Vote.{VoteInput, is_vote_of, cast_vote}
use you_fen.Engine.Proposal.End.{conclude, end}
use you_fen.Engine.Proposal.Casts.{Cast, new_vote, cast_vote-cases}
use you_fen.Engine.Proposal.Steps.{ProposalStep, ProposalReach}

-- The vote weighs the tokens that were frozen for its member on its proposal.
abbrev pub IsWeighed : List SnapshotRow → VoteRow → Type 0
IsWeighed ss v =
    (s : SnapshotRow) × (find (is_snapshot_of v.proposal_id v.member_id) ss ≡ some s)
    × (v.active_governance_balance_snapshot ≡ s.active_governance_token)

-- No two votes of one member on one proposal.
abbrev pub IsSingle : List VoteRow → Type 0
IsSingle [] = Unit
IsSingle (v ∷ vs) = (any (is_vote_of v.proposal_id v.member_id) vs ≡ false) × IsSingle vs

abbrev pub IsCounted : Db → Type 0
IsCounted d = All (IsWeighed d.snapshots) d.votes × IsSingle d.votes

IsWeighed-append :
    (ss : List SnapshotRow) (s : SnapshotRow) (vs : List VoteRow)
    → All (IsWeighed ss) vs
    → All (IsWeighed (ss ++ s ∷ [])) vs
IsWeighed-append ss s [] h = tt
IsWeighed-append ss s (v ∷ vs) ((x, fx, w), h) = (
  (x, find-append_some (is_snapshot_of v.proposal_id v.member_id) ss (s ∷ []) x fx, w),
  IsWeighed-append ss s vs h,
)

IsSingle-append :
    (vs : List VoteRow) (v : VoteRow)
    → IsSingle vs
    → any (is_vote_of v.proposal_id v.member_id) vs ≡ false
    → IsSingle (vs ++ v ∷ [])
IsSingle-append [] v h k = (refl, tt)
IsSingle-append (x ∷ vs) v (hx, h) k = (
  ground (arith, any-append (is_vote_of x.proposal_id x.member_id) vs (v ∷ [])),
  IsSingle-append vs v h (ground arith),
)

snapshot-IsCounted :
    (d : Db) (s : SnapshotRow)
    → IsCounted d
    → IsCounted (record d { snapshots = d.snapshots ++ s ∷ [] })
snapshot-IsCounted d s (w, one) = (IsWeighed-append d.snapshots s d.votes w, one)

vote-IsCounted :
    (d : Db) (v : VoteRow)
    → IsWeighed d.snapshots v
    → any (is_vote_of v.proposal_id v.member_id) d.votes ≡ false
    → IsCounted d
    → IsCounted (record d { votes = d.votes ++ v ∷ [] })
vote-IsCounted d v hv new (w, one) = (
  All-append (IsWeighed d.snapshots) d.votes (v ∷ []) w (hv, tt),
  IsSingle-append d.votes v one new,
)

create-IsCounted : (ports : Ports) (i : ProposalCreateInput) → Keeps IsCounted (create ports i)
unfolding create create_db_only_record
create-IsCounted ports i = search (reads, Keeps-modify, Keeps-fresh_id) depth 40

insert_snapshots-IsCounted : (ss : List SnapshotRow) → Keeps IsCounted (insert_snapshots ss)
unfolding insert_snapshots
insert_snapshots-IsCounted [] = search reads
insert_snapshots-IsCounted (x ∷ ss) = Keeps-bind _ _ (search reads) λ f.
    Keeps-bind _ _ (search reads) λ _.
      Keeps-bind _ _ (Keeps-modify _ (λ d t. snapshot-IsCounted d x t))
        λ _. insert_snapshots-IsCounted ss

take_snapshot-IsCounted :
    (ports : Ports) (p : ProposalRow) → Keeps IsCounted (take_snapshot ports p)
unfolding take_snapshot read_policy lock_active_epoch lock_state update_proposal emit
    create_pending_record
take_snapshot-IsCounted ports p =
    search (reads, Keeps-modify, Keeps-fresh_id, insert_snapshots-IsCounted) depth 60

activate-IsCounted : (ports : Ports) (id : ℕ) → Keeps IsCounted (activate ports id)
unfolding activate load_proposal transition_proposal_status
activate-IsCounted ports id = search (reads, Keeps-update, take_snapshot-IsCounted) depth 40

IsCounted-blind : IsBlind IsCounted
IsCounted-blind = record {
  policies = λ ps d h. h;
  versions = λ vs d h. h;
  requests = λ qs d h. h;
  ids = λ n d h. h;
}

conclude-IsCounted : (ports : Ports) (p : ProposalRow) → Keeps IsCounted (conclude ports p)
unfolding conclude emit create_pending_record update_proposal
conclude-IsCounted ports p =
    search (reads, Keeps-modify, Keeps-fresh_id, settle-blind IsCounted-blind) depth 60

end-IsCounted : (ports : Ports) (id : ℕ) → Keeps IsCounted (end ports id)
unfolding end load_proposal end_proposal_if_due
end-IsCounted ports id = search (reads, Keeps-update, conclude-IsCounted) depth 40

cast_vote-IsCounted : (ports : Ports) (i : VoteInput) → Keeps IsCounted (cast_vote ports i)
cast_vote-IsCounted ports i = record {
  at = λ d o e run h. elim (cast_vote-cases ports i d o e run) [
    | Cast.again v hv eo ee ↦ rw ee h
    | Cast.counted p s new frozen eo ee ↦ rw ee (
        vote-IsCounted d (new_vote i p s d) (s, frozen, refl)
          (rw (any-find (is_vote_of i.proposal_id i.member_id) d.votes, new) refl) h)
  ];
}

Step-IsCounted : (d e : Db) → ProposalStep d e → IsCounted d → IsCounted e
Step-IsCounted d e (ProposalStep.proposing ports i id run) h =
    (create-IsCounted ports i).at d id e run h
Step-IsCounted d e (ProposalStep.activating ports id o run) h =
    (activate-IsCounted ports id).at d o e run h
Step-IsCounted d e (ProposalStep.voting ports i o run) h =
    (cast_vote-IsCounted ports i).at d o e run h
Step-IsCounted d e (ProposalStep.ending ports id o run) h = (end-IsCounted ports id).at d o e run h

-- If every vote weighs what was frozen for its member and no member has two votes on one proposal,
-- then the same holds after every sequence of committed calls of the proposal service.
pub Reach-IsCounted : (d e : Db) → ProposalReach d e → IsCounted d → IsCounted e
Reach-IsCounted d _ ProposalReach.start h = h
Reach-IsCounted d e (ProposalReach.next {e = m} r s) h =
    Step-IsCounted m e s (Reach-IsCounted d m r h)
