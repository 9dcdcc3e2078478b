-- ===== src/Engine/Proposal/Casts.antt =====
-- What a ballot that is accepted does, and that a second one does nothing.
use you_fen.Base.{
  suc, ◌≡◌, refl, sym, true, false, Option, none, some, [], ◌∷◌, ◌++◌, find, find-append_none,
  arith,
}
use you_fen.Engine.Tables.{ProposalRow, SnapshotRow, VoteRow}
use you_fen.Engine.Db.{Db, ◌>>=◌, gets}
use you_fen.Engine.Db.Locks.{is_balance_of, lock_proposal}
use you_fen.Engine.Db.Keeps.{Commits, >>=-inv, gets-run}
use you_fen.Engine.Ports.{Ports}
use you_fen.Engine.Proposal.{load_proposal}
use you_fen.Engine.Proposal.Activate.{is_snapshot_of}
use you_fen.Engine.Proposal.Vote.{
  VoteInput, VoteOutcome, is_vote_of, vote_row, vote_unless_existing, check_ballot, cast_vote,
}

-- A vote that is cast takes its weight from the snapshot, and no vote of the member was there.
check_ballot-run :
    (ports : Ports) (i : VoteInput) (d : Db) (c : ProposalRow × SnapshotRow) (e : Db)
    → Commits (check_ballot ports i) d c e
    → (find (is_snapshot_of i.proposal_id i.member_id) d.snapshots ≡ some c.1) × (e ≡ d)
unfolding check_ballot load_proposal lock_proposal ◌>>=◌
check_ballot-run ports i d c e run = ground arith

-- The vote that a new ballot leaves.
abbrev pub new_vote : VoteInput → ProposalRow → SnapshotRow → Db → VoteRow
new_vote i p s d =
    vote_row i p s (find (is_balance_of p.community_id i.member_id) d.balances) d.next_id

vote_unless_existing-run :
    (i : VoteInput) (p : ProposalRow) (s : SnapshotRow) (d : Db) (o : VoteOutcome) (e : Db)
    → find (is_vote_of i.proposal_id i.member_id) d.votes ≡ none
    → Commits (vote_unless_existing i p s none) d o e
    → (o ≡ record { vote_id = d.next_id; idempotent = false })
      × (e ≡ record d { votes = d.votes ++ new_vote i p s d ∷ []; next_id = suc d.next_id })
unfolding ◌>>=◌
vote_unless_existing-run i p s d o e new run = ground arith

existing-run :
    (i : VoteInput) (p : ProposalRow) (s : SnapshotRow) (v : VoteRow) (d : Db) (o : VoteOutcome)
    (e : Db)
    → Commits (vote_unless_existing i p s (some v)) d o e
    → (o ≡ record { vote_id = v.id; idempotent = true }) × (e ≡ d)
unfolding ◌>>=◌
existing-run i p s v d o e run = ground arith

-- What a ballot that is accepted does: nothing, if the member has a vote; else it adds one vote, of
-- the weight that was frozen.
pub data Cast (i : VoteInput) (d : Db) (o : VoteOutcome) (e : Db) : Type 0 where
  again :
      (v : VoteRow)
      → find (is_vote_of i.proposal_id i.member_id) d.votes ≡ some v
      → o ≡ record { vote_id = v.id; idempotent = true }
      → e ≡ d
      → Cast i d o e
  counted :
      (p : ProposalRow) (s : SnapshotRow)
      → find (is_vote_of i.proposal_id i.member_id) d.votes ≡ none
      → find (is_snapshot_of i.proposal_id i.member_id) d.snapshots ≡ some s
      → o ≡ record { vote_id = d.next_id; idempotent = false }
      → e ≡ record d { votes = d.votes ++ new_vote i p s d ∷ []; next_id = suc d.next_id }
      → Cast i d o e

vote_unless_existing-Cast :
    (i : VoteInput) (p : ProposalRow) (s : SnapshotRow) (d : Db) (o : VoteOutcome) (e : Db)
    (existing : Option VoteRow)
    → find (is_vote_of i.proposal_id i.member_id) d.votes ≡ existing
    → find (is_snapshot_of i.proposal_id i.member_id) d.snapshots ≡ some s
    → Commits (vote_unless_existing i p s existing) d o e
    → Cast i d o e
vote_unless_existing-Cast i p s d o e (some v) h frozen run =
    let (eo, ee) = existing-run i p s v d o e run in Cast.again v h eo ee
vote_unless_existing-Cast i p s d o e none h frozen run =
    let (eo, ee) = vote_unless_existing-run i p s d o e h run in Cast.counted p s h frozen eo ee

pub cast_vote-cases :
    (ports : Ports) (i : VoteInput) (d : Db) (o : VoteOutcome) (e : Db)
    → Commits (cast_vote ports i) d o e
    → Cast i d o e
unfolding cast_vote
cast_vote-cases ports i d o e run =
    let (c, d', checked, rest) = >>=-inv (check_ballot ports i) _ d o e run in
    let (frozen, same) = check_ballot-run ports i d c d' checked in
    let (x, d'', read, last) = >>=-inv (gets _) _ d' o e rest in
    let (ex, ed) = gets-run _ x d' d'' read in
    vote_unless_existing-Cast i c.0 c.1 d o e x (sym (rw same at ex)) frozen (rw (ed, same) at last)

found_again :
    (i : VoteInput) (d : Db) (o : VoteOutcome) (e : Db)
    → Cast i d o e
    → (v : VoteRow) × (find (is_vote_of i.proposal_id i.member_id) e.votes ≡ some v)
      × (v.id ≡ o.vote_id)
found_again i d o e (Cast.again v hv eo ee) = (v, rw ee hv, rw eo refl)
found_again i d o e (Cast.counted p s new frozen eo ee) = (
  new_vote i p s d,
  rw ee (
      ground (
        arith,
        find-append_none (is_vote_of i.proposal_id i.member_id) d.votes (new_vote i p s d ∷ []),
      )),
  rw eo refl,
)

-- After a ballot that is accepted, a ballot of the same member on the same proposal that is accepted
-- on the tables it left, whatever its option and time, answers with the same vote and changes
-- nothing.
pub cast_vote-once :
    (ports later : Ports) (i j : VoteInput) (d e f : Db) (o q : VoteOutcome)
    → Commits (cast_vote ports i) d o e
    → j.proposal_id ≡ i.proposal_id
    → j.member_id ≡ i.member_id
    → Commits (cast_vote later j) e q f
    → (q ≡ record { vote_id = o.vote_id; idempotent = true }) × (f ≡ e)
cast_vote-once ports later i j d e f o q first same_proposal same_member second =
    let (v, hv, hid) = found_again i d o e (cast_vote-cases ports i d o e first) in
    elim (cast_vote-cases later j e q f second) [
      | Cast.again w hw eq ef ↦ (cc, ef)
      | Cast.counted p s new frozen eq ef ↦ cc
    ]
