-- ===== src/Engine/Proposal/Steps.antt =====
-- Committed calls of the proposal service, one after another.
use you_fen.Base.{ℕ}
use you_fen.Engine.Db.{Db}
use you_fen.Engine.Db.Keeps.{Commits}
use you_fen.Engine.Ports.{Ports}
use you_fen.Engine.Proposal.Create.{ProposalCreateInput, create}
use you_fen.Engine.Proposal.Activate.{ActivateOutcome, activate}
use you_fen.Engine.Proposal.Vote.{VoteInput, VoteOutcome, cast_vote}
use you_fen.Engine.Proposal.End.{EndOutcome, end}

pub data ProposalStep (d e : Db) : Type 0 where
  proposing :
      (ports : Ports) (i : ProposalCreateInput) (id : ℕ)
      → Commits (create ports i) d id e
      → ProposalStep d e
  activating :
      (ports : Ports) (id : ℕ) (o : ActivateOutcome)
      → Commits (activate ports id) d o e
      → ProposalStep d e
  voting :
      (ports : Ports) (i : VoteInput) (o : VoteOutcome)
      → Commits (cast_vote ports i) d o e
      → ProposalStep d e
  ending :
      (ports : Ports) (id : ℕ) (o : EndOutcome) → Commits (end ports id) d o e → ProposalStep d e

pub data ProposalReach (d : Db) : Db → Type 0 where
  start : ProposalReach d d
  next : {e f : Db} → ProposalReach d e → ProposalStep e f → ProposalReach d f
