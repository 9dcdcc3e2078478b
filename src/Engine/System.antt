-- ===== src/Engine/System.antt =====
-- The engine as a whole: sequences of committed calls of the mint, advance, reversal, policy,
-- proposal and epoch services. A call that throws changes nothing, and so is no step.
pub mod Refinement
pub mod Runs
mod Tests
use you_fen.Base.{ℕ, ◌≡◌, Bool, refl}
use you_fen.Engine.Db.{Db, Tx}
use you_fen.Engine.Db.Keeps.{Commits, Keeps}
use you_fen.Engine.Ports.{Ports}
use you_fen.Engine.Books.{Balanced}
use you_fen.Engine.Books.Acts.{Acts, Acts-Balanced, Keeps-Acts}
use you_fen.Engine.Mint.{MintOutcome}
use you_fen.Engine.Mint.Gates.{MintInput}
use you_fen.Engine.Mint.Contribution.{mint_for_contribution}
use you_fen.Engine.Mint.Conservation.{mint_for_contribution-Acts}
use you_fen.Engine.Mint.Genesis.{AllocationInput, mint_initial_allocation}
use you_fen.Engine.Mint.Seed.{mint_initial_allocation-Acts}
use you_fen.Engine.Advance.{AdvanceRequestSummary}
use you_fen.Engine.Advance.Requests.{
  AdvanceRequestInput, create_request, second_approve, attach_proposal, reject,
}
use you_fen.Engine.Advance.Execute.{ExecuteInput, execute}
use you_fen.Engine.Advance.Conservation.{
  create_request-Keeps, second_approve-Keeps, attach_proposal-Keeps, reject-Keeps, execute-Acts,
}
use you_fen.Engine.Reversal.Guards.{ReverseInput}
use you_fen.Engine.Reversal.Reverse.{ReversalOutcome, reverse_mint}
use you_fen.Engine.Reversal.Reverse.Conservation.{reverse_mint-Acts}
use you_fen.Engine.Reversal.Supersede.{finalize_supersede}
use you_fen.Engine.Reversal.Supersede.Frames.{finalize_supersede-Keeps}
use you_fen.Engine.Policy.{PendingVersionInput, PendingVersion, create_pending_version}
use you_fen.Engine.Policy.Frames.{create_pending_version-Keeps}
use you_fen.Engine.Proposal.Steps.{ProposalStep}
use you_fen.Engine.Proposal.Frames.{create-Keeps, activate-Keeps, cast_vote-Keeps, end-Keeps}
use you_fen.Engine.Epoch.Close.{CloseOutcome, close_epoch}
use you_fen.Engine.Epoch.Next.{NextEpoch, create_next_epoch}
use you_fen.Engine.Epoch.Conservation.{close_epoch-Keeps, create_next_epoch-Keeps}

-- One call of a service that commits; the ports, and with them the clock, may differ between calls.
pub data Step (d e : Db) : Type 0 where
  minting :
      (ports : Ports) (i : MintInput) (o : MintOutcome)
      → Commits (mint_for_contribution ports i) d o e
      → Step d e
  seeding :
      (ports : Ports) (i : AllocationInput) (o : MintOutcome)
      → Commits (mint_initial_allocation ports i) d o e
      → Step d e
  requesting :
      (ports : Ports) (i : AdvanceRequestInput) (o : AdvanceRequestSummary)
      → Commits (create_request ports i) d o e
      → Step d e
  approving :
      (ports : Ports) (id approver : ℕ) (o : AdvanceRequestSummary)
      → Commits (second_approve ports id approver) d o e
      → Step d e
  attaching :
      (id proposal : ℕ) (o : AdvanceRequestSummary)
      → Commits (attach_proposal id proposal) d o e
      → Step d e
  rejecting : (id : ℕ) (o : AdvanceRequestSummary) → Commits (reject id) d o e → Step d e
  executing :
      (ports : Ports) (i : ExecuteInput) (o : MintOutcome)
      → Commits (execute ports i) d o e
      → Step d e
  reversing :
      (ports : Ports) (i : ReverseInput) (o : ReversalOutcome)
      → Commits (reverse_mint ports i) d o e
      → Step d e
  superseding : (id : ℕ) (b : Bool) → Commits (finalize_supersede id) d b e → Step d e
  versioning :
      (ports : Ports) (i : PendingVersionInput) (v : PendingVersion)
      → Commits (create_pending_version ports i) d v e
      → Step d e
  closing :
      (ports : Ports) (id : ℕ) (o : CloseOutcome) → Commits (close_epoch ports id) d o e → Step d e
  opening :
      (ports : Ports) (community : ℕ) (o : NextEpoch)
      → Commits (create_next_epoch ports community) d o e
      → Step d e
  governing : ProposalStep d e → Step d e

pub data Reach (d : Db) : Db → Type 0 where
  start : Reach d d
  next : {e f : Db} → Reach d e → Step e f → Reach d f

ProposalStep-Acts : (c : ℕ) (d e : Db) → ProposalStep d e → Balanced c d → Acts c d e
ProposalStep-Acts c d e (ProposalStep.proposing ports i o run) b =
    Keeps-Acts c _ d o e (λ h s n r. create-Keeps c h s n r ports i) run b
ProposalStep-Acts c d e (ProposalStep.activating ports id o run) b =
    Keeps-Acts c _ d o e (λ h s n r. activate-Keeps c h s n r ports id) run b
ProposalStep-Acts c d e (ProposalStep.voting ports i o run) b =
    Keeps-Acts c _ d o e (λ h s n r. cast_vote-Keeps c h s n r ports i) run b
ProposalStep-Acts c d e (ProposalStep.ending ports id o run) b =
    Keeps-Acts c _ d o e (λ h s n r. end-Keeps c h s n r ports id) run b

-- What each call does to the totals of a community.
pub Step-Acts : (c : ℕ) (d e : Db) → Step d e → Balanced c d → Acts c d e
Step-Acts c d e (Step.minting ports i o run) b = mint_for_contribution-Acts ports i c d o e b run
Step-Acts c d e (Step.seeding ports i o run) b = mint_initial_allocation-Acts ports i c d o e b run
Step-Acts c d e (Step.requesting ports i o run) b =
    Keeps-Acts c _ d o e (λ h s n r. create_request-Keeps c h s n r ports i) run b
Step-Acts c d e (Step.approving ports id a o run) b =
    Keeps-Acts c _ d o e (λ h s n r. second_approve-Keeps c h s n r ports id a) run b
Step-Acts c d e (Step.attaching id p o run) b =
    Keeps-Acts c _ d o e (λ h s n r. attach_proposal-Keeps c h s n r id p) run b
Step-Acts c d e (Step.rejecting id o run) b =
    Keeps-Acts c _ d o e (λ h s n r. reject-Keeps c h s n r id) run b
Step-Acts c d e (Step.executing ports i o run) b = execute-Acts ports i c d o e b run
Step-Acts c d e (Step.reversing ports i o run) b = reverse_mint-Acts ports i c d o e b run
Step-Acts c d e (Step.superseding id o run) b =
    Keeps-Acts c _ d o e (λ h s n r. finalize_supersede-Keeps c h s n r id) run b
Step-Acts c d e (Step.versioning ports i v run) b =
    Keeps-Acts c _ d v e (λ h s n r. create_pending_version-Keeps c h s n r ports i) run b
Step-Acts c d e (Step.closing ports id o run) b =
    Keeps-Acts c _ d o e (λ h s n r. close_epoch-Keeps c h s n r ports id) run b
Step-Acts c d e (Step.opening ports w o run) b =
    Keeps-Acts c _ d o e (λ h s n r. create_next_epoch-Keeps c h s n r ports w) run b
Step-Acts c d e (Step.governing s) b = ProposalStep-Acts c d e s b

Step-Balanced : (c : ℕ) (d e : Db) → Step d e → Balanced c d → Balanced c e
Step-Balanced c d e s b = Acts-Balanced c d e (Step-Acts c d e s b) b

-- Books that balance stay so along every sequence of committed calls of the mint, advance, reversal,
-- policy, proposal and epoch services: the supply on record is the sum of the members' balances and equals
-- what was minted less what was reversed, every balance splits into its active and pending part,
-- every epoch is within its two budgets, and the balances have ids of their own.
pub Reach-Balanced : (c : ℕ) (d e : Db) → Reach d e → Balanced c d → Balanced c e
Reach-Balanced c d _ Reach.start b = b
Reach-Balanced c d e (Reach.next {e = m} r s) b = Step-Balanced c m e s (Reach-Balanced c d m r b)
