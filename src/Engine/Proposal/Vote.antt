-- ===== src/Engine/Proposal/Vote.antt =====
-- lib/engine/proposal-service.ts: castVote. A vote's share of the supply is a float that is only
-- displayed, and is left out.
use you_fen.Base.{
  ℕ, Bool, true, false, ◌&&◌, not, Option, none, some, [], ◌∷◌, ◌++◌, ◌==◌, ltb, any, find,
  or_default,
}
use you_fen.Engine.Errors.{not_found, invalid_status, validation_error, forbidden}
use you_fen.Engine.Tables.{ProposalRow, ProposalStatus, BalanceRow, SnapshotRow, VoteRow}
use you_fen.Engine.Db.{Tx, ◌>>=◌, ◌>>◌, pure, gets, require, throw_if, modify, fresh_id}
use you_fen.Engine.Db.Locks.{is_balance_of, lock_proposal}
use you_fen.Engine.Db.Sql.{status_eq}
use you_fen.Engine.Ports.{Ports}
use you_fen.Engine.Proposal.{load_proposal}
use you_fen.Engine.Proposal.Activate.{is_snapshot_of}

pub record VoteInput : Type 0 where
  pub proposal_id : ℕ
  pub member_id : ℕ
  pub option_id : ℕ

pub record VoteOutcome : Type 0 where
  pub vote_id : ℕ
  pub idempotent : Bool

-- The end has passed; a proposal without an end is open.
abbrev pub is_past : ℕ → Option ℕ → Bool
is_past now none = false
is_past now (some t) = ltb t now

abbrev pub is_open : ℕ → ProposalRow → Bool
is_open now p = status_eq p.status ProposalStatus.active && not (is_past now p.end_time)

abbrev pub is_vote_of : ℕ → ℕ → VoteRow → Bool
is_vote_of proposal_id member_id v = v.proposal_id == proposal_id && v.member_id == member_id

-- The balance is only displayed.
abbrev total_of : Option BalanceRow → ℕ
total_of none = 0
total_of (some b) = b.total_balance

abbrev pub vote_row : VoteInput → ProposalRow → SnapshotRow → Option BalanceRow → ℕ → VoteRow
vote_row input p s balance id = record {
  id = id;
  proposal_id = input.proposal_id;
  member_id = input.member_id;
  option_id = input.option_id;
  total_token_balance_snapshot = total_of balance;
  active_governance_balance_snapshot = s.active_governance_token;
  total_supply_snapshot = or_default p.total_supply_snapshot 0;
}

-- `vote.create`, where a clash of the unique key [proposalId, memberId] is caught and turned into
-- the vote that is there.
abbrev pub insert_vote : VoteInput → (ℕ → VoteRow) → Option VoteRow → Tx VoteOutcome
insert_vote input row_of (some raced) = pure (record { vote_id = raced.id; idempotent = true })
insert_vote input row_of none = do
  id ← fresh_id
  modify λ d. record d { votes = d.votes ++ row_of id ∷ [] }
  pure (record { vote_id = id; idempotent = false })

-- The vote that is there already, or a new one.
abbrev pub vote_unless_existing :
    VoteInput → ProposalRow → SnapshotRow → Option VoteRow → Tx VoteOutcome
vote_unless_existing input p s (some existing) =
    pure (record { vote_id = existing.id; idempotent = true })
vote_unless_existing input p s none = do
  balance ← gets λ d. find (is_balance_of p.community_id input.member_id) d.balances
  raced ← gets λ d. find (is_vote_of input.proposal_id input.member_id) d.votes
  insert_vote input (vote_row input p s balance) raced

-- The checks before a vote is looked for.
unfoldable pub check_ballot : Ports → VoteInput → Tx (ProposalRow × SnapshotRow)
check_ballot ports input = do
  locked ← require (← lock_proposal input.proposal_id) not_found
  p ← load_proposal input.proposal_id
  throw_if (not (is_open ports.now p)) invalid_status
  throw_if (not (any (λ o. o == input.option_id) p.options)) validation_error
  snapshot ← gets λ d. find (is_snapshot_of input.proposal_id input.member_id) d.snapshots
  s ← require snapshot forbidden
  pure (p, s)

-- `castVote`
unfoldable pub cast_vote : Ports → VoteInput → Tx VoteOutcome
cast_vote ports input = do
  checked ← check_ballot ports input
  existing ← gets λ d. find (is_vote_of input.proposal_id input.member_id) d.votes
  vote_unless_existing input checked.0 checked.1 existing
