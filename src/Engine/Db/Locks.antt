-- ===== src/Engine/Db/Locks.antt =====
-- lib/engine/db-locks.ts and lib/engine/ledger-seq.ts: the row reads under a lock, and the ledger
-- sequence. A lock returns the first row that its WHERE clause selects.
use you_fen.Base.{ℕ, suc, Bool, ◌&&◌, Option, ◌==◌, find, update_all}
use you_fen.Engine.Errors.{not_found}
use you_fen.Engine.Tables.{
  EpochRow, BalanceRow, StateRow, MintEventRow, ProposalRow, epoch_is_active,
}
use you_fen.Engine.Db.{Tx, gets, pure, modify, ◌>>=◌, ◌>>◌, require}

abbrev pub is_active_epoch : ℕ → EpochRow → Bool
is_active_epoch community_id e = e.community_id == community_id && epoch_is_active e.status

abbrev pub is_balance_of : ℕ → ℕ → BalanceRow → Bool
is_balance_of community_id member_id b = b.community_id == community_id && b.member_id == member_id

abbrev pub is_state_of : ℕ → StateRow → Bool
is_state_of community_id s = s.community_id == community_id

unfoldable pub lock_active_epoch : ℕ → Tx (Option EpochRow)
lock_active_epoch community_id = gets λ d. find (is_active_epoch community_id) d.epochs

unfoldable pub lock_epoch_by_id : ℕ → Tx (Option EpochRow)
lock_epoch_by_id epoch_id = gets λ d. find (λ e. e.id == epoch_id) d.epochs

unfoldable pub lock_balance : ℕ → ℕ → Tx (Option BalanceRow)
lock_balance community_id member_id =
    gets λ d. find (is_balance_of community_id member_id) d.balances

unfoldable pub lock_state : ℕ → Tx (Option StateRow)
lock_state community_id = gets λ d. find (is_state_of community_id) d.states

unfoldable pub lock_proposal : ℕ → Tx (Option ProposalRow)
lock_proposal proposal_id = gets λ d. find (λ p. p.id == proposal_id) d.proposals

unfoldable pub lock_mint_event : ℕ → Tx (Option MintEventRow)
lock_mint_event id = gets λ d. find (λ m. m.id == id) d.mint_events

abbrev pub bump_seq : StateRow → StateRow
bump_seq s = record s { ledger_seq = suc s.ledger_seq }

-- `UPDATE … SET "ledgerSeq" = "ledgerSeq" + 1 … RETURNING "ledgerSeq"`
unfoldable pub allocate_ledger_seq : ℕ → Tx ℕ
allocate_ledger_seq community_id = do
  modify λ d. record d { states = update_all (is_state_of community_id) bump_seq d.states }
  row ← require (← gets λ d. find (is_state_of community_id) d.states) not_found
  pure row.ledger_seq
