-- ===== src/Engine/Db.antt =====
-- The database as the engine uses it: one list of rows for each table, and a transaction as a
-- function from the tables to a result and the tables after it. A transaction that throws hands
-- back no tables, which is the rollback of `$transaction`; rows are locked until it ends, so that
-- transactions are taken one after another.
pub mod Locks
pub mod Sql
pub mod Keeps
use you_fen.Base.{
  ℕ, suc, Bool, true, false, Option, none, some, List, [], ◌∷◌, ◌++◌, any, update_first,
}
use you_fen.Engine.Errors.{EngineErrorCode, Failure, engine_error, p2002, p2025, Result, ok, err}
use you_fen.Engine.Tables.{
  EpochRow, BalanceRow, StateRow, MintEventRow, ReversalEventRow, PolicyRow, PolicyVersionRow,
  ContributionRow, MemberRow, AdvanceRequestRow, ProposalRow, SnapshotRow, VoteRow, PublicRecordRow,
}

-- `next_id` is the source of the ids that `create` hands out.
pub record Db : Type 0 where
  pub epochs : List EpochRow
  pub balances : List BalanceRow
  pub states : List StateRow
  pub mint_events : List MintEventRow
  pub reversal_events : List ReversalEventRow
  pub policies : List PolicyRow
  pub policy_versions : List PolicyVersionRow
  pub contributions : List ContributionRow
  pub members : List MemberRow
  pub advance_requests : List AdvanceRequestRow
  pub proposals : List ProposalRow
  pub snapshots : List SnapshotRow
  pub votes : List VoteRow
  pub records : List PublicRecordRow
  pub next_id : ℕ

abbrev pub Tx : Type 0 → Type 0
Tx A = Db → Result (A × Db)

module _ {A : Type 0} where
  unfoldable pub pure : A → Tx A
  pure a d = ok (a, d)

  unfoldable pub gets : (Db → A) → Tx A
  gets f d = ok (f d, d)

  -- A result of a pure function that may throw.
  unfoldable pub lift : Result A → Tx A
  lift (ok a) d = ok (a, d)
  lift (err e) d = err e

  -- `throw new EngineError(code)`
  unfoldable pub throw : EngineErrorCode → Tx A
  throw code d = err (engine_error code)

  -- `if (!row) throw new EngineError(code)`
  unfoldable pub require : Option A → EngineErrorCode → Tx A
  require none code d = err (engine_error code)
  require (some a) code d = ok (a, d)

-- `if (bad) throw new EngineError(code)`
unfoldable pub throw_if : Bool → EngineErrorCode → Tx Unit
throw_if true code d = err (engine_error code)
throw_if false code d = ok (tt, d)

unfoldable pub modify : (Db → Db) → Tx Unit
modify f d = ok (tt, f d)

-- A `create` takes the next id.
unfoldable pub fresh_id : Tx ℕ
fresh_id d = ok (d.next_id, record d { next_id = suc d.next_id })

-- An `update` whose row is missing throws P2025.
unfoldable pub assert_found : Bool → Tx Unit
assert_found true d = ok (tt, d)
assert_found false d = err p2025

abbrev continue : {A B : Type 0} → Result (A × Db) → (A → Tx B) → Result (B × Db)
continue (ok (a, d)) f = f a d
continue (err e) f = err e

infixl 5 ◌>>=◌ ◌>>◌
-- Opening this opens the actions above too.
unfoldable pub ◌>>=◌ : {A B : Type 0} → Tx A → (A → Tx B) → Tx B
unfolding pure gets lift throw require throw_if modify fresh_id assert_found
◌>>=◌ m f d = continue (m d) f

abbrev pub ◌>>◌ : {B : Type 0} → Tx (Unit {0}) → Tx B → Tx B
m >> k = m >>= λ _. k
