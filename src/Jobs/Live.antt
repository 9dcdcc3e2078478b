-- ===== src/Jobs/Live.antt =====
-- What takes a record that is pending through its submit job and its confirm job: the chain as the
-- workers see it, the row of the record, and a rule for each kind of step that cannot throw.
pub mod Steps
pub mod Submit
pub mod Claim
pub mod Confirm
pub mod Runs
mod Tests
use you_fen.Base.{
  ℕ, ◌≡◌, refl, inl, inr, Bool, true, false, Option, none, some, List, [], ◌∷◌, ◌==◌, ltb, length,
  select, update_all, find, find_sound, Bool-cases, arith,
}
use you_fen.Engine.Tables.{VerificationStatus, confirming, verified, verification, PublicRecordRow}
use you_fen.Engine.Db.{Db, Tx}
use you_fen.Chain.Records.{RecordPatch, addressed, same_status, can_transition, move, transition}
use you_fen.Jobs.{World, Job, Port, Others, returned, call, statement}
use you_fen.Jobs.Keeps.{Triple, Triple-call, Triple-statement}
use you_fen.Jobs.Build.{SubmittableRecord}
use you_fen.Jobs.Submit.{SubmitDeps, SubmitResult, FoundTx}
use you_fen.Jobs.Submit.Rows.{transition-run}
use you_fen.Jobs.Confirm.{ConfirmDeps, ConfirmResult, ReceiptStatus}

-- The hashes that the contract holds, the transactions that have written a hash, and the node's count of
-- the wallet's transactions.
pub record LiveView (E : Type 0) : Type 0 where
  pub on_chain : ℕ → E → Bool
  pub writes : ℕ → ℕ → Bool
  pub count : E → ℕ

-- A step of the world outside that changes neither the contract nor the count.
abbrev pub IsStill : {E : Type 0} → LiveView E → (E → E) → Type 0
IsStill {E} v f =
    (e : E) → ((h : ℕ) → v.on_chain h (f e) ≡ v.on_chain h e) × (v.count (f e) ≡ v.count e)

-- The node and the contract answer a submit job as documented: a read tells what the contract holds; a
-- hash that it holds is found with a transaction that wrote it; and a hash that it does not hold is
-- accepted with the nonce that is next, and held from then on. No other worker acts.
pub record SubmitAnswers {E : Type 0} (deps : SubmitDeps E) (v : LiveView E) : Type 0 where
  pub alone : (e : E) (d : Db) → deps.others e d ≡ d
  pub reads : (h : ℕ) (e : E) → (deps.read_chain_record h e).0 ≡ returned (v.on_chain h e)
  pub finds :
      (h : ℕ) (e : E)
      → v.on_chain h e ≡ true
      → (f : FoundTx) × ((deps.find_tx_by_record_hash h e).0 ≡ returned (some f))
        × (v.writes f.tx_hash h ≡ true)
  pub submits :
      (s : SubmittableRecord) (e : E)
      → v.on_chain s.record_hash e ≡ false
      → (r : SubmitResult) × ((deps.submit_record s (v.count e) e).0 ≡ returned r)
        × (v.writes r.tx_hash s.record_hash ≡ true)
        × (v.on_chain s.record_hash (deps.submit_record s (v.count e) e).1 ≡ true)
  pub enqueues :
      (id t : ℕ) (e : E) → (u : Unit {0}) × ((deps.enqueue_confirm id t e).0 ≡ returned u)
  pub still_rebuild : (row : PublicRecordRow) (d : Db) → IsStill v (λ e. (deps.rebuild row d e).1)
  pub still_read : (h : ℕ) → IsStill v (λ e. (deps.read_chain_record h e).1)
  pub still_find : (h : ℕ) → IsStill v (λ e. (deps.find_tx_by_record_hash h e).1)
  pub still_enqueue : (id t : ℕ) → IsStill v (λ e. (deps.enqueue_confirm id t e).1)

-- And a confirm job: where the contract holds a hash, the wait for a transaction that wrote it ends with
-- a confirmation.
pub record ConfirmAnswers {E : Type 0} (deps : ConfirmDeps E) (v : LiveView E) : Type 0 where
  pub alone : (e : E) (d : Db) → deps.others e d ≡ d
  pub waits :
      (t h : ℕ) (e : E)
      → v.writes t h ≡ true
      → v.on_chain h e ≡ true
      → (r : ConfirmResult) × ((deps.wait_for_confirmation t h e).0 ≡ returned r)
        × (r.status ≡ ReceiptStatus.confirmed)
  pub reads : (h : ℕ) (e : E) → (deps.read_chain_record h e).0 ≡ returned (v.on_chain h e)
  pub still_wait : (t h : ℕ) → IsStill v (λ e. (deps.wait_for_confirmation t h e).1)

-- The row of a record.
abbrev pub row_of : ℕ → Db → Option PublicRecordRow
row_of id d = find (λ r. r.id == id) d.records

-- The row has the status and the hash, and its transaction satisfies `Q`.
abbrev pub RowIs : ℕ → ℕ → VerificationStatus → (Option ℕ → Type 0) → Db → Type 0
RowIs id h st Q d =
    (row : PublicRecordRow) × (row_of id d ≡ some row)
    × (row.status ≡ verification st)
    × (row.record_hash ≡ h)
    × Q row.tx_hash

-- The tables with the rows of a record updated, if they have the status.
abbrev pub updated : ℕ → VerificationStatus → (PublicRecordRow → PublicRecordRow) → Db → Db
updated id x f d = record d { records = update_all (addressed id (x ∷ [])) f d.records }

-- The row that is found is among those that an update addresses.
pub found_updated :
    (key p : PublicRecordRow → Bool) (f : PublicRecordRow → PublicRecordRow)
    (rs : List PublicRecordRow) (row : PublicRecordRow)
    → find key rs ≡ some row
    → p row ≡ true
    → key (f row) ≡ true
    → ((r : PublicRecordRow) → p r ≡ true → key r ≡ true)
    → (find key (update_all p f rs) ≡ some (f row)) × (ltb 0 (length (select p rs)) ≡ true)
found_updated key p f [] row e hit k within = cc
found_updated key p f (r ∷ rs) row e hit k within =
    ground (arith, within r, found_updated key p f rs row)

pub addressed_row :
    (id : ℕ) (x : VerificationStatus) (row : PublicRecordRow)
    → (row.id == id) ≡ true
    → row.status ≡ verification x
    → same_status x x ≡ true
    → addressed id (x ∷ []) row ≡ true
addressed_row id x row key st same = rw (key, st, same) refl

pub addressed_key :
    (id : ℕ) (x : VerificationStatus) (r : PublicRecordRow)
    → addressed id (x ∷ []) r ≡ true
    → (r.id == id) ≡ true
addressed_key id x r h = ground arith

pub row_updated :
    (id h : ℕ) (x : VerificationStatus) (Q : Option ℕ → Type 0)
    (f : PublicRecordRow → PublicRecordRow) (d : Db)
    → same_status x x ≡ true
    → ((r : PublicRecordRow) → (f r).id ≡ r.id)
    → (k : RowIs id h x Q d)
    → (row_of id (updated id x f d) ≡ some (f k.0))
      × (ltb 0 (length (select (addressed id (x ∷ [])) d.records)) ≡ true)
row_updated id h x Q f d same keeps (row, e, st, hash, q) =
    let key = find_sound (λ r. r.id == id) d.records row e in
    found_updated (λ r. r.id == id) (addressed id (x ∷ [])) f d.records row e
      (addressed_row id x row key st same) (rw (keeps row) key) (addressed_key id x)

module _ {E : Type 0} (others : Others E) (alone : (e : E) (d : Db) → others e d ≡ d) where
  abbrev pub Never : World E → Type 0
  Never w = ⊥

  pub answered :
      {A : Type 0} {P : World E → Type 0} {Q : A → World E → Type 0} (port : Port E A)
      → ((w : World E)
          → P w
          → (a : A) × ((port w.env).0 ≡ returned a) × Q a (record w { env = (port w.env).1 }))
      → Triple P (call others port) Q Never
  answered {P} port answers =
      Triple-call {P = P} others port
        λ w h. let (a, e, q) = answers w h in rw (e, alone (port w.env).1 w.db) q

  -- A transition of the row of the record.
  pub moved :
      {P : World E → Type 0} {Q : Bool → World E → Type 0} (id h : ℕ) (x to : VerificationStatus)
      (T : Option ℕ → Type 0) (patch : RecordPatch)
      → can_transition x to ≡ true
      → same_status x x ≡ true
      → ((w : World E) → P w → RowIs id h x T w.db)
      → ((w : World E) → P w → Q true (record w { db = updated id x (move to patch) w.db }))
      → Triple P (statement others (transition id (x ∷ []) to patch)) Q Never
  moved {P} {Q} id h x to T patch edge same has after =
      Triple-statement {P = P} others (transition id (x ∷ []) to patch) λ w k.
        rw
          (
            alone w.env w.db,
            transition-run id x to patch w.db edge,
            (row_updated id h x T (move to patch) w.db same (λ r. refl) (has w k)).1,
          )
          (after w k)
