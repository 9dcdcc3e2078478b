-- ===== src/Jobs/Backed/Confirm.antt =====
-- Confirm jobs keep every verified record on the chain.
use you_fen.Base.{
  ℕ, ◌≡◌, refl, Bool, true, false, Option, none, some, List, [], ◌∷◌, ◌==◌, All, find,
}
use you_fen.Engine.Tables.{retryable_error, confirming, verified, failed, PublicRecordRow}
use you_fen.Engine.Db.{gets}
use you_fen.Chain.Records.{get_by_id}
use you_fen.Jobs.{returned}
use you_fen.Jobs.Keeps.{Triple, Triple-pure, Triple-throw, Triple-bind, Triple-statement}
use you_fen.Jobs.Confirm.{
  ConfirmDeps, ConfirmOutcome, ConfirmResult, ReceiptStatus, reverted_patch, confirmed_patch,
  verify_if, confirm_settle, confirm_row, process_confirm_job,
}
use you_fen.Jobs.Backed.{
  loaded_hash, ChainView, IsBackedRow, Grows, KeepsBacked, BackedAnd, Nothing, called,
  transition-Backed,
}

-- What the chain promises to a confirm job: what is recorded stays recorded, and a look at a hash
-- answers that it is there only if it is.
pub record ConfirmLaws {E : Type 0} (deps : ConfirmDeps E) (v : ChainView E) : Type 0 where
  pub keeps : KeepsBacked v deps.others
  pub grows_wait : (t h : ℕ) → Grows v (deps.wait_for_confirmation t h)
  pub grows_read : (h : ℕ) → Grows v (deps.read_chain_record h)
  pub tells_read :
      (h : ℕ) (e : E)
      → (deps.read_chain_record h e).0 ≡ returned true
      → v.on_chain h (deps.read_chain_record h e).1 ≡ true

module _ {E : Type 0} (deps : ConfirmDeps E) (v : ChainView E) (laws : ConfirmLaws deps v) where
  open laws use {keeps, grows_wait, grows_read, tells_read}

  -- The hash is that of the record.
  abbrev Hashed : ℕ → ℕ → E → Type 0
  Hashed id h e = h ≡ v.hash_of id

  abbrev Seen : ℕ → Bool → E → Type 0
  Seen id exists e = exists ≡ true → v.on_chain (v.hash_of id) e ≡ true

  abbrev Found : ℕ → Option PublicRecordRow → E → Type 0
  Found id none e = Unit
  Found id (some row) e = row.record_hash ≡ v.hash_of id

  verified_if :
      (id : ℕ) (result : ConfirmResult) (exists : Bool)
      → Triple
          (BackedAnd v (Seen id exists))
          (verify_if deps id result exists)
          (λ o. BackedAnd v (Nothing v))
          (BackedAnd v (Nothing v))
  verified_if id result false = Triple-throw retryable_error (λ w h. (h.0, tt))
  verified_if id result true =
      Triple-bind _ _
        (transition-Backed v deps.others keeps (Seen id true) id (confirming ∷ []) verified
          (confirmed_patch result) (λ t e. cc) (λ e seen s. seen refl))
        (λ b. Triple-pure ConfirmOutcome.verified (λ w h. (h.0, tt)))

  read_hash :
      (id h : ℕ) (exists : Bool) (e : E)
      → h ≡ v.hash_of id
      → (deps.read_chain_record h e).0 ≡ returned exists
      → Seen id exists (deps.read_chain_record h e).1
  read_hash id h exists e same k s = rw (← same) (tells_read h e (rw s at k))

  settled :
      (id h : ℕ) (result : ConfirmResult) (status : ReceiptStatus)
      → Triple
          (BackedAnd v (Hashed id h))
          (confirm_settle deps id h result status)
          (λ o. BackedAnd v (Nothing v))
          (BackedAnd v (Nothing v))
  settled id h result ReceiptStatus.reverted =
      Triple-bind _ _
        (transition-Backed v deps.others keeps (Hashed id h) id (confirming ∷ []) failed
          reverted_patch (λ t e. cc) (λ e f s. cc))
        (λ b. Triple-pure ConfirmOutcome.reverted (λ w k. (k.0, tt)))
  settled id h result ReceiptStatus.confirmed =
      Triple-bind _ _
        (called v deps.others keeps (Seen id) (deps.read_chain_record h) (grows_read h)
          (read_hash id h))
        (verified_if id result)

  row_confirmed :
      (id tx : ℕ) (o : Option PublicRecordRow)
      → Triple
          (BackedAnd v (Found id o))
          (confirm_row deps id tx o)
          (λ o. BackedAnd v (Nothing v))
          (BackedAnd v (Nothing v))
  row_confirmed id tx none = Triple-pure ConfirmOutcome.skipped (λ w h. (h.0, tt))
  row_confirmed id tx (some row) =
      Triple-bind _ _
        (called v deps.others keeps {F = Hashed id row.record_hash} (λ r. Hashed id row.record_hash)
          (deps.wait_for_confirmation tx row.record_hash) (grows_wait tx row.record_hash)
          (λ a e f k. f))
        (λ result. settled id row.record_hash result result.status)

  found :
      (id : ℕ) (e : E) (rs : List PublicRecordRow) (o : Option PublicRecordRow)
      → All (IsBackedRow v e) rs
      → find (λ r. r.id == id) rs ≡ o
      → Found id o e
  found id e rs none h k = tt
  found id e rs (some row) h k = loaded_hash v id e rs row h k

  pub confirmed_job :
      (id tx : ℕ)
      → Triple
          (BackedAnd v (Nothing v))
          (process_confirm_job deps id tx)
          (λ o. BackedAnd v (Nothing v))
          (BackedAnd v (Nothing v))
  unfolding process_confirm_job get_by_id gets
  confirmed_job id tx =
      Triple-bind _ _
        (Triple-statement deps.others (get_by_id id) λ w h. (
          keeps w.env w.db h.0,
          found id w.env (deps.others w.env w.db).records _ (keeps w.env w.db h.0) refl,
        ))
        (row_confirmed id tx)
