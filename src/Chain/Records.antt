-- ===== src/Chain/Records.antt =====
-- lib/blockchain/records: the state machine of a public record, and the conditional updates of the
-- record service.
pub mod Lifecycle
mod Tests
use you_fen.Base.{
  ℕ, Bool, true, false, ◌&&◌, ◌||◌, not, Option, none, some, List, [], ◌∷◌, ◌==◌, ltb, length,
  or_default, select, update_all, find, any, if◌then◌else◌,
}
use you_fen.Engine.Errors.{
  Result, ok, err, invalid_transition, invalid_record_status, record_not_found,
}
use you_fen.Engine.Tables.{
  VerificationStatus, pending, submitting, confirming, verified, failed, superseded, RecordStatus,
  verification, recorded, PublicRecordRow, LastError,
}
use you_fen.Engine.Db.{Db, Tx, ◌>>=◌, ◌>>◌, pure, gets, lift}

abbrev pub same_status : VerificationStatus → VerificationStatus → Bool
same_status pending pending = true
same_status submitting submitting = true
same_status confirming confirming = true
same_status verified verified = true
same_status failed failed = true
same_status superseded superseded = true
same_status _ _ = false

-- `TRANSITIONS`
abbrev pub transitions : VerificationStatus → List VerificationStatus
transitions pending = submitting ∷ []
transitions submitting = confirming ∷ (failed ∷ (pending ∷ (verified ∷ [])))
transitions confirming = verified ∷ (failed ∷ (pending ∷ []))
transitions failed = pending ∷ []
transitions verified = superseded ∷ []
transitions superseded = []

-- `canTransition`
unfoldable pub can_transition : VerificationStatus → VerificationStatus → Bool
can_transition from to = any (same_status to) (transitions from)

-- `assertTransition`
unfoldable pub assert_transition : VerificationStatus → VerificationStatus → Result (Unit {0})
assert_transition from to = if can_transition from to then ok tt else err invalid_transition

-- `isDisplayableAsConfirmed`
unfoldable pub is_displayable_as_confirmed : VerificationStatus → Bool
is_displayable_as_confirmed status = same_status status verified

-- `RecordPatch`: the columns that may be written beside the status, each where it is given.
pub record RecordPatch : Type 0 where
  pub tx_hash : Option ℕ
  pub assigned_nonce : Option ℕ
  pub block_number : Option ℕ
  pub block_hash : Option ℕ
  pub submitted_at : Option ℕ
  pub confirmed_at : Option ℕ
  pub attempt_epoch : Option ℕ
  pub last_error : Option LastError
  pub superseded_by_record_id : Option ℕ

abbrev pub empty_patch : RecordPatch
empty_patch = record {
  tx_hash = none;
  assigned_nonce = none;
  block_number = none;
  block_hash = none;
  submitted_at = none;
  confirmed_at = none;
  attempt_epoch = none;
  last_error = none;
  superseded_by_record_id = none;
}

-- A column that the patch gives, else the one that is there.
abbrev pub patched : {A : Type 0} → Option A → Option A → Option A
patched none old = old
patched (some new) old = some new

-- What `sanitizePatch` lets through, written to a row.
abbrev pub apply_patch : RecordPatch → PublicRecordRow → PublicRecordRow
apply_patch p r = record r {
  tx_hash = patched p.tx_hash r.tx_hash;
  assigned_nonce = patched p.assigned_nonce r.assigned_nonce;
  block_number = patched p.block_number r.block_number;
  block_hash = patched p.block_hash r.block_hash;
  submitted_at = patched p.submitted_at r.submitted_at;
  confirmed_at = patched p.confirmed_at r.confirmed_at;
  attempt_epoch = or_default p.attempt_epoch r.attempt_epoch;
  last_error = patched p.last_error r.last_error;
  superseded_by_record_id = patched p.superseded_by_record_id r.superseded_by_record_id;
}

-- `status: { in: from }`
abbrev pub has_status_in : List VerificationStatus → RecordStatus → Bool
has_status_in from recorded = false
has_status_in from (verification s) = any (same_status s) from

abbrev pub addressed : ℕ → List VerificationStatus → PublicRecordRow → Bool
addressed record_id from r = r.id == record_id && has_status_in from r.status

abbrev pub move : VerificationStatus → RecordPatch → PublicRecordRow → PublicRecordRow
move to patch r = record (apply_patch patch r) { status = verification to }

-- The check of every edge, before anything is written.
abbrev pub assert_edges : List VerificationStatus → VerificationStatus → Result (Unit {0})
assert_edges [] to = ok tt
assert_edges (state ∷ from) to = elim (assert_transition state to) [
  | ok u ↦ assert_edges from to
  | err e ↦ err e
]

-- `transition`: returns whether a row was moved.
unfoldable pub transition : ℕ → List VerificationStatus → VerificationStatus → RecordPatch → Tx Bool
transition record_id from to patch = do
  lift (assert_edges from to)
  λ d. ok (
    ltb 0 (length (select (addressed record_id from) d.records)),
    record d { records = update_all (addressed record_id from) (move to patch) d.records },
  )

-- `patchInStatus`
unfoldable pub patch_in_status : ℕ → VerificationStatus → RecordPatch → Tx Bool
patch_in_status record_id status patch d = ok (
  ltb 0 (length (select (addressed record_id (status ∷ [])) d.records)),
  record d {
    records = update_all (addressed record_id (status ∷ [])) (apply_patch patch) d.records;
  },
)

-- `getById`
unfoldable pub get_by_id : ℕ → Tx (Option PublicRecordRow)
get_by_id record_id = gets λ d. find (λ r. r.id == record_id) d.records

abbrev pub set_superseded_by : ℕ → RecordPatch
set_superseded_by record_id = record empty_patch { superseded_by_record_id = some record_id }

-- `markSuperseded`
unfoldable pub mark_superseded : ℕ → ℕ → Tx Unit
mark_superseded original_record_id superseded_by_record_id = do
  moved ←
      transition original_record_id (verified ∷ []) superseded
        (set_superseded_by superseded_by_record_id)
  lift (if moved then ok tt else err invalid_record_status)

abbrev pub is_pending : RecordStatus → Bool
is_pending (verification pending) = true
is_pending _ = false

-- The checks of `requestSubmission`, up to the enqueueing; a row that is found is handed on.
abbrev pub submittable : Option PublicRecordRow → Result PublicRecordRow
submittable none = err record_not_found
submittable (some r) =
    if not (is_pending r.status)
    then err invalid_record_status
    else if not r.chain_eligible
    then err invalid_record_status
    else ok r

unfoldable pub request_submission : ℕ → Tx PublicRecordRow
unfolding get_by_id
request_submission record_id = do row ← get_by_id record_id; lift (submittable row)
