-- ===== src/Jobs/Reconcile.antt =====
-- lib/blockchain/records/reconciler.ts: one round over the records that have stood still. The times of
-- the last writes are kept by the client of the database.
use you_fen.Base.{
  ℕ, ◌+◌, Bool, true, false, ◌&&◌, Option, none, some, List, [], ◌∷◌, map, ltb, select,
  if◌then◌else◌,
}
use you_fen.Engine.Tables.{
  LastError, VerificationStatus, submitting, confirming, verified, PublicRecordRow, RecordStatus,
  verification,
}
use you_fen.Engine.Db.{Db, gets}
use you_fen.Chain.Records.{RecordPatch, empty_patch, has_status_in, transition, patch_in_status}
use you_fen.Jobs.{Job, Port, Others, pure, call, statement, try_or, ◌>>=◌, ◌>>◌}
use you_fen.Jobs.Submit.{FoundTx}
use you_fen.Jobs.Confirm.{reverted_patch}

pub data TxStatus : Type 0 where
  pending confirmed reverted not_found : TxStatus

pub record ReconcilerDeps (E : Type 0) : Type 0 where
  pub find_tx_by_record_hash : ℕ → Port E (Option FoundTx)
  pub get_transaction_status : ℕ → Port E TxStatus
  pub read_chain_record : ℕ → Port E Bool
  pub get_latest_nonce : Port E ℕ
  pub enqueue : ℕ → ℕ → Port E Bool
  pub updated_at : E → PublicRecordRow → ℕ
  pub stale_threshold_ms : ℕ
  pub hard_timeout_ms : ℕ
  pub pending_stale_ms : ℕ
  pub others : Others E

-- `RecRow`: a row as it was scanned.
pub record RecRow : Type 0 where
  pub row : PublicRecordRow
  pub updated_at : ℕ

pub data RowOutcome : Type 0 where
  recovered requeued failed untouched : RowOutcome

pub record ReconcileReport : Type 0 where
  pub scanned : ℕ
  pub recovered : ℕ
  pub requeued : ℕ
  pub failed : ℕ
  pub untouched : ℕ

abbrev pub empty_report : ReconcileReport
empty_report = record { scanned = 0; recovered = 0; requeued = 0; failed = 0; untouched = 0 }

-- One more row, with its outcome.
abbrev pub bump : RowOutcome → ReconcileReport → ReconcileReport
bump RowOutcome.recovered r = record r { scanned = r.scanned + 1; recovered = r.recovered + 1 }
bump RowOutcome.requeued r = record r { scanned = r.scanned + 1; requeued = r.requeued + 1 }
bump RowOutcome.failed r = record r { scanned = r.scanned + 1; failed = r.failed + 1 }
bump RowOutcome.untouched r = record r { scanned = r.scanned + 1; untouched = r.untouched + 1 }

abbrev pub in_flight_from : List VerificationStatus
in_flight_from = submitting ∷ (confirming ∷ [])

-- Rows that are mirrored on chain, in one of the statuses, and last written so long ago.
abbrev pub is_stale :
    List VerificationStatus → ℕ → ℕ → (PublicRecordRow → ℕ) → PublicRecordRow → Bool
is_stale statuses threshold_ms now updated_at r =
    r.chain_eligible && (has_status_in statuses r.status && ltb (updated_at r + threshold_ms) now)

abbrev pub stale_rows : List VerificationStatus → ℕ → ℕ → (PublicRecordRow → ℕ) → Db → List RecRow
stale_rows statuses threshold_ms now updated_at d =
    map (λ r. record { row = r; updated_at = updated_at r })
      (select (is_stale statuses threshold_ms now updated_at) d.records)

abbrev pub epoch_patch : ℕ → RecordPatch
epoch_patch attempt_epoch = record empty_patch { attempt_epoch = some attempt_epoch }

abbrev pub timeout_patch : RecordPatch
timeout_patch = record empty_patch { last_error = some LastError.reconcile_hard_timeout }

abbrev pub recovery_patch : ℕ → Option FoundTx → RecordPatch
recovery_patch now none = record empty_patch { confirmed_at = some now }
recovery_patch now (some found) = record empty_patch {
  tx_hash = some found.tx_hash;
  block_number = some found.block_number;
  confirmed_at = some now;
}

abbrev pub requeued_if : Bool → RowOutcome
requeued_if true = RowOutcome.requeued
requeued_if false = RowOutcome.untouched

module _ {E : Type 0} (deps : ReconcilerDeps E) (now : ℕ) where
  -- `recoverToVerified`
  unfoldable pub recover_to_verified : PublicRecordRow → Job E RowOutcome
  recover_to_verified row = do
    found ← call deps.others (deps.find_tx_by_record_hash row.record_hash)
    statement deps.others (transition row.id in_flight_from verified (recovery_patch now found))
    pure RowOutcome.recovered

  -- Back to `pending`, with a fresh attempt.
  unfoldable pub requeue : PublicRecordRow → Job E RowOutcome
  requeue row = do
    statement deps.others (
        transition row.id in_flight_from VerificationStatus.pending
          (epoch_patch (row.attempt_epoch + 1)))
    queued ← call deps.others (deps.enqueue row.id (row.attempt_epoch + 1))
    pure (requeued_if queued)

  unfoldable pub fail_row : PublicRecordRow → RecordPatch → Job E RowOutcome
  fail_row row patch = do
    statement deps.others (transition row.id in_flight_from VerificationStatus.failed patch)
    pure RowOutcome.failed

  -- Against the number of mined transactions.
  abbrev pub judge_nonce : RecRow → ℕ → ℕ → Job E RowOutcome
  judge_nonce r nonce latest_nonce =
      if ltb nonce latest_nonce
      then requeue r.row
      else if ltb now (r.updated_at + deps.hard_timeout_ms)
      then pure RowOutcome.untouched
      else fail_row r.row timeout_patch

  -- `nonceJudgement`
  abbrev pub nonce_judgement : RecRow → Option ℕ → Job E RowOutcome
  nonce_judgement r none = requeue r.row
  nonce_judgement r (some nonce) = do
    latest_nonce ← call deps.others deps.get_latest_nonce
    judge_nonce r nonce latest_nonce

  abbrev pub recover_if : RecRow → Bool → Job E RowOutcome
  recover_if r true = recover_to_verified r.row
  recover_if r false = nonce_judgement r r.row.assigned_nonce

  -- Step (a): the contract is asked.
  unfoldable pub ask_contract : RecRow → Job E RowOutcome
  ask_contract r = do
    exists ← call deps.others (deps.read_chain_record r.row.record_hash)
    recover_if r exists

  abbrev pub by_tx_status : RecRow → TxStatus → Job E RowOutcome
  by_tx_status r TxStatus.confirmed = recover_to_verified r.row
  by_tx_status r TxStatus.reverted = fail_row r.row reverted_patch
  by_tx_status r TxStatus.pending = pure RowOutcome.untouched
  by_tx_status r TxStatus.not_found = ask_contract r

  -- Step (b), for a confirming row that has a transaction.
  abbrev pub handle_by_status : RecRow → RecordStatus → Option ℕ → Job E RowOutcome
  handle_by_status r (verification confirming) (some tx_hash) = do
    status ← call deps.others (deps.get_transaction_status tx_hash)
    by_tx_status r status
  handle_by_status r _ _ = ask_contract r

  -- `handleInFlight`
  unfoldable pub handle_in_flight : RecRow → Job E RowOutcome
  handle_in_flight r = handle_by_status r r.row.status r.row.tx_hash

  abbrev pub enqueue_if : PublicRecordRow → Bool → Job E RowOutcome
  enqueue_if row false = pure RowOutcome.untouched
  enqueue_if row true = do
    queued ← call deps.others (deps.enqueue row.id (row.attempt_epoch + 1))
    pure (requeued_if queued)

  -- Step (c), for a pending row whose job was lost.
  unfoldable pub handle_pending : RecRow → Job E RowOutcome
  handle_pending r = do
    patched ← statement deps.others (
        patch_in_status r.row.id VerificationStatus.pending (epoch_patch (r.row.attempt_epoch + 1)))
    enqueue_if r.row patched

  -- A loop over rows, in which an error counts as a failed row.
  unfoldable pub each_row :
      (RecRow → Job E RowOutcome) → List RecRow → ReconcileReport → Job E ReconcileReport
  each_row handle [] report = pure report
  each_row handle (r ∷ rows) report = do
    outcome ← try_or (λ e. pure RowOutcome.failed) (handle r) pure
    each_row handle rows (bump outcome report)

  unfoldable pub scan : List VerificationStatus → ℕ → Job E (List RecRow)
  scan statuses threshold_ms w =
      statement deps.others (gets (stale_rows statuses threshold_ms now (deps.updated_at w.env))) w

  -- `reconcileOnce`
  unfoldable pub reconcile_once : Job E ReconcileReport
  reconcile_once = do
    in_flight ← scan in_flight_from deps.stale_threshold_ms
    report ← each_row handle_in_flight in_flight empty_report
    stale_pending ← scan (VerificationStatus.pending ∷ []) deps.pending_stale_ms
    each_row handle_pending stale_pending report
