-- ===== src/Jobs/Confirm.antt =====
-- lib/blockchain/queue/confirm-worker.ts: the processing of one chain-confirm job.
use you_fen.Base.{ℕ, Bool, true, false, Option, none, some, [], ◌∷◌}
use you_fen.Engine.Tables.{
  retryable_error, LastError, VerificationStatus, confirming, PublicRecordRow,
}
use you_fen.Chain.Records.{RecordPatch, empty_patch, transition, get_by_id}
use you_fen.Jobs.{Job, Port, Others, pure, throw, call, statement, ◌>>=◌, ◌>>◌}

pub data ConfirmOutcome : Type 0 where
  verified reverted skipped : ConfirmOutcome

pub data ReceiptStatus : Type 0 where
  confirmed reverted : ReceiptStatus

-- `ConfirmResult` of lib/blockchain/types.ts
pub record ConfirmResult : Type 0 where
  pub status : ReceiptStatus
  pub block_number : ℕ
  pub block_hash : ℕ
  pub confirmed_at : ℕ

-- `wait_for_confirmation` takes the transaction and the hash of the record; the number of
-- confirmations is the port's own.
pub record ConfirmDeps (E : Type 0) : Type 0 where
  pub wait_for_confirmation : ℕ → ℕ → Port E ConfirmResult
  pub read_chain_record : ℕ → Port E Bool
  pub others : Others E

abbrev pub reverted_patch : RecordPatch
reverted_patch = record empty_patch { last_error = some LastError.reverted }

abbrev pub confirmed_patch : ConfirmResult → RecordPatch
confirmed_patch result = record empty_patch {
  block_number = some result.block_number;
  block_hash = some result.block_hash;
  confirmed_at = some result.confirmed_at;
}

module _ {E : Type 0} (deps : ConfirmDeps E) where
  -- What follows the second look at the chain.
  abbrev pub verify_if : ℕ → ConfirmResult → Bool → Job E ConfirmOutcome
  verify_if record_id result false = throw retryable_error
  verify_if record_id result true = do
    statement deps.others (
        transition record_id (confirming ∷ []) VerificationStatus.verified (confirmed_patch result))
    pure ConfirmOutcome.verified

  abbrev pub confirm_settle : ℕ → ℕ → ConfirmResult → ReceiptStatus → Job E ConfirmOutcome
  confirm_settle record_id record_hash result ReceiptStatus.reverted = do
    statement deps.others
        (transition record_id (confirming ∷ []) VerificationStatus.failed reverted_patch)
    pure ConfirmOutcome.reverted
  confirm_settle record_id record_hash result ReceiptStatus.confirmed = do
    exists ← call deps.others (deps.read_chain_record record_hash)
    verify_if record_id result exists

  abbrev pub confirm_row : ℕ → ℕ → Option PublicRecordRow → Job E ConfirmOutcome
  confirm_row record_id tx_hash none = pure ConfirmOutcome.skipped
  confirm_row record_id tx_hash (some row) = do
    result ← call deps.others (deps.wait_for_confirmation tx_hash row.record_hash)
    confirm_settle record_id row.record_hash result result.status

  -- `processConfirmJob`
  unfoldable pub process_confirm_job : ℕ → ℕ → Job E ConfirmOutcome
  process_confirm_job record_id tx_hash = do
    row ← statement deps.others (get_by_id record_id)
    confirm_row record_id tx_hash row
