-- ===== src/Jobs/Submit.antt =====
-- lib/blockchain/queue/submit-worker.ts: the processing of one chain-submit job. What a call throws is
-- taken as classified.
pub mod Rows
pub mod Free
pub mod Nonce
mod Tests
use you_fen.Base.{ℕ, Bool, true, false, not, ◌&&◌, Option, none, some, [], ◌∷◌}
use you_fen.Engine.Tables.{
  ChainError, retryable_error, terminal_error, already_recorded_error, nonce_error,
  chain_unavailable_error, of_error, VerificationStatus, pending, submitting, confirming,
}
use you_fen.Chain.Records.{RecordPatch, empty_patch, transition, patch_in_status}
use you_fen.Jobs.{
  returned, World, Job, Port, Others, pure, throw, call, statement, try_or, ◌>>=◌, ◌>>◌,
}
use you_fen.Jobs.Build.{SubmittableRecord, Rebuild, build_submittable}
use you_fen.Jobs.Wallet.{resync_nonce, get_next_nonce}

pub data SubmitOutcome : Type 0 where
  submitted recovered skipped failed : SubmitOutcome

pub record SubmitResult : Type 0 where
  pub tx_hash : ℕ
  pub submitted_at : ℕ

pub record FoundTx : Type 0 where
  pub tx_hash : ℕ
  pub block_number : ℕ

-- `SubmitDeps`, with the provider of the wallet; `rebuild` is what building a submittable is given.
pub record SubmitDeps (E : Type 0) : Type 0 where
  pub rebuild : Rebuild E
  pub read_chain_record : ℕ → Port E Bool
  pub find_tx_by_record_hash : ℕ → Port E (Option FoundTx)
  pub get_transaction_count : Port E ℕ
  pub submit_record : SubmittableRecord → ℕ → Port E SubmitResult
  pub enqueue_confirm : ℕ → ℕ → Port E Unit
  pub discard : E → E
  pub now : E → ℕ
  pub others : Others E

-- The error handler knows how far the attempt has come.
pub record AttemptState : Type 0 where
  pub submittable : Option SubmittableRecord
  pub nonce_consumed : Bool
  pub broadcast : Bool

abbrev pub error_patch : ChainError → RecordPatch
error_patch e = record empty_patch { last_error = some (of_error e) }

abbrev pub sent_patch : ℕ → ℕ → RecordPatch
sent_patch tx_hash submitted_at = record empty_patch {
  tx_hash = some tx_hash;
  submitted_at = some submitted_at;
}

abbrev pub nonce_patch : ℕ → RecordPatch
nonce_patch nonce = record empty_patch { assigned_nonce = some nonce }

module _ {E : Type 0} (deps : SubmitDeps E) where
  -- `resetToPending`: an error of its own is swallowed.
  unfoldable pub reset_to_pending : ℕ → ChainError → Job E Unit
  reset_to_pending record_id e =
      try_or (λ _. pure tt)
        (statement deps.others (transition record_id (submitting ∷ []) pending (error_patch e)))
        (λ _. pure tt)

  -- `healLeakedNonce`: an error is swallowed.
  unfoldable pub heal_leaked_nonce : Job E Unit
  heal_leaked_nonce =
      try_or (λ _. pure tt) (resync_nonce deps.others deps.get_transaction_count) pure

  -- What `recover` does with the transaction that it has looked up.
  abbrev pub recover_with : ℕ → Option FoundTx → Job E SubmitOutcome
  recover_with record_id none = do reset_to_pending record_id retryable_error; throw retryable_error
  recover_with record_id (some found) = do
    λ w.
        statement deps.others
          (transition record_id (submitting ∷ []) confirming
            (sent_patch found.tx_hash (deps.now w.env)))
          w
    call deps.others (deps.enqueue_confirm record_id found.tx_hash)
    pure SubmitOutcome.recovered

  unfoldable pub recover : ℕ → ℕ → Job E SubmitOutcome
  recover record_id record_hash = do
    found ← call deps.others (deps.find_tx_by_record_hash record_hash)
    recover_with record_id found

  -- `healLeakedNonce`, under a condition.
  abbrev pub heal_if : Bool → Job E Unit
  heal_if true = heal_leaked_nonce
  heal_if false = pure tt

  -- The reset and the throw that end a handler.
  abbrev pub give_back : ℕ → ChainError → Job E SubmitOutcome
  give_back record_id e = do reset_to_pending record_id e; throw e

  -- A terminal error fails the record, and its job is not tried again.
  abbrev pub give_up : ℕ → Job E SubmitOutcome
  give_up record_id = do
    statement deps.others (
        transition record_id (submitting ∷ []) VerificationStatus.failed
          (error_patch terminal_error))
    λ w. (returned SubmitOutcome.failed, record w { env = deps.discard w.env })

  abbrev pub already_recorded : ℕ → Option SubmittableRecord → Job E SubmitOutcome
  already_recorded record_id (some s) = recover record_id s.record_hash
  already_recorded record_id none = give_back record_id already_recorded_error

  -- `handleSubmitError`, by the class of the error.
  unfoldable pub handle_submit_error : ℕ → AttemptState → ChainError → Job E SubmitOutcome
  handle_submit_error record_id state nonce_error = do
    heal_leaked_nonce
    give_back record_id nonce_error
  handle_submit_error record_id state already_recorded_error = do
    heal_if (state.nonce_consumed && not state.broadcast)
    already_recorded record_id state.submittable
  handle_submit_error record_id state terminal_error = do
    heal_if (state.nonce_consumed && not state.broadcast)
    give_up record_id
  handle_submit_error record_id state retryable_error = do
    heal_if (state.nonce_consumed && not state.broadcast)
    give_back record_id retryable_error
  handle_submit_error record_id state chain_unavailable_error = do
    heal_if (state.nonce_consumed && not state.broadcast)
    give_back record_id chain_unavailable_error

  abbrev pub attempt_state : Option SubmittableRecord → Bool → Bool → AttemptState
  attempt_state submittable nonce_consumed broadcast = record {
    submittable = submittable;
    nonce_consumed = nonce_consumed;
    broadcast = broadcast;
  }

  -- After `submitRecord` has returned.
  unfoldable pub hand_over : ℕ → SubmittableRecord → SubmitResult → Job E SubmitOutcome
  hand_over record_id s result =
      try_or (handle_submit_error record_id (attempt_state (some s) true true))
        (statement deps.others (
            transition record_id (submitting ∷ []) confirming
              (sent_patch result.tx_hash result.submitted_at))
          >> call deps.others (deps.enqueue_confirm record_id result.tx_hash))
        (λ _. pure SubmitOutcome.submitted)

  -- With the nonce written to the row, or not.
  abbrev pub broadcast_if : ℕ → SubmittableRecord → ℕ → Bool → Job E SubmitOutcome
  broadcast_if record_id s nonce false = heal_leaked_nonce >> pure SubmitOutcome.skipped
  broadcast_if record_id s nonce true =
      try_or (handle_submit_error record_id (attempt_state (some s) true false))
        (call deps.others (deps.submit_record s nonce)) (hand_over record_id s)

  unfoldable pub send_with : ℕ → SubmittableRecord → ℕ → Job E SubmitOutcome
  send_with record_id s nonce =
      try_or (handle_submit_error record_id (attempt_state (some s) true false))
        (statement deps.others (patch_in_status record_id submitting (nonce_patch nonce)))
        (broadcast_if record_id s nonce)

  -- After the look at the chain.
  abbrev pub send_unless : ℕ → SubmittableRecord → Bool → Job E SubmitOutcome
  send_unless record_id s true =
      try_or (handle_submit_error record_id (attempt_state (some s) false false))
        (recover record_id s.record_hash) pure
  send_unless record_id s false =
      try_or (handle_submit_error record_id (attempt_state (some s) false false))
        (get_next_nonce deps.others deps.get_transaction_count) (send_with record_id s)

  unfoldable pub attempt : ℕ → Job E SubmitOutcome
  attempt record_id =
      try_or (handle_submit_error record_id (attempt_state none false false))
        (build_submittable deps.others deps.rebuild record_id)
        λ s.
          try_or (handle_submit_error record_id (attempt_state (some s) false false))
            (call deps.others (deps.read_chain_record s.record_hash)) (send_unless record_id s)

  abbrev pub attempt_if : ℕ → Bool → Job E SubmitOutcome
  attempt_if record_id false = pure SubmitOutcome.skipped
  attempt_if record_id true = attempt record_id

  -- `processSubmitJob`
  unfoldable pub process_submit_job : ℕ → Job E SubmitOutcome
  process_submit_job record_id = do
    claimed ← statement deps.others (transition record_id (pending ∷ []) submitting empty_patch)
    attempt_if record_id claimed
