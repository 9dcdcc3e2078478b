-- ===== src/Jobs/Backed/Submit.antt =====
-- Submit jobs keep every verified record on the chain.
pub mod Handler
use you_fen.Base.{
  ℕ, ◌≡◌, ◌∙◌, ◌==◌, find, Bool, true, false, not, ◌&&◌, Option, none, some, List, [], ◌∷◌,
}
use you_fen.Engine.Tables.{
  ChainError, retryable_error, terminal_error, already_recorded_error, nonce_error,
  chain_unavailable_error, VerificationStatus, pending, submitting, confirming, failed, verified,
  PublicRecordRow,
}
use you_fen.Engine.Db.{Db}
use you_fen.Chain.Records.{RecordPatch, empty_patch, transition}
use you_fen.Jobs.{World, Port, returned, call, statement, try_or}
use you_fen.Jobs.Keeps.{
  Triple, Post, Triple-pure, Triple-throw, Triple-try_or, Triple-bind, Triple-given,
}
use you_fen.Jobs.Build.{SubmittableRecord, build_submittable}
use you_fen.Jobs.Build.Keeps.{build_submittable-IsBuilt}
use you_fen.Jobs.Wallet.Keeps.{get_next_nonce-keeps}
use you_fen.Jobs.Submit.{
  SubmitDeps, SubmitOutcome, SubmitResult, FoundTx, AttemptState, error_patch, sent_patch,
  nonce_patch, reset_to_pending, heal_leaked_nonce, recover_with, recover, heal_if, give_back,
  give_up, already_recorded, handle_submit_error, attempt_state, hand_over, broadcast_if, send_with,
  send_unless, attempt, attempt_if, process_submit_job,
}
use you_fen.Jobs.Backed.{
  ChainView, Grows, KeepsBacked, BackedAnd, Nothing, All-later, called, transition-Backed,
  patch_in_status-Backed, loaded_hash,
}
use you_fen.Jobs.Backed.Submit.Handler.{
  SubmitLaws, plainly, moved, healed, sent_ties, recovered, handler,
}

module _ {E : Type 0} (deps : SubmitDeps E) (v : ChainView E) (laws : SubmitLaws deps v) where
  open laws use {
    keeps, grows_rebuild, grows_read, grows_find, grows_count, grows_submit, grows_enqueue,
    grows_discard, tells_find, tells_submit,
  }

  abbrev Plain : World E → Type 0
  Plain = BackedAnd v (Nothing v)

  abbrev PlainWith : {A : Type 0} → A → World E → Type 0
  PlainWith a = BackedAnd v (Nothing v)

  module _ (id : ℕ) (s : SubmittableRecord) (same : s.record_hash ≡ v.hash_of id) where
    handed_over :
        (r : SubmitResult)
        → v.writes r.tx_hash s.record_hash ≡ true
        → Triple Plain (hand_over deps id s r) PlainWith Plain
    unfolding hand_over
    handed_over r ties =
        Triple-try_or _ _ _
          (Triple-bind _ _
            (moved deps v laws id (submitting ∷ []) confirming (sent_patch r.tx_hash r.submitted_at)
              (sent_ties deps v laws id r.tx_hash r.submitted_at (rw (← same) ties)) (λ k. cc))
            (λ b.
              plainly deps v laws (deps.enqueue_confirm id r.tx_hash) (grows_enqueue id r.tx_hash)))
          (handler deps v laws id (attempt_state deps (some s) true true) same)
          (λ u. Triple-pure SubmitOutcome.submitted (λ w h. h))

    broadcast : (n : ℕ) (b : Bool) → Triple Plain (broadcast_if deps id s n b) PlainWith Plain
    broadcast n false =
        Triple-bind _ _ (healed deps v laws) (λ u. Triple-pure SubmitOutcome.skipped (λ w h. h))
    broadcast n true =
        Triple-try_or _ _ _
          (called v deps.others keeps {F = Nothing v}
            (λ r e. v.writes r.tx_hash s.record_hash ≡ true) (deps.submit_record s n)
            (grows_submit s n) (λ r e u k. tells_submit s n e r k))
          (handler deps v laws id (attempt_state deps (some s) true false) same)
          (λ r. Triple-given _ λ w0 k0. record { at = λ w k. (handed_over r k0.1).at w (k.0, tt) })

    sent : (b : Bool) → Triple Plain (send_unless deps id s b) PlainWith Plain
    unfolding send_with
    sent true =
        Triple-try_or _ _ _ (recovered deps v laws id s.record_hash same)
          (handler deps v laws id (attempt_state deps (some s) false false) same)
          (λ o. Triple-pure o (λ w h. h))
    sent false =
        Triple-try_or _ _ _
          (get_next_nonce-keeps Plain (λ w o q h. h) deps.others deps.get_transaction_count
            (plainly deps v laws deps.get_transaction_count grows_count))
          (handler deps v laws id (attempt_state deps (some s) false false) same)
          λ n.
            Triple-try_or _ _ _
              (patch_in_status-Backed v deps.others keeps (Nothing v) id submitting (nonce_patch n)
                (λ t e. cc))
              (handler deps v laws id (attempt_state deps (some s) true false) same) (broadcast n)

    looked_at :
        Triple Plain
          (try_or
            (handle_submit_error deps id (attempt_state deps (some s) false false))
            (call deps.others (deps.read_chain_record s.record_hash))
            (send_unless deps id s))
          PlainWith
          Plain
    looked_at =
        Triple-try_or _ _ _
          (plainly deps v laws (deps.read_chain_record s.record_hash) (grows_read s.record_hash))
          (handler deps v laws id (attempt_state deps (some s) false false) same) sent

  -- The row that is loaded has the hash that the record was created with, and so has what is sent.
  abbrev HasHash : ℕ → PublicRecordRow → Type 0
  HasHash id row = row.record_hash ≡ v.hash_of id

  abbrev BuiltFor : ℕ → SubmittableRecord → Type 0
  BuiltFor id s = (row : PublicRecordRow) × HasHash id row × (s.record_hash ≡ row.record_hash)

  known :
      (id : ℕ) (w : World E) (row : PublicRecordRow)
      → Plain w
      → find (λ r. r.id == id) w.db.records ≡ some row
      → HasHash id row
  known id w row h e = loaded_hash v id w.env w.db.records row h.0 e

  built :
      (id : ℕ)
      → Triple Plain
          (build_submittable deps.others deps.rebuild id)
          (λ s w. Plain w × BuiltFor id s)
          Plain
  built id =
      build_submittable-IsBuilt Plain (HasHash id) deps.others deps.rebuild id
        (λ w h. (keeps w.env w.db h.0, tt)) (known id)
        (λ row d. plainly deps v laws (deps.rebuild row d) (grows_rebuild row d))

  attempted : (id : ℕ) → Triple Plain (attempt deps id) PlainWith Plain
  unfolding attempt
  attempted id =
      Triple-try_or _ _ _ (built id)
        (handler deps v laws id (attempt_state deps none false false) tt)
        λ s. Triple-given _ λ w0 k0.
          let (row, same, e) = k0.1 in record { at = λ w k. (looked_at id s (e ∙ same)).at w k.0 }

  attempted_if : (id : ℕ) (b : Bool) → Triple Plain (attempt_if deps id b) PlainWith Plain
  attempted_if id true = attempted id
  attempted_if id false = Triple-pure SubmitOutcome.skipped (λ w h. h)

  pub submitted_job : (id : ℕ) → Triple Plain (process_submit_job deps id) PlainWith Plain
  unfolding process_submit_job
  submitted_job id =
      Triple-bind _ _
        (moved deps v laws id (pending ∷ []) submitting empty_patch (λ t k. cc) (λ k. cc))
        (attempted_if id)
