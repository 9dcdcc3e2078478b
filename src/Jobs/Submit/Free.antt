-- ===== src/Jobs/Submit/Free.antt =====
-- A submit job never leaves its record in the status `submitting`.
pub mod Handler
use you_fen.Base.{
  ℕ, ◌≡◌, ◌≢◌, refl, subst, Bool, true, false, not, ◌&&◌, Option, none, some, List, [], ◌∷◌, ltb,
  length, select, update_all, All,
}
use you_fen.Engine.Tables.{
  ChainError, retryable_error, terminal_error, already_recorded_error, nonce_error,
  chain_unavailable_error, VerificationStatus, pending, submitting, confirming, PublicRecordRow,
}
use you_fen.Engine.Db.{Db}
use you_fen.Chain.Records.{
  RecordPatch, empty_patch, apply_patch, addressed, same_status, can_transition, move, transition,
  patch_in_status,
}
use you_fen.Jobs.Submit.Rows.{
  IsFree, moved-IsFree, unmet-IsFree, unmet-update_all, transition-run, to_pending, to_submitting,
  to_confirming, to_failed,
}
use you_fen.Jobs.{World, Job, Port, Outcome, returned, thrown, call, statement, try_or}
use you_fen.Jobs.Keeps.{
  Triple, Triple-mono, Post, Post-kept, Triple-weaken, Triple-pure, Triple-throw, Triple-try_or,
  Triple-bind, Triple-call, Triple-statement,
}
use you_fen.Jobs.Build.{SubmittableRecord}
use you_fen.Jobs.Build.Keeps.{build_submittable-IsBuilt}
use you_fen.Jobs.Wallet.Keeps.{get_next_nonce-keeps}
use you_fen.Jobs.Submit.{
  SubmitDeps, SubmitOutcome, SubmitResult, FoundTx, AttemptState, error_patch, sent_patch,
  nonce_patch, reset_to_pending, heal_leaked_nonce, recover_with, recover, heal_if, give_back,
  give_up, already_recorded, handle_submit_error, attempt_state, hand_over, broadcast_if, send_with,
  send_unless, attempt, attempt_if, process_submit_job,
}
use you_fen.Jobs.Submit.Free.Handler.{
  moved_out, called, called-Anyhow, heal-Free, recovered, handler,
}

module _ {E : Type 0} (deps : SubmitDeps E) (id : ℕ)
    (others-IsFree : (e : E) (d : Db) → IsFree id d → IsFree id (deps.others e d)) where
  abbrev Anyhow : World E → Type 0
  Anyhow w = Unit {0}

  abbrev Free : World E → Type 0
  Free w = IsFree id w.db

  abbrev FreeWith : {A : Type 0} → A → World E → Type 0
  FreeWith a w = IsFree id w.db

  -- The look-up of a transaction never throws.
  abbrev Answers : Type 0
  Answers = (h : ℕ) (e : E) (x : ChainError) → (deps.find_tx_by_record_hash h e).0 ≢ thrown x

  -- A job that throws has left the record free, if look-ups answer.
  abbrev FreeIf : World E → Type 0
  FreeIf w = Answers → IsFree id w.db

  -- A step of the attempt: whatever it throws goes to the (handler deps id others-IsFree).
  tried :
      {A : Type 0} {Q : A → World E → Type 0} (state : AttemptState) (m : Job E A)
      (next : A → Job E SubmitOutcome)
      → Triple Anyhow m Q Anyhow
      → ((a : A) → Triple (Q a) (next a) FreeWith FreeIf)
      → Triple Anyhow (try_or (handle_submit_error deps id state) m next) FreeWith FreeIf
  tried state m next tm tn = Triple-try_or _ m next tm (handler deps id others-IsFree state) tn

  -- Where a statement has met no row, the record is free.
  abbrev FreeUnless : Bool → World E → Type 0
  FreeUnless true w = Unit {0}
  FreeUnless false w = IsFree id w.db

  met :
      (x : VerificationStatus) (f : PublicRecordRow → PublicRecordRow) (b : Bool) (w : World E)
      (rs : List PublicRecordRow)
      → (ltb 0 (length (select (addressed id (x ∷ [])) rs)) ≡ false
          → All (λ r. addressed id (submitting ∷ []) r ≡ false) rs)
      → ltb 0 (length (select (addressed id (x ∷ [])) rs)) ≡ b
      → FreeUnless b
          (record w { db = record w.db { records = update_all (addressed id (x ∷ [])) f rs } })
  met x f true w rs h e = tt
  met x f false w rs h e = rw (unmet-update_all (addressed id (x ∷ [])) f rs e) (h e)

  patched_nonce :
      (nonce : ℕ)
      → Triple Anyhow
          (statement deps.others (patch_in_status id submitting (nonce_patch nonce)))
          FreeUnless
          Anyhow
  unfolding patch_in_status
  patched_nonce nonce =
      Triple-statement deps.others (patch_in_status id submitting (nonce_patch nonce)) λ w u.
        met submitting (apply_patch (nonce_patch nonce)) _
          (record w { db = deps.others w.env w.db }) (deps.others w.env w.db).records
          (unmet-IsFree id (deps.others w.env w.db).records) refl

  handed_over :
      (s : SubmittableRecord) (result : SubmitResult)
      → Triple Anyhow (hand_over deps id s result) FreeWith FreeIf
  unfolding hand_over
  handed_over s result =
      tried (attempt_state deps (some s) true true) _ _
        (Triple-weaken _ (λ w h. tt)
          (Triple-bind _ _
            (moved_out deps id others-IsFree confirming
              (sent_patch result.tx_hash result.submitted_at) to_confirming refl)
            (λ b. called deps id others-IsFree (deps.enqueue_confirm id result.tx_hash))))
        (λ u. Triple-pure SubmitOutcome.submitted (λ w h. h))

  broadcast :
      (s : SubmittableRecord) (nonce : ℕ) (b : Bool)
      → Triple (FreeUnless b) (broadcast_if deps id s nonce b) FreeWith FreeIf
  broadcast s nonce false =
      Triple-bind _ _ (heal-Free deps id others-IsFree)
        (λ u. Triple-pure SubmitOutcome.skipped (λ w h. h))
  broadcast s nonce true =
      tried (attempt_state deps (some s) true false) _ _
        (called-Anyhow deps id others-IsFree (deps.submit_record s nonce)) (handed_over s)

  sent :
      (s : SubmittableRecord) (b : Bool) → Triple Anyhow (send_unless deps id s b) FreeWith FreeIf
  unfolding send_with
  sent s true =
      tried (attempt_state deps (some s) false false) _ _
        (Triple-weaken _ (λ w h. tt) (recovered deps id others-IsFree s.record_hash))
        (λ o. Triple-pure o (λ w h. h))
  sent s false =
      tried (attempt_state deps (some s) false false) _ _
        (get_next_nonce-keeps Anyhow (λ w o q h. tt) deps.others deps.get_transaction_count
          (called-Anyhow deps id others-IsFree deps.get_transaction_count))
        λ nonce.
          tried (attempt_state deps (some s) true false) _ _ (patched_nonce nonce)
            (broadcast s nonce)

  attempted : Triple Anyhow (attempt deps id) FreeWith FreeIf
  unfolding attempt
  attempted =
      tried (attempt_state deps none false false) _ _
        (Triple-mono _ (λ w h. h) (λ s w h. tt)
          (build_submittable-IsBuilt Anyhow (λ row. Unit {0}) deps.others deps.rebuild id
            (λ w h. tt) (λ w row h e. tt)
            (λ row d. called-Anyhow deps id others-IsFree (deps.rebuild row d))))
        λ s.
          tried (attempt_state deps (some s) false false) _ _
            (called-Anyhow deps id others-IsFree (deps.read_chain_record s.record_hash)) (sent s)

  attempted_if : (b : Bool) → Triple (FreeUnless b) (attempt_if deps id b) FreeWith FreeIf
  attempted_if true = attempted
  attempted_if false = Triple-pure SubmitOutcome.skipped (λ w h. h)

  processed : Triple Free (process_submit_job deps id) FreeWith FreeIf
  unfolding process_submit_job
  processed =
      Triple-bind _ _
        (Triple-statement deps.others (transition id (pending ∷ []) submitting empty_patch) λ w h.
          rw
            (transition-run id pending submitting empty_patch (deps.others w.env w.db)
              to_submitting)
            (met pending (move submitting empty_patch) _ (record w { db = deps.others w.env w.db })
              (deps.others w.env w.db).records (λ e. others-IsFree w.env w.db h) refl))
        attempted_if

module _ {E : Type 0} (deps : SubmitDeps E) (id : ℕ) (w : World E)
    (others-IsFree : (e : E) (d : Db) → IsFree id d → IsFree id (deps.others e d))
    (free : IsFree id w.db) where
  world_after :
      (r : Outcome SubmitOutcome × World E)
      → Post (λ a v. IsFree id v.db) (λ v. Answers deps id others-IsFree → IsFree id v.db) r
      → Answers deps id others-IsFree
      → IsFree id r.1.db
  world_after (returned a, v) h ans = h
  world_after (thrown e, v) h ans = h ans

  -- A submit job never leaves its record in the status `submitting`, whatever the calls answer or throw
  -- and however the job ends: if the record does not have the status before, no other worker puts it
  -- there, and no look-up of a transaction throws, then it does not have it after.
  pub process_submit_job-IsFree :
      ((h : ℕ) (e : E) (x : ChainError) → (deps.find_tx_by_record_hash h e).0 ≢ thrown x)
      → IsFree id (process_submit_job deps id w).1.db
  process_submit_job-IsFree ans =
      world_after (process_submit_job deps id w) ((processed deps id others-IsFree).at w free) ans

  -- A submit job that returns leaves its record outside the status `submitting`, whatever the calls have
  -- thrown, if the record is outside it before and no other worker puts it there.
  pub process_submit_job-returned :
      (o : SubmitOutcome) (v : World E)
      → process_submit_job deps id w ≡ (returned o, v)
      → IsFree id v.db
  process_submit_job-returned o v run =
      subst (Post (λ a v. IsFree id v.db) (λ v. Answers deps id others-IsFree → IsFree id v.db)) run
        ((processed deps id others-IsFree).at w free)
