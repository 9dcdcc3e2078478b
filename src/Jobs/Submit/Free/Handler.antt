-- ===== src/Jobs/Submit/Free/Handler.antt =====
-- The error handler of a submit job frees the record.
use you_fen.Base.{ℕ, ◌≡◌, ◌≢◌, refl, Bool, true, false, not, ◌&&◌, Option, none, some, [], ◌∷◌}
use you_fen.Engine.Tables.{
  ChainError, retryable_error, terminal_error, already_recorded_error, nonce_error,
  chain_unavailable_error, VerificationStatus, pending, submitting, confirming,
}
use you_fen.Engine.Db.{Db}
use you_fen.Chain.Records.{RecordPatch, same_status, can_transition, transition}
use you_fen.Jobs.Submit.Rows.{
  IsFree, moved-IsFree, transition-run, to_pending, to_confirming, to_failed,
}
use you_fen.Jobs.{World, Job, Port, Outcome, returned, thrown, call, statement}
use you_fen.Jobs.Keeps.{
  Triple, Post, Post-kept, Triple-weaken, Triple-pure, Triple-throw, Triple-try_or, Triple-bind,
  Triple-call, Triple-statement,
}
use you_fen.Jobs.Build.{SubmittableRecord}
use you_fen.Jobs.Wallet.Keeps.{IgnoresWallet, resync_nonce-keeps}
use you_fen.Jobs.Submit.{
  SubmitDeps, SubmitOutcome, FoundTx, AttemptState, error_patch, sent_patch, reset_to_pending,
  heal_leaked_nonce, recover_with, recover, heal_if, give_back, give_up, already_recorded,
  handle_submit_error,
}

module _ {E : Type 0} (deps : SubmitDeps E) (id : ℕ)
    (others-IsFree : (e : E) (d : Db) → IsFree id d → IsFree id (deps.others e d)) where
  abbrev Anyhow : World E → Type 0
  Anyhow w = Unit {0}

  abbrev Free : World E → Type 0
  Free w = IsFree id w.db

  abbrev FreeWith : {A : Type 0} → A → World E → Type 0
  FreeWith a w = IsFree id w.db

  -- The look-up of a transaction never throws.
  abbrev Answers : Type 0
  Answers = (h : ℕ) (e : E) (x : ChainError) → (deps.find_tx_by_record_hash h e).0 ≢ thrown x

  -- A job that throws has left the record free, if look-ups answer.
  abbrev FreeIf : World E → Type 0
  FreeIf w = Answers → IsFree id w.db

  pub moved_out :
      {R : World E → Type 0} (to : VerificationStatus) (patch : RecordPatch)
      → can_transition submitting to ≡ true
      → same_status to submitting ≡ false
      → Triple Anyhow (statement deps.others (transition id (submitting ∷ []) to patch)) FreeWith R
  moved_out to patch edge ne =
      Triple-statement deps.others (transition id (submitting ∷ []) to patch) λ w u.
        rw (transition-run id submitting to patch (deps.others w.env w.db) edge)
          (moved-IsFree id to patch (deps.others w.env w.db).records ne)

  -- A call of what lies outside.
  pub called : {A : Type 0} (port : Port E A) → Triple Free (call deps.others port) FreeWith Free
  called port =
      Triple-call deps.others port
        (λ w h. Post-kept Free (port w.env).0 _ (others-IsFree (port w.env).1 w.db h))

  pub called-Anyhow :
      {A : Type 0} (port : Port E A) → Triple Anyhow (call deps.others port) (λ a. Anyhow) Anyhow
  called-Anyhow port = Triple-call deps.others port (λ w h. Post-kept Anyhow (port w.env).0 _ tt)

  reset :
      {R : World E → Type 0} (e : ChainError)
      → Triple Anyhow (reset_to_pending deps id e) FreeWith R
  unfolding reset_to_pending
  reset e =
      Triple-try_or _ _ _ (moved_out {R = Free} pending (error_patch e) to_pending refl)
        (λ x. Triple-pure tt (λ w h. h)) (λ b. Triple-pure tt (λ w h. h))

  -- A heal touches no row; `P` is `Anyhow` or `Free`.
  module _ (P : World E → Type 0)
      (kept : Triple P (call deps.others deps.get_transaction_count) (λ a. P) P)
      (ignores : IgnoresWallet P) where
    heal : {R : World E → Type 0} → Triple P (heal_leaked_nonce deps) (λ u. P) R
    unfolding heal_leaked_nonce
    heal =
        Triple-try_or _ _ _
          (resync_nonce-keeps P ignores deps.others deps.get_transaction_count kept)
          (λ x. Triple-pure tt (λ w h. h)) (λ b. Triple-pure b (λ w h. h))

  heal-Anyhow : {R : World E → Type 0} → Triple Anyhow (heal_leaked_nonce deps) (λ u. Anyhow) R
  heal-Anyhow = heal Anyhow (called-Anyhow deps.get_transaction_count) (λ w o q h. h)

  pub heal-Free : {R : World E → Type 0} → Triple Free (heal_leaked_nonce deps) (λ u. Free) R
  heal-Free = heal Free (called deps.get_transaction_count) (λ w o q h. h)

  heal_if-Anyhow :
      {R : World E → Type 0} (b : Bool) → Triple Anyhow (heal_if deps b) (λ u. Anyhow) R
  heal_if-Anyhow true = heal-Anyhow
  heal_if-Anyhow false = Triple-pure tt (λ w h. h)

  -- What throws with the record free.
  freely :
      {A : Type 0} {P : World E → Type 0} {Q : A → World E → Type 0} (m : Job E A)
      → Triple P m Q Free
      → Triple P m Q FreeIf
  freely m t = Triple-weaken m (λ w h ans. h) t

  given_back : (e : ChainError) → Triple Anyhow (give_back deps id e) FreeWith FreeIf
  given_back e = Triple-bind _ _ (reset e) (λ u. Triple-throw e (λ w h ans. h))

  given_up : {R : World E → Type 0} → Triple Anyhow (give_up deps id) FreeWith R
  given_up =
      Triple-bind _ _
        (moved_out VerificationStatus.failed (error_patch terminal_error) to_failed refl)
        (λ b. record { at = λ w h. h })

  recovered_with :
      (found : Option FoundTx) → Triple Anyhow (recover_with deps id found) FreeWith FreeIf
  recovered_with none =
      Triple-bind _ _ (reset retryable_error) (λ u. Triple-throw retryable_error (λ w h ans. h))
  recovered_with (some found) =
      Triple-bind _ _
        (record {
          at = λ w h.
              (moved_out confirming (sent_patch found.tx_hash (deps.now w.env)) to_confirming
                  refl).at
                w h;
        })
        (λ b.
          Triple-bind _ _ (freely _ (called (deps.enqueue_confirm id found.tx_hash)))
            (λ u. Triple-pure SubmitOutcome.recovered (λ w h. h)))

  looked_up :
      (h : ℕ) (w v : World E) (o : Outcome (Option FoundTx))
      → (deps.find_tx_by_record_hash h w.env).0 ≡ o
      → Post (λ a. Anyhow) FreeIf (o, v)
  looked_up h w v (returned a) e = tt
  looked_up h w v (thrown x) e = λ ans. absurd (ans h w.env x e)

  pub recovered : (h : ℕ) → Triple Anyhow (recover deps id h) FreeWith FreeIf
  unfolding recover
  recovered h =
      Triple-bind _ _
        (Triple-call deps.others (deps.find_tx_by_record_hash h) (λ w u. looked_up h w _ _ refl))
        recovered_with

  recovered_already :
      (s : Option SubmittableRecord) → Triple Anyhow (already_recorded deps id s) FreeWith FreeIf
  recovered_already (some s) = recovered s.record_hash
  recovered_already none = given_back already_recorded_error

  -- The handler frees the record, from wherever the attempt has come.
  pub handler :
      (state : AttemptState) (e : ChainError)
      → Triple Anyhow (handle_submit_error deps id state e) FreeWith FreeIf
  unfolding handle_submit_error
  handler state nonce_error = Triple-bind _ _ heal-Anyhow (λ u. given_back nonce_error)
  handler state already_recorded_error =
      Triple-bind _ _ (heal_if-Anyhow (state.nonce_consumed && not state.broadcast))
        (λ u. recovered_already state.submittable)
  handler state terminal_error =
      Triple-bind _ _ (heal_if-Anyhow (state.nonce_consumed && not state.broadcast)) (λ u. given_up)
  handler state retryable_error =
      Triple-bind _ _ (heal_if-Anyhow (state.nonce_consumed && not state.broadcast))
        (λ u. given_back retryable_error)
  handler state chain_unavailable_error =
      Triple-bind _ _ (heal_if-Anyhow (state.nonce_consumed && not state.broadcast))
        (λ u. given_back chain_unavailable_error)
