-- ===== src/Jobs/Submit/Nonce/Handler.antt =====
-- The error handler of a submit job heals a nonce that was handed out and not spent.
use you_fen.Base.{
  refl, sym, ◌⊎◌, inl, inr, ◌==◌, ==_iff, ℕ, ◌≡◌, [], ◌∷◌, Bool, true, false, not, ◌&&◌, Option,
  none, some,
}
use you_fen.Engine.Errors.{Result, ok, err}
use you_fen.Engine.Tables.{
  ChainError, retryable_error, terminal_error, already_recorded_error, nonce_error,
  chain_unavailable_error, submitting, confirming,
}
use you_fen.Engine.Db.{Db, Tx}
use you_fen.Chain.Records.{transition}
use you_fen.Jobs.{World, Port, Outcome, returned, thrown, call, statement, committed}
use you_fen.Jobs.Keeps.{
  Triple, Post, Post-kept, Triple-pure, Triple-throw, Triple-try_or, Triple-bind, Triple-call,
  Triple-statement,
}
use you_fen.Jobs.Build.{SubmittableRecord}
use you_fen.Jobs.Wallet.{set_nonce, resync_nonce}
use you_fen.Jobs.Submit.{
  SubmitDeps, SubmitOutcome, FoundTx, AttemptState, sent_patch, reset_to_pending, heal_leaked_nonce,
  recover_with, recover, heal_if, give_back, give_up, already_recorded, handle_submit_error,
}
use you_fen.Jobs.Submit.Nonce.Laws.{IsQuiet, CountLaws, IsSynced}

module _ {E : Type 0} (deps : SubmitDeps E) (count : E → ℕ) (missed : E → Bool)
    (laws : CountLaws deps count missed) where
  open laws use {answers, misses, quiet-count, quiet-find, quiet-enqueue, quiet-discard}

  abbrev Anyhow : World E → Type 0
  Anyhow w = Unit {0}

  abbrev Synced : World E → Type 0
  Synced w = IsSynced w.local_nonce (count w.env) ⊎ (missed w.env ≡ true)

  abbrev Missed : World E → Type 0
  Missed w = missed w.env ≡ true

  abbrev SyncedWith : {A : Type 0} → A → World E → Type 0
  SyncedWith a w = IsSynced w.local_nonce (count w.env) ⊎ (missed w.env ≡ true)

  kept_by :
      (f : E → E) (o : Option ℕ) (e : E)
      → IsQuiet count missed f
      → IsSynced o (count e) ⊎ (missed e ≡ true)
      → IsSynced o (count (f e)) ⊎ (missed (f e) ≡ true)
  kept_by f o e quiet (inl h) = inl (rw (quiet e).0 h)
  kept_by f o e quiet (inr h) = inr ((quiet e).1 h)

  -- A call that leaves the count alone.
  pub called :
      {A : Type 0} (port : Port E A)
      → IsQuiet count missed (λ e. (port e).1)
      → Triple Synced (call deps.others port) SyncedWith Synced
  called port quiet = Triple-call deps.others port λ w h.
      Post-kept Synced (port w.env).0
        (record w { db = deps.others (port w.env).1 w.db; env = (port w.env).1 })
        (kept_by (λ e. (port e).1) w.local_nonce w.env quiet h)

  module _ (P : Option ℕ → E → Type 0) where
    committed_kept :
        {A : Type 0} (w : World E) (r : Result (A × Db))
        → P w.local_nonce w.env
        → Post (λ a v. P v.local_nonce v.env) (λ v. P v.local_nonce v.env) (committed w r)
    committed_kept w (ok (a, d)) h = h
    committed_kept w (err f) h = h

    -- A statement touches neither the counter nor the chain.
    pub stated :
        {A : Type 0} (m : Tx A)
        → Triple
            (λ w. P w.local_nonce w.env)
            (statement deps.others m)
            (λ a w. P w.local_nonce w.env)
            (λ w. P w.local_nonce w.env)
    stated m = Triple-statement deps.others m λ w h.
        committed_kept (record w { db = deps.others w.env w.db }) (m (deps.others w.env w.db)) h

  pub stated_synced :
      {A : Type 0} (m : Tx A) → Triple Synced (statement deps.others m) SyncedWith Synced
  stated_synced m = stated (λ o e. IsSynced o (count e) ⊎ (missed e ≡ true)) m

  -- The number of the resync is still the latest, and the node has answered.
  abbrev Counted : ℕ → ℕ → World E → Type 0
  Counted seq n w = (n ≡ count w.env) × (w.resync_seq ≡ seq)

  counted :
      (seq : ℕ) (e : E) (v : World E) (o : Outcome ℕ)
      → (deps.get_transaction_count e).0 ≡ o
      → v.env ≡ (deps.get_transaction_count e).1
      → v.resync_seq ≡ seq
      → Post (Counted seq) Missed (o, v)
  counted seq e v (returned n) h k same = (rw (k, (quiet-count e).0) (answers e n h), same)
  counted seq e v (thrown x) h k same = rw k (misses e x h)

  adopted : (seq n : ℕ) (w : World E) → Counted seq n w → Synced (set_nonce seq n w).1
  adopted seq n w h =
      let same : (seq == w.resync_seq) ≡ true = (==_iff seq w.resync_seq).1 (sym h.1) in
      rw same (inl h.0)

  resynced :
      Triple Anyhow (resync_nonce deps.others deps.get_transaction_count) (λ u. Synced) Missed
  unfolding resync_nonce
  resynced =
      Triple-bind {Q = λ seq w. w.resync_seq ≡ seq} _ _ (record { at = λ w h. refl })
        λ seq.
          Triple-bind {Q = Counted seq} _ (set_nonce seq)
            (Triple-call deps.others deps.get_transaction_count
              λ w same. counted seq w.env _ (deps.get_transaction_count w.env).0 refl refl same)
            λ n. record { at = λ w h. adopted seq n w h }

  pub healed : {R : World E → Type 0} → Triple Anyhow (heal_leaked_nonce deps) SyncedWith R
  unfolding heal_leaked_nonce
  healed =
      Triple-try_or _ _ _ resynced (λ x. Triple-pure tt (λ w h. inr h))
        (λ b. Triple-pure b (λ w h. h))

  reset :
      {R : World E → Type 0} (id : ℕ) (e : ChainError)
      → Triple Synced (reset_to_pending deps id e) SyncedWith R
  unfolding reset_to_pending
  reset id e =
      Triple-try_or _ _ _ (stated_synced _) (λ x. Triple-pure tt (λ w h. h))
        (λ b. Triple-pure tt (λ w h. h))

  -- What holds before a heal: nothing, where there is one.
  abbrev Before : Bool → World E → Type 0
  Before true w = Unit {0}
  Before false w = IsSynced w.local_nonce (count w.env) ⊎ (missed w.env ≡ true)

  healed_if : (b : Bool) → Triple (Before b) (heal_if deps b) SyncedWith Synced
  healed_if true = healed
  healed_if false = Triple-pure tt (λ w h. h)

  given_back : (id : ℕ) (e : ChainError) → Triple Synced (give_back deps id e) SyncedWith Synced
  given_back id e = Triple-bind _ _ (reset id e) (λ u. Triple-throw e (λ w h. h))

  given_up : (id : ℕ) → Triple Synced (give_up deps id) SyncedWith Synced
  given_up id =
      Triple-bind _ _ (stated_synced _)
        (λ b. record { at = λ w h. kept_by deps.discard w.local_nonce w.env quiet-discard h })

  recovered_with :
      (id : ℕ) (found : Option FoundTx)
      → Triple Synced (recover_with deps id found) SyncedWith Synced
  recovered_with id none = given_back id retryable_error
  recovered_with id (some found) =
      Triple-bind _ _
        (record {
          at = λ w h.
              (stated_synced (
                  transition id (submitting ∷ []) confirming
                    (sent_patch found.tx_hash (deps.now w.env)))).at
                w h;
        })
        (λ b.
          Triple-bind _ _
            (called (deps.enqueue_confirm id found.tx_hash) (quiet-enqueue id found.tx_hash))
            (λ u. Triple-pure SubmitOutcome.recovered (λ w h. h)))

  pub recovered : (id h : ℕ) → Triple Synced (recover deps id h) SyncedWith Synced
  unfolding recover
  recovered id h =
      Triple-bind _ _ (called (deps.find_tx_by_record_hash h) (quiet-find h)) (recovered_with id)

  recovered_already :
      (id : ℕ) (s : Option SubmittableRecord)
      → Triple Synced (already_recorded deps id s) SyncedWith Synced
  recovered_already id (some s) = recovered id s.record_hash
  recovered_already id none = given_back id already_recorded_error

  -- The handler heals a nonce that has been handed out and not been spent.
  pub handler :
      (id : ℕ) (state : AttemptState) (e : ChainError)
      → Triple
          (Before (state.nonce_consumed && not state.broadcast))
          (handle_submit_error deps id state e)
          SyncedWith
          Synced
  unfolding handle_submit_error
  handler id state nonce_error =
      Triple-bind _ _ (record { at = λ w h. healed.at w tt }) (λ u. given_back id nonce_error)
  handler id state already_recorded_error =
      Triple-bind _ _ (healed_if (state.nonce_consumed && not state.broadcast))
        (λ u. recovered_already id state.submittable)
  handler id state terminal_error =
      Triple-bind _ _ (healed_if (state.nonce_consumed && not state.broadcast)) (λ u. given_up id)
  handler id state retryable_error =
      Triple-bind _ _ (healed_if (state.nonce_consumed && not state.broadcast))
        (λ u. given_back id retryable_error)
  handler id state chain_unavailable_error =
      Triple-bind _ _ (healed_if (state.nonce_consumed && not state.broadcast))
        (λ u. given_back id chain_unavailable_error)
