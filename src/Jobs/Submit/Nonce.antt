-- ===== src/Jobs/Submit/Nonce.antt =====
-- A submit job leaks no nonce: the counter of the wallet stays that of the chain.
pub mod Laws
pub mod Handler
use you_fen.Base.{
  ◌⊎◌, inl, inr, ℕ, suc, ◌≡◌, refl, sym, [], ◌∷◌, Bool, true, false, not, ◌&&◌, Option, none, some,
}
use you_fen.Engine.Errors.{Result, ok, err}
use you_fen.Engine.Tables.{
  ChainError, retryable_error, terminal_error, already_recorded_error, nonce_error,
  chain_unavailable_error, submitting, confirming,
}
use you_fen.Engine.Db.{Db, Tx}
use you_fen.Chain.Records.{transition}
use you_fen.Jobs.{World, Port, Outcome, returned, thrown, call, statement, committed}
use you_fen.Jobs.Keeps.{
  Triple, Triple-mono, Post, Post-kept, Triple-weaken, Triple-pure, Triple-throw, Triple-try_or,
  Triple-bind, Triple-call, Triple-statement,
}
use you_fen.Jobs.Build.{SubmittableRecord}
use you_fen.Jobs.Build.Keeps.{build_submittable-IsBuilt}
use you_fen.Jobs.Wallet.{hand_out, next_nonce, get_next_nonce}
use you_fen.Jobs.Wallet.Keeps.{start_healing_resync-keeps}
use you_fen.Jobs.Submit.{
  SubmitDeps, SubmitOutcome, SubmitResult, FoundTx, AttemptState, sent_patch, reset_to_pending,
  heal_leaked_nonce, recover_with, recover, heal_if, give_back, give_up, already_recorded,
  handle_submit_error, attempt_state, hand_over, broadcast_if, send_with, send_unless, attempt,
  attempt_if, process_submit_job,
}
use you_fen.Jobs.Submit.Nonce.Laws.{CountLaws, IsSynced}
use you_fen.Jobs.Submit.Nonce.Handler.{stated, called, stated_synced, healed, recovered, handler}

module _ {E : Type 0} (deps : SubmitDeps E) (count : E → ℕ) (missed : E → Bool)
    (laws : CountLaws deps count missed) where
  open laws use {submits, missed-submit, quiet-count, quiet-rebuild, quiet-read, quiet-enqueue}

  abbrev Anyhow : World E → Type 0
  Anyhow w = Unit {0}

  abbrev Synced : World E → Type 0
  Synced w = IsSynced w.local_nonce (count w.env) ⊎ (missed w.env ≡ true)

  abbrev SyncedWith : {A : Type 0} → A → World E → Type 0
  SyncedWith a w = IsSynced w.local_nonce (count w.env) ⊎ (missed w.env ≡ true)

  -- The nonce has been handed out.
  abbrev Ahead : ℕ → World E → Type 0
  Ahead n w = ((w.local_nonce ≡ some (suc n)) × (n ≡ count w.env)) ⊎ (missed w.env ≡ true)

  handed_over :
      (id : ℕ) (s : SubmittableRecord) (result : SubmitResult)
      → Triple Synced (hand_over deps id s result) SyncedWith Synced
  unfolding hand_over
  handed_over id s result =
      Triple-try_or _ _ _
        (Triple-bind _ _ (stated_synced deps count missed laws _) (λ b.
          called deps count missed laws (deps.enqueue_confirm id result.tx_hash)
            (quiet-enqueue id result.tx_hash)))
        (handler deps count missed laws id (attempt_state deps (some s) true true))
        (λ u. Triple-pure SubmitOutcome.submitted (λ w h. h))

  count_at :
      (s : SubmittableRecord) (n : ℕ) (e : E) (r : SubmitResult)
      → n ≡ count e
      → (deps.submit_record s n e).0 ≡ returned r
      → count (deps.submit_record s n e).1 ≡ suc n
  count_at s n e r p sent_once = rw p (submits s e r (rw p at sent_once))

  spent :
      (s : SubmittableRecord) (n : ℕ) (w v : World E) (o : Outcome SubmitResult)
      → (deps.submit_record s n w.env).0 ≡ o
      → v.local_nonce ≡ w.local_nonce
      → v.env ≡ (deps.submit_record s n w.env).1
      → Ahead n w
      → Post SyncedWith Anyhow (o, v)
  spent s n w v (returned r) e l k (inl h) = inl (rw (l, h.0, k) (sym (count_at s n w.env r h.1 e)))
  spent s n w v (returned r) e l k (inr h) = inr (rw k (missed-submit s n w.env h))
  spent s n w v (thrown x) e l k h = tt

  broadcast :
      (id : ℕ) (s : SubmittableRecord) (n : ℕ) (b : Bool)
      → Triple (Ahead n) (broadcast_if deps id s n b) SyncedWith Synced
  broadcast id s n false =
      Triple-bind _ _ (record { at = λ w h. (healed deps count missed laws).at w tt })
        (λ u. Triple-pure SubmitOutcome.skipped (λ w h. h))
  broadcast id s n true =
      Triple-try_or _ _ _
        (Triple-call deps.others (deps.submit_record s n) (λ w h. spent s n w _ _ refl refl refl h))
        (handler deps count missed laws id (attempt_state deps (some s) true false))
        (handed_over id s)

  -- A counter that is not there.
  abbrev Unset : World E → Type 0
  Unset w = w.local_nonce ≡ none

  unset : Triple Unset (next_nonce deps.others deps.get_transaction_count none) Ahead Synced
  unset =
      Triple-weaken _ (λ w h. inl (rw h tt))
        (Triple-bind _ _
          (start_healing_resync-keeps Unset (λ w s h. h) deps.others deps.get_transaction_count
            (Triple-call deps.others deps.get_transaction_count
              (λ w h. Post-kept Unset (deps.get_transaction_count w.env).0 _ h)))
          (λ u. Triple-throw nonce_error (λ w h. h)))

  handed_out : (n : ℕ) (w : World E) → w.local_nonce ≡ some n → Synced w → Ahead n (hand_out n w).1
  handed_out n w e (inl h) = inl (refl, (rw e at h))
  handed_out n w e (inr h) = inr h

  nonced :
      (o : Option ℕ) (w : World E)
      → w.local_nonce ≡ o
      → Synced w
      → Post Ahead Synced (next_nonce deps.others deps.get_transaction_count o w)
  nonced none w e h = unset.at w e
  nonced (some n) w e h = handed_out n w e h

  numbered : Triple Synced (get_next_nonce deps.others deps.get_transaction_count) Ahead Synced
  unfolding get_next_nonce
  numbered = record { at = λ w h. nonced w.local_nonce w refl h }

  sent :
      (id : ℕ) (s : SubmittableRecord) (b : Bool)
      → Triple Synced (send_unless deps id s b) SyncedWith Synced
  unfolding send_with
  sent id s true =
      Triple-try_or _ _ _ (recovered deps count missed laws id s.record_hash)
        (handler deps count missed laws id (attempt_state deps (some s) false false))
        (λ o. Triple-pure o (λ w h. h))
  sent id s false =
      Triple-try_or _ _ _ numbered
        (handler deps count missed laws id (attempt_state deps (some s) false false))
        λ n.
          Triple-try_or _ _ _
            (Triple-weaken {R' = Anyhow} _ (λ w h. tt)
              (stated deps count missed laws
                (λ o e. ((o ≡ some (suc n)) × (n ≡ count e)) ⊎ (missed e ≡ true)) _))
            (handler deps count missed laws id (attempt_state deps (some s) true false))
            (broadcast id s n)

  attempted : (id : ℕ) → Triple Synced (attempt deps id) SyncedWith Synced
  unfolding attempt
  attempted id =
      Triple-try_or _ _ _
        (Triple-mono _ (λ w h. h) (λ s w h. h.0)
          (build_submittable-IsBuilt Synced (λ row. Unit {0}) deps.others deps.rebuild id (λ w h. h)
            (λ w row h e. tt)
            (λ row d. called deps count missed laws (deps.rebuild row d) (quiet-rebuild row d))))
        (handler deps count missed laws id (attempt_state deps none false false))
        λ s.
          Triple-try_or _ _ _
            (called deps count missed laws (deps.read_chain_record s.record_hash)
              (quiet-read s.record_hash))
            (handler deps count missed laws id (attempt_state deps (some s) false false))
            (sent id s)

  attempted_if : (id : ℕ) (b : Bool) → Triple Synced (attempt_if deps id b) SyncedWith Synced
  attempted_if id true = attempted id
  attempted_if id false = Triple-pure SubmitOutcome.skipped (λ w h. h)

  processed : (id : ℕ) → Triple Synced (process_submit_job deps id) SyncedWith Synced
  unfolding process_submit_job
  processed id = Triple-bind _ _ (stated_synced deps count missed laws _) (attempted_if id)

  world_after :
      {A : Type 0} (r : Outcome A × World E)
      → Post SyncedWith Synced r
      → IsSynced r.1.local_nonce (count r.1.env) ⊎ (missed r.1.env ≡ true)
  world_after (returned a, v) h = h
  world_after (thrown e, v) h = h

-- Where the node counts transactions as documented: if the counter of the wallet, once it is there, is
-- the count of the chain before a submit job, it is so after it, however the job ends, unless a call for
-- the count has thrown. So no nonce is skipped and none is used twice while those calls answer.
pub process_submit_job-IsSynced :
    {E : Type 0} (deps : SubmitDeps E) (count : E → ℕ) (missed : E → Bool) (id : ℕ) (w : World E)
    → CountLaws deps count missed
    → IsSynced w.local_nonce (count w.env)
    → IsSynced
        (process_submit_job deps id w).1.local_nonce
        (count (process_submit_job deps id w).1.env)
      ⊎ (missed (process_submit_job deps id w).1.env ≡ true)
process_submit_job-IsSynced deps count missed id w laws h =
    world_after deps count missed laws (process_submit_job deps id w)
      ((processed deps count missed laws id).at w (inl h))
