-- ===== src/Jobs/Backed/Submit/Handler.antt =====
-- The error handler of a submit job keeps every verified record on the chain.
use you_fen.Base.{ℕ, ◌≡◌, Bool, true, false, not, ◌&&◌, Option, none, some, List, [], ◌∷◌}
use you_fen.Engine.Tables.{
  ChainError, retryable_error, terminal_error, already_recorded_error, nonce_error,
  chain_unavailable_error, VerificationStatus, pending, submitting, confirming, failed, verified,
  PublicRecordRow,
}
use you_fen.Engine.Db.{Db}
use you_fen.Chain.Records.{RecordPatch, transition}
use you_fen.Jobs.{World, Port, returned, call, statement}
use you_fen.Jobs.Keeps.{Triple, Triple-pure, Triple-throw, Triple-try_or, Triple-bind, Triple-given}
use you_fen.Jobs.Build.{SubmittableRecord}
use you_fen.Jobs.Wallet.Keeps.{resync_nonce-keeps}
use you_fen.Jobs.Submit.{
  SubmitDeps, SubmitOutcome, SubmitResult, FoundTx, AttemptState, error_patch, sent_patch,
  reset_to_pending, heal_leaked_nonce, recover_with, recover, heal_if, give_back, give_up,
  already_recorded, handle_submit_error,
}
use you_fen.Jobs.Backed.{
  ChainView, Grows, KeepsBacked, BackedAnd, Nothing, All-later, called, transition-Backed,
}

-- What the chain promises to a submit job: what is recorded stays recorded; a transaction that was sent
-- for a hash, or was looked up by it, writes it. Of what is rebuilt from a source nothing is said.
pub record SubmitLaws {E : Type 0} (deps : SubmitDeps E) (v : ChainView E) : Type 0 where
  pub keeps : KeepsBacked v deps.others
  pub grows_rebuild : (row : PublicRecordRow) (d : Db) → Grows v (deps.rebuild row d)
  pub grows_read : (h : ℕ) → Grows v (deps.read_chain_record h)
  pub grows_find : (h : ℕ) → Grows v (deps.find_tx_by_record_hash h)
  pub grows_count : Grows v deps.get_transaction_count
  pub grows_submit : (s : SubmittableRecord) (n : ℕ) → Grows v (deps.submit_record s n)
  pub grows_enqueue : (id t : ℕ) → Grows v (deps.enqueue_confirm id t)
  pub grows_discard : (h : ℕ) (e : E) → v.on_chain h e ≡ true → v.on_chain h (deps.discard e) ≡ true
  pub tells_find :
      (h : ℕ) (e : E) (f : FoundTx)
      → (deps.find_tx_by_record_hash h e).0 ≡ returned (some f)
      → v.writes f.tx_hash h ≡ true
  pub tells_submit :
      (s : SubmittableRecord) (n : ℕ) (e : E) (r : SubmitResult)
      → (deps.submit_record s n e).0 ≡ returned r
      → v.writes r.tx_hash s.record_hash ≡ true

module _ {E : Type 0} (deps : SubmitDeps E) (v : ChainView E) (laws : SubmitLaws deps v) where
  open laws use {
    keeps, grows_rebuild, grows_read, grows_find, grows_count, grows_submit, grows_enqueue,
    grows_discard, tells_find, tells_submit,
  }

  abbrev Plain : World E → Type 0
  Plain = BackedAnd v (Nothing v)

  abbrev PlainWith : {A : Type 0} → A → World E → Type 0
  PlainWith a = BackedAnd v (Nothing v)

  -- A call whose answer is not looked into.
  pub plainly :
      {A : Type 0} (port : Port E A)
      → Grows v port
      → Triple Plain (call deps.others port) PlainWith Plain
  plainly port grow = called v deps.others keeps (λ a. Nothing v) port grow (λ a e f k. tt)

  pub moved :
      (id : ℕ) (from : List VerificationStatus) (to : VerificationStatus) (patch : RecordPatch)
      → ((t : ℕ) → patch.tx_hash ≡ some t → v.writes t (v.hash_of id) ≡ true)
      → (to ≡ verified → ⊥)
      → Triple Plain (statement deps.others (transition id from to patch)) PlainWith Plain
  moved id from to patch ties ne =
      transition-Backed v deps.others keeps (Nothing v) id from to patch ties
        (λ e f s. absurd (ne s))

  reset : (id : ℕ) (e : ChainError) → Triple Plain (reset_to_pending deps id e) PlainWith Plain
  unfolding reset_to_pending
  reset id e =
      Triple-try_or _ _ _ (moved id (submitting ∷ []) pending (error_patch e) (λ t k. cc) (λ k. cc))
        (λ x. Triple-pure tt (λ w h. h)) (λ b. Triple-pure tt (λ w h. h))

  pub healed : Triple Plain (heal_leaked_nonce deps) PlainWith Plain
  unfolding heal_leaked_nonce
  healed =
      Triple-try_or _ _ _
        (resync_nonce-keeps Plain (λ w o q h. h) deps.others deps.get_transaction_count
          (plainly deps.get_transaction_count grows_count))
        (λ x. Triple-pure tt (λ w h. h)) (λ b. Triple-pure b (λ w h. h))

  healed_if : (b : Bool) → Triple Plain (heal_if deps b) PlainWith Plain
  healed_if true = healed
  healed_if false = Triple-pure tt (λ w h. h)

  given_back : (id : ℕ) (e : ChainError) → Triple Plain (give_back deps id e) PlainWith Plain
  given_back id e = Triple-bind _ _ (reset id e) (λ u. Triple-throw e (λ w h. h))

  given_up : (id : ℕ) → Triple Plain (give_up deps id) PlainWith Plain
  given_up id =
      Triple-bind _ _
        (moved id (submitting ∷ []) failed (error_patch terminal_error) (λ t k. cc) (λ k. cc))
        (λ b. record {
          at = λ w h. (
            All-later v w.env (deps.discard w.env) w.db.records (λ k. grows_discard k w.env) h.0,
            tt,
          );
        })

  -- The transaction that was found writes the hash.
  abbrev Found : ℕ → Option FoundTx → E → Type 0
  Found h none e = Unit
  Found h (some f) e = v.writes f.tx_hash h ≡ true

  found :
      (h : ℕ) (o : Option FoundTx) (e : E)
      → Unit {0}
      → (deps.find_tx_by_record_hash h e).0 ≡ returned o
      → Found h o (deps.find_tx_by_record_hash h e).1
  found h none e u k = tt
  found h (some f) e u k = tells_find h e f k

  pub sent_ties :
      (id t at : ℕ)
      → v.writes t (v.hash_of id) ≡ true
      → (u : ℕ) → (sent_patch t at).tx_hash ≡ some u
      → v.writes u (v.hash_of id) ≡ true
  sent_ties id t at h u e = let same : t ≡ u = cc in rw (← same) h

  recovered_with :
      (id h : ℕ) (o : Option FoundTx)
      → h ≡ v.hash_of id
      → Triple (BackedAnd v (Found h o)) (recover_with deps id o) PlainWith Plain
  recovered_with id h none same = record {
    at = λ w k. (given_back id retryable_error).at w (k.0, tt);
  }
  recovered_with id h (some f) same = Triple-given _ λ w0 k0.
      Triple-bind _ _
        (record {
          at = λ w k.
              (moved id (submitting ∷ []) confirming (sent_patch f.tx_hash (deps.now w.env))
                  (sent_ties id f.tx_hash (deps.now w.env) (rw (← same) (k0.1))) (λ k. cc)).at
                w (k.0, tt);
        })
        (λ b.
          Triple-bind _ _ (plainly (deps.enqueue_confirm id f.tx_hash) (grows_enqueue id f.tx_hash))
            (λ u. Triple-pure SubmitOutcome.recovered (λ w h. h)))

  pub recovered : (id h : ℕ) → h ≡ v.hash_of id → Triple Plain (recover deps id h) PlainWith Plain
  unfolding recover
  recovered id h same =
      Triple-bind _ _
        (called v deps.others keeps (Found h) (deps.find_tx_by_record_hash h) (grows_find h)
          (found h))
        (λ o. recovered_with id h o same)

  -- A submittable at hand has the hash of the record.
  abbrev IsNamed : ℕ → Option SubmittableRecord → Type 0
  IsNamed id none = Unit
  IsNamed id (some s) = s.record_hash ≡ v.hash_of id

  recovered_already :
      (id : ℕ) (s : Option SubmittableRecord)
      → IsNamed id s
      → Triple Plain (already_recorded deps id s) PlainWith Plain
  recovered_already id (some s) same = recovered id s.record_hash same
  recovered_already id none same = given_back id already_recorded_error

  pub handler :
      (id : ℕ) (state : AttemptState)
      → IsNamed id state.submittable
      → (e : ChainError) → Triple Plain (handle_submit_error deps id state e) PlainWith Plain
  unfolding handle_submit_error
  handler id state same nonce_error = Triple-bind _ _ healed (λ u. given_back id nonce_error)
  handler id state same already_recorded_error =
      Triple-bind _ _ (healed_if (state.nonce_consumed && not state.broadcast))
        (λ u. recovered_already id state.submittable same)
  handler id state same terminal_error =
      Triple-bind _ _ (healed_if (state.nonce_consumed && not state.broadcast)) (λ u. given_up id)
  handler id state same retryable_error =
      Triple-bind _ _ (healed_if (state.nonce_consumed && not state.broadcast))
        (λ u. given_back id retryable_error)
  handler id state same chain_unavailable_error =
      Triple-bind _ _ (healed_if (state.nonce_consumed && not state.broadcast))
        (λ u. given_back id chain_unavailable_error)
