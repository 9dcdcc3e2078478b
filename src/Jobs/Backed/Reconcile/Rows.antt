-- ===== src/Jobs/Backed/Reconcile/Rows.antt =====
-- One row that stands in flight: the reconciler keeps every verified record on the chain.
use you_fen.Base.{
  ℕ, ◌+◌, ◌≡◌, refl, Bool, true, false, Option, none, some, ltb, Bool-cases, inl, inr,
}
use you_fen.Engine.Tables.{
  VerificationStatus, submitting, confirming, verified, superseded, PublicRecordRow, RecordStatus,
  verification, recorded,
}
use you_fen.Chain.Records.{RecordPatch, transition}
use you_fen.Jobs.{World, Port, returned, call, statement}
use you_fen.Jobs.Keeps.{Triple, Triple-pure, Triple-bind, Triple-given}
use you_fen.Jobs.Submit.{FoundTx}
use you_fen.Jobs.Confirm.{reverted_patch}
use you_fen.Jobs.Reconcile.{
  TxStatus, ReconcilerDeps, RecRow, RowOutcome, in_flight_from, epoch_patch, timeout_patch,
  recovery_patch, requeued_if, recover_to_verified, requeue, fail_row, judge_nonce, nonce_judgement,
  recover_if, ask_contract, by_tx_status, handle_by_status, handle_in_flight,
}
use you_fen.Jobs.Backed.{
  ChainView, IsTied, Grows, KeepsBacked, BackedAnd, Nothing, called, transition-Backed,
}

-- What the chain promises to the reconciler: what is recorded stays recorded; a look at a hash answers
-- that it is there only if it is; a transaction that counts as confirmed has written its hash; one that
-- was looked up by a hash writes it.
pub record ReconcilerLaws {E : Type 0} (deps : ReconcilerDeps E) (v : ChainView E) : Type 0 where
  pub keeps : KeepsBacked v deps.others
  pub grows_find : (h : ℕ) → Grows v (deps.find_tx_by_record_hash h)
  pub grows_status : (t : ℕ) → Grows v (deps.get_transaction_status t)
  pub grows_read : (h : ℕ) → Grows v (deps.read_chain_record h)
  pub grows_nonce : Grows v deps.get_latest_nonce
  pub grows_enqueue : (id n : ℕ) → Grows v (deps.enqueue id n)
  pub tells_find :
      (h : ℕ) (e : E) (f : FoundTx)
      → (deps.find_tx_by_record_hash h e).0 ≡ returned (some f)
      → v.writes f.tx_hash h ≡ true
  pub tells_status :
      (t h : ℕ) (e : E)
      → (deps.get_transaction_status t e).0 ≡ returned TxStatus.confirmed
      → v.writes t h ≡ true
      → v.on_chain h (deps.get_transaction_status t e).1 ≡ true
  pub tells_read :
      (h : ℕ) (e : E)
      → (deps.read_chain_record h e).0 ≡ returned true
      → v.on_chain h (deps.read_chain_record h e).1 ≡ true

module _ {E : Type 0} (deps : ReconcilerDeps E) (v : ChainView E) (laws : ReconcilerLaws deps v)
    (now : ℕ) where
  open laws use {
    keeps, grows_find, grows_status, grows_read, grows_nonce, grows_enqueue, tells_find,
    tells_status, tells_read,
  }

  abbrev Plain : World E → Type 0
  Plain = BackedAnd v (Nothing v)

  abbrev PlainWith : {A : Type 0} → A → World E → Type 0
  PlainWith a = BackedAnd v (Nothing v)

  pub plainly :
      {A : Type 0} (port : Port E A)
      → Grows v port
      → Triple Plain (call deps.others port) PlainWith Plain
  plainly port grow = called v deps.others keeps (λ a. Nothing v) port grow (λ a e f k. tt)

  moved :
      (id : ℕ) (to : VerificationStatus) (patch : RecordPatch)
      → ((t : ℕ) → patch.tx_hash ≡ some t → v.writes t (v.hash_of id) ≡ true)
      → (to ≡ verified → ⊥)
      → Triple Plain (statement deps.others (transition id in_flight_from to patch)) PlainWith Plain
  moved id to patch ties ne =
      transition-Backed v deps.others keeps (Nothing v) id in_flight_from to patch ties
        (λ e f s. absurd (ne s))

  requeued : (row : PublicRecordRow) → Triple Plain (requeue deps now row) PlainWith Plain
  unfolding requeue
  requeued row =
      Triple-bind _ _
        (moved row.id VerificationStatus.pending (epoch_patch (row.attempt_epoch + 1)) (λ t k. cc)
          (λ k. cc))
        λ b.
          Triple-bind _ _
            (plainly (deps.enqueue row.id (row.attempt_epoch + 1))
              (grows_enqueue row.id (row.attempt_epoch + 1)))
            (λ q. Triple-pure (requeued_if q) (λ w h. h))

  failed_row :
      (row : PublicRecordRow) (patch : RecordPatch)
      → ((t : ℕ) → patch.tx_hash ≡ some t → v.writes t (v.hash_of row.id) ≡ true)
      → Triple Plain (fail_row deps now row patch) PlainWith Plain
  unfolding fail_row
  failed_row row patch ties =
      Triple-bind _ _ (moved row.id VerificationStatus.failed patch ties (λ k. cc))
        (λ b. Triple-pure RowOutcome.failed (λ w h. h))

  judged :
      (r : RecRow) (n latest : ℕ) → Triple Plain (judge_nonce deps now r n latest) PlainWith Plain
  judged r n latest = elim (Bool-cases (ltb n latest)) [
    | inl e ↦ rw e (requeued r.row)
    | inr e ↦ elim (Bool-cases (ltb now (r.updated_at + deps.hard_timeout_ms))) [
      | inl k ↦ rw (e, k) (Triple-pure RowOutcome.untouched (λ w h. h))
      | inr k ↦ rw (e, k) (failed_row r.row timeout_patch (λ t s. cc))
    ]
  ]

  nonce_judged :
      (r : RecRow) (o : Option ℕ) → Triple Plain (nonce_judgement deps now r o) PlainWith Plain
  nonce_judged r none = requeued r.row
  nonce_judged r (some n) = Triple-bind _ _ (plainly deps.get_latest_nonce grows_nonce) (judged r n)

  module _ (r : RecRow) (tied : IsTied v r.row) where
    -- The hash of the row is on the chain.
    abbrev Recorded : E → Type 0
    Recorded e = v.on_chain r.row.record_hash e ≡ true

    abbrev Found : Option FoundTx → E → Type 0
    Found none e = v.on_chain r.row.record_hash e ≡ true
    Found (some f) e =
        (v.on_chain r.row.record_hash e ≡ true) × (v.writes f.tx_hash r.row.record_hash ≡ true)

    found :
        (o : Option FoundTx) (e : E)
        → Recorded e
        → (deps.find_tx_by_record_hash r.row.record_hash e).0 ≡ returned o
        → Found o (deps.find_tx_by_record_hash r.row.record_hash e).1
    found none e h k = grows_find r.row.record_hash r.row.record_hash e h
    found (some f) e h k =
        (grows_find r.row.record_hash r.row.record_hash e h, tells_find r.row.record_hash e f k)

    recovered_found :
        (o : Option FoundTx)
        → Triple
            (BackedAnd v (Found o))
            (statement deps.others
              (transition r.row.id in_flight_from verified (recovery_patch now o)))
            (λ b. BackedAnd v (Found o))
            Plain
    recovered_found none =
        transition-Backed v deps.others keeps (Found none) r.row.id in_flight_from verified
          (recovery_patch now none) (λ t k. cc) (λ e h s. rw (← tied.0) h)
    recovered_found (some f) = Triple-given _ λ w0 k0.
        transition-Backed v deps.others keeps (Found (some f)) r.row.id in_flight_from verified
          (recovery_patch now (some f))
          (λ t k. let same : f.tx_hash ≡ t = cc in rw (← same, ← tied.0) (k0.1).1)
          (λ e h s. rw (← tied.0) h.0)

    recovered : Triple (BackedAnd v Recorded) (recover_to_verified deps now r.row) PlainWith Plain
    unfolding recover_to_verified
    recovered =
        Triple-bind _ _
          (called v deps.others keeps Found (deps.find_tx_by_record_hash r.row.record_hash)
            (grows_find r.row.record_hash) found)
          λ o.
            Triple-bind _ _ (recovered_found o)
              (λ b. Triple-pure RowOutcome.recovered (λ w h. (h.0, tt)))

    -- What a look at the contract has told.
    abbrev Seen : Bool → E → Type 0
    Seen true e = v.on_chain r.row.record_hash e ≡ true
    Seen false e = Unit

    seen :
        (b : Bool) (e : E)
        → Unit {0}
        → (deps.read_chain_record r.row.record_hash e).0 ≡ returned b
        → Seen b (deps.read_chain_record r.row.record_hash e).1
    seen true e u k = tells_read r.row.record_hash e k
    seen false e u k = tt

    recovered_if :
        (b : Bool) → Triple (BackedAnd v (Seen b)) (recover_if deps now r b) PlainWith Plain
    recovered_if true = recovered
    recovered_if false = record { at = λ w h. (nonce_judged r r.row.assigned_nonce).at w (h.0, tt) }

    asked : Triple Plain (ask_contract deps now r) PlainWith Plain
    unfolding ask_contract
    asked =
        Triple-bind _ _
          (called v deps.others keeps Seen (deps.read_chain_record r.row.record_hash)
            (grows_read r.row.record_hash) seen)
          recovered_if

    -- What the status of the transaction has told.
    abbrev Told : TxStatus → E → Type 0
    Told TxStatus.confirmed e = v.on_chain r.row.record_hash e ≡ true
    Told _ e = Unit

    told :
        (t : ℕ)
        → r.row.tx_hash ≡ some t
        → (s : TxStatus) (e : E) → Unit {0}
        → (deps.get_transaction_status t e).0 ≡ returned s
        → Told s (deps.get_transaction_status t e).1
    told t has TxStatus.pending e u k = tt
    told t has TxStatus.confirmed e u k = tells_status t r.row.record_hash e k (tied.1 t has)
    told t has TxStatus.reverted e u k = tt
    told t has TxStatus.not_found e u k = tt

    settled :
        (s : TxStatus) → Triple (BackedAnd v (Told s)) (by_tx_status deps now r s) PlainWith Plain
    settled TxStatus.pending = Triple-pure RowOutcome.untouched (λ w h. h)
    settled TxStatus.confirmed = recovered
    settled TxStatus.reverted = failed_row r.row reverted_patch (λ t k. cc)
    settled TxStatus.not_found = asked

    by_status :
        (st : RecordStatus) (o : Option ℕ)
        → r.row.tx_hash ≡ o
        → Triple Plain (handle_by_status deps now r st o) PlainWith Plain
    by_status (verification confirming) (some t) has =
        Triple-bind _ _
          (called v deps.others keeps Told (deps.get_transaction_status t) (grows_status t)
            (told t has))
          settled
    by_status (verification confirming) none has = asked
    by_status (verification VerificationStatus.pending) o has = asked
    by_status (verification submitting) o has = asked
    by_status (verification verified) o has = asked
    by_status (verification VerificationStatus.failed) o has = asked
    by_status (verification superseded) o has = asked
    by_status recorded o has = asked

    pub in_flight_handled : Triple Plain (handle_in_flight deps now r) PlainWith Plain
    unfolding handle_in_flight
    in_flight_handled = by_status r.row.status r.row.tx_hash refl
