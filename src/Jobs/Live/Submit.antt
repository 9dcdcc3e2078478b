-- ===== src/Jobs/Live/Submit.antt =====
-- A submit job after its submittable is built leaves the record confirming.
use you_fen.Base.{ℕ, ◌≡◌, refl, sym, ◌∙◌, Bool, true, false, Option, none, some, [], ◌∷◌, ap, arith}
use you_fen.Engine.Tables.{submitting, confirming}
use you_fen.Chain.Records.{transition}
use you_fen.Jobs.{World, call, statement, ◌>>◌}
use you_fen.Jobs.Keeps.{Triple, Post, Triple-pure, Triple-bind}
use you_fen.Jobs.Build.{SubmittableRecord}
use you_fen.Jobs.Wallet.{next_nonce, get_next_nonce}
use you_fen.Jobs.Submit.{
  SubmitDeps, SubmitOutcome, SubmitResult, sent_patch, hand_over, broadcast_if, send_with,
  send_unless,
}
use you_fen.Jobs.Live.{LiveView, SubmitAnswers, answered}
use you_fen.Jobs.Live.Steps.{
  Confirming, Submitting, Sending, Landed, Stop, tried, enqueued, confirming_now, recovered, noted,
}

module _ {E : Type 0} (deps : SubmitDeps E) (v : LiveView E) (answers : SubmitAnswers deps v)
    (id h : ℕ) where
  open answers use {alone, reads, submits, still_rebuild, still_read}

  abbrev Halt : World E → Type 0
  Halt = Stop deps v answers id h

  handed :
      (r : SubmitResult)
      → Triple
          (Landed v id h r.tx_hash)
          (statement deps.others
              (transition id (submitting ∷ []) confirming (sent_patch r.tx_hash r.submitted_at))
            >> call deps.others (deps.enqueue_confirm id r.tx_hash))
          (λ u. Confirming v id h)
          Halt
  handed r =
      Triple-bind _ _ (confirming_now deps v answers id h r.tx_hash r.submitted_at)
        (λ b. enqueued deps v answers id h r.tx_hash)

  module _ (s : SubmittableRecord) (same : s.record_hash ≡ h) where
    accepted :
        (n : ℕ)
        → Triple
            (Sending v id h n)
            (call deps.others (deps.submit_record s n))
            (λ r. Landed v id h r.tx_hash)
            Halt
    accepted n =
        answered deps.others alone {P = Sending v id h n} {Q = λ r. Landed v id h r.tx_hash}
          (deps.submit_record s n)
          λ w k.
            let (is, next, free) = k in
            let (r, e, wrote, held) = submits s w.env (rw same free) in
            (r, (rw next e), (is, (rw (next, ← same) held), (rw (← same) wrote)))

    sent :
        (n : ℕ) (b : Bool)
        → Triple
            (λ w. Sending v id h n w × (b ≡ true))
            (broadcast_if deps id s n b)
            (λ o. Confirming v id h)
            Halt
    unfolding hand_over
    sent n false = record { at = λ w k. absurd (ground (arith, k.1)) }
    sent n true =
        tried deps v answers id h _ _ _ (record { at = λ w k. (accepted n).at w k.0 })
          λ r.
            tried deps v answers id h _ _ _ (handed r)
              (λ u. Triple-pure SubmitOutcome.submitted (λ w k. k))

    abbrev pub Told : Bool → World E → Type 0
    Told b w = Submitting v id h w × (v.on_chain h w.env ≡ b)

    numbered :
        (w : World E) (o : Option ℕ)
        → w.local_nonce ≡ o
        → Told false w
        → Post (Sending v id h) Halt (next_nonce deps.others deps.get_transaction_count o w)
    numbered w none e k = let l : w.local_nonce ≡ some (v.count w.env) = k.0.1 in cc
    numbered w (some n) e k =
        let l : w.local_nonce ≡ some (v.count w.env) = k.0.1 in (k.0.0, cc, k.1)

    pub went_on :
        (b : Bool) → Triple (Told b) (send_unless deps id s b) (λ o. Confirming v id h) Halt
    unfolding send_with get_next_nonce
    went_on true =
        tried deps v answers id h _ _ _
          (rw same record { at = λ w k. (recovered deps v answers id h).at w (k.0.0, k.1) })
          (λ o. Triple-pure o (λ w k. k))
    went_on false =
        tried deps v answers id h {Q = Sending v id h} _ _ _
          (record { at = λ w k. numbered w w.local_nonce refl k })
          (λ n. tried deps v answers id h _ _ _ (noted deps v answers id h n) (sent n))

    pub looked :
        Triple
          (Submitting v id h)
          (call deps.others (deps.read_chain_record s.record_hash))
          Told
          Halt
    looked =
        answered deps.others alone {P = Submitting v id h} {Q = Told}
          (deps.read_chain_record s.record_hash)
          λ w k.
            let still = still_read s.record_hash w.env in
            (
              v.on_chain s.record_hash w.env,
              reads s.record_hash w.env,
              ((k.0, (rw still.1 k.1)), still.0 h ∙ ap (λ k. v.on_chain k w.env) (sym same)),
            )
