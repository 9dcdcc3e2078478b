-- ===== src/Jobs/Live/Steps.antt =====
-- The steps of a submit job that cannot throw, and what is known after each.
use you_fen.Base.{ℕ, ◌≡◌, refl, ◌∙◌, true, false, Option, none, some, [], ◌∷◌}
use you_fen.Engine.Tables.{ChainError, pending, submitting, confirming}
use you_fen.Engine.Db.{Db}
use you_fen.Chain.Records.{empty_patch, apply_patch, move, transition, patch_in_status}
use you_fen.Jobs.{World, Job, call, statement, try_or}
use you_fen.Jobs.Keeps.{Triple, Triple-pure, Triple-try_or, Triple-bind, Triple-statement}
use you_fen.Jobs.Submit.{
  SubmitDeps, SubmitOutcome, FoundTx, sent_patch, nonce_patch, recover_with, recover,
}
use you_fen.Jobs.Submit.Rows.{to_confirming}
use you_fen.Jobs.Live.{LiveView, SubmitAnswers, RowIs, updated, row_updated, Never, answered, moved}

-- Nothing is asked of a transaction.
abbrev pub AnyTx : Option ℕ → Type 0
AnyTx o = Unit {0}

-- The tables after the claim of a record.
abbrev pub claimed_db : ℕ → Db → Db
claimed_db id d = updated id pending (move submitting empty_patch) d

module _ {E : Type 0} (v : LiveView E) (id h : ℕ) where
  -- The transaction has written the hash.
  abbrev pub Wrote : Option ℕ → Type 0
  Wrote o = (t : ℕ) × (o ≡ some t) × (v.writes t h ≡ true)

  abbrev pub Confirming : World E → Type 0
  Confirming w = RowIs id h confirming Wrote w.db × (v.on_chain h w.env ≡ true)

  abbrev pub Submitting : World E → Type 0
  Submitting w = RowIs id h submitting AnyTx w.db × (w.local_nonce ≡ some (v.count w.env))

  -- The nonce is handed out, and the contract does not hold the hash.
  abbrev pub Sending : ℕ → World E → Type 0
  Sending n w =
      RowIs id h submitting AnyTx w.db × (n ≡ v.count w.env) × (v.on_chain h w.env ≡ false)

  abbrev pub Landed : ℕ → World E → Type 0
  Landed t w =
      RowIs id h submitting AnyTx w.db × (v.on_chain h w.env ≡ true) × (v.writes t h ≡ true)

module _ {E : Type 0} (deps : SubmitDeps E) (v : LiveView E) (answers : SubmitAnswers deps v)
    (id h : ℕ) where
  open answers use {
    alone, reads, finds, submits, enqueues, still_rebuild, still_read, still_find, still_enqueue,
  }

  abbrev pub Stop : World E → Type 0
  Stop = Never deps.others alone

  -- Where a step does not throw, its handler is not met.
  pub tried :
      {A B : Type 0} {P : World E → Type 0} {Q : A → World E → Type 0} {Q' : B → World E → Type 0}
      (handle : ChainError → Job E B) (m : Job E A) (next : A → Job E B)
      → Triple P m Q Stop
      → ((a : A) → Triple (Q a) (next a) Q' Stop)
      → Triple P (try_or handle m next) Q' Stop
  tried handle m next tm tn =
      Triple-try_or handle m next tm (λ e. record { at = λ w k. absurd k }) tn

  pub enqueued :
      (t : ℕ)
      → Triple
          (Confirming v id h)
          (call deps.others (deps.enqueue_confirm id t))
          (λ u. Confirming v id h)
          Stop
  enqueued t =
      answered deps.others alone {P = Confirming v id h} (deps.enqueue_confirm id t) λ w k.
        let (u, e) = enqueues id t w.env in (u, e, (k.0, (still_enqueue id t w.env).0 h ∙ k.1))

  pub confirming_now :
      (t at : ℕ)
      → Triple
          (Landed v id h t)
          (statement deps.others (transition id (submitting ∷ []) confirming (sent_patch t at)))
          (λ b. Confirming v id h)
          Stop
  confirming_now t at =
      moved deps.others alone {P = Landed v id h t} {Q = λ b. Confirming v id h} id h submitting
        confirming AnyTx (sent_patch t at) to_confirming refl (λ w k. k.0)
        λ w k.
          let (is, held, wrote) = k in
          let (row, e, st, hash, any) = is in
          let new =
            row_updated id h submitting AnyTx (move confirming (sent_patch t at)) w.db refl
              (λ r. refl) is in
          ((move confirming (sent_patch t at) row, new.0, refl, hash, (t, refl, wrote)), held)

  -- A record that the contract holds is picked up with the transaction that is found.
  recovered_with :
      (f : FoundTx)
      → Triple
          (Landed v id h f.tx_hash)
          (recover_with deps id (some f))
          (λ o. Confirming v id h)
          Stop
  recovered_with f =
      Triple-bind {Q = λ b. Confirming v id h} _ _
        (record { at = λ w k. (confirming_now f.tx_hash (deps.now w.env)).at w k })
        λ b.
          Triple-bind _ _ (enqueued f.tx_hash) (λ u. Triple-pure SubmitOutcome.recovered (λ w k. k))

  abbrev pub Held : World E → Type 0
  Held w = RowIs id h submitting AnyTx w.db × (v.on_chain h w.env ≡ true)

  -- What a look-up has found.
  abbrev FoundIn : Option FoundTx → World E → Type 0
  FoundIn none w = ⊥
  FoundIn (some f) w = Landed v id h f.tx_hash w

  looked_up :
      (o : Option FoundTx)
      → Triple (FoundIn o) (recover_with deps id o) (λ r. Confirming v id h) Stop
  looked_up none = record { at = λ w k. absurd k }
  looked_up (some f) = recovered_with f

  pub recovered : Triple Held (recover deps id h) (λ r. Confirming v id h) Stop
  unfolding recover
  recovered =
      Triple-bind _ _
        (answered deps.others alone {P = Held} {Q = FoundIn} (deps.find_tx_by_record_hash h) λ w k.
          let (f, e, wrote) = finds h w.env k.1 in
          (some f, e, (k.0, (still_find h w.env).0 h ∙ k.1, wrote)))
        looked_up

  pub noted :
      (n : ℕ)
      → Triple
          (Sending v id h n)
          (statement deps.others (patch_in_status id submitting (nonce_patch n)))
          (λ b w. Sending v id h n w × (b ≡ true))
          Stop
  unfolding patch_in_status
  noted n =
      Triple-statement {P = Sending v id h n} deps.others
        (patch_in_status id submitting (nonce_patch n))
        λ w k.
          let (is, next, free) = k in
          let (row, e, st, hash, any) = is in
          let new =
            row_updated id h submitting AnyTx (apply_patch (nonce_patch n)) w.db refl (λ r. refl)
              is in
          rw (alone w.env w.db)
            (((apply_patch (nonce_patch n) row, new.0, st, hash, tt), next, free), new.1)
