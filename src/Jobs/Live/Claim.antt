-- ===== src/Jobs/Live/Claim.antt =====
-- The submit job of a record that is pending claims it, builds its submittable and leaves it confirming.
use you_fen.Base.{
  ℕ, ◌≡◌, refl, sym, ◌∙◌, Bool, true, false, Option, none, some, ◌==◌, ==_iff, ap, arith,
}
use you_fen.Engine.Tables.{pending, submitting, PublicRecordRow}
use you_fen.Engine.Db.{Db, gets}
use you_fen.Chain.Records.{empty_patch, move, get_by_id}
use you_fen.Jobs.{World, returned, call, statement}
use you_fen.Jobs.Keeps.{Triple, Triple-pure, Triple-bind, Triple-statement, Triple-given}
use you_fen.Jobs.Build.{
  BuiltEnvelope, to_submittable, submittable_if, build_loaded, build_submittable,
}
use you_fen.Jobs.Submit.{SubmitDeps, attempt, attempt_if, process_submit_job}
use you_fen.Jobs.Submit.Rows.{to_submitting}
use you_fen.Jobs.Live.{LiveView, SubmitAnswers, RowIs, row_of, row_updated, answered, moved}
use you_fen.Jobs.Live.Steps.{AnyTx, claimed_db, Confirming, Submitting, Stop, tried}
use you_fen.Jobs.Live.Submit.{looked, went_on}

-- The source of the record has not drifted: over the tables it rebuilds to the hash of the row that is
-- loaded.
abbrev pub IsUndrifted : {E : Type 0} → SubmitDeps E → ℕ → Db → Type 0
IsUndrifted {E} deps id d =
    (row : PublicRecordRow) (e : E)
    → row_of id d ≡ some row
    → (b : BuiltEnvelope) × ((deps.rebuild row d e).0 ≡ returned b)
      × (b.record_hash ≡ row.record_hash)

module _ {E : Type 0} (deps : SubmitDeps E) (v : LiveView E) (answers : SubmitAnswers deps v)
    (id h : ℕ) (d : Db) (undrifted : IsUndrifted deps id d) where
  open answers use {alone, still_rebuild}

  abbrev Halt : World E → Type 0
  Halt = Stop deps v answers id h

  -- Claimed, with the tables at hand.
  abbrev pub Claimed : World E → Type 0
  Claimed w = Submitting v id h w × (w.db ≡ d)

  loaded :
      Triple Claimed
        (statement deps.others (get_by_id id))
        (λ o w. Claimed w × (row_of id d ≡ o))
        Halt
  unfolding get_by_id gets
  loaded =
      Triple-statement {P = Claimed} deps.others (get_by_id id)
        λ w k. rw (alone w.env w.db) (k, ap (row_of id) (sym k.1))

  rebuilt :
      (row : PublicRecordRow)
      → row_of id d ≡ some row
      → Triple Claimed
          (λ w. call deps.others (deps.rebuild row w.db) w)
          (λ b w. Submitting v id h w × (b.record_hash ≡ row.record_hash))
          Halt
  rebuilt row found = record {
    at = λ w k.
        (answered deps.others alone {P = Claimed}
            {Q = λ b w. Submitting v id h w × (b.record_hash ≡ row.record_hash)}
            (deps.rebuild row w.db)
            λ u l.
              let (b, e, same) = undrifted row u.env found in
              (b, (rw k.1 e), ((l.0.0, (rw (still_rebuild row w.db u.env).1 l.0.1)), same))).at
          w k;
  }

  checked :
      (row : PublicRecordRow) (built : BuiltEnvelope) (b : Bool)
      → row.record_hash ≡ h
      → (built.record_hash == row.record_hash) ≡ b
      → Triple
          (λ w. Submitting v id h w × (built.record_hash ≡ row.record_hash))
          (submittable_if id built b)
          (λ s w. Submitting v id h w × (s.record_hash ≡ h))
          Halt
  checked row built true hash e = Triple-pure (to_submittable id built) (λ w k. (k.0, k.1 ∙ hash))
  checked row built false hash e = record {
    at = λ w k.
        let same = (==_iff built.record_hash row.record_hash).1 k.1 in
        absurd (ground (arith, same, e));
  }

  put_together :
      (o : Option PublicRecordRow)
      → row_of id d ≡ o
      → Triple Claimed
          (build_loaded deps.others deps.rebuild id o)
          (λ s w. Submitting v id h w × (s.record_hash ≡ h))
          Halt
  put_together none found = record {
    at = λ w k.
        let (row, e, st, hash, any) = k.0.0 in
        let there : row_of id d ≡ some row = ap (row_of id) (sym k.1) ∙ e in cc;
  }
  put_together (some row) found = Triple-given _ λ w0 k0.
      let (own, e, st, hash, any) = k0.0.0 in
      let there : row_of id d ≡ some own = ap (row_of id) (sym k0.1) ∙ e in
      let same : row.record_hash ≡ h = ground (arith, there, found, hash) in
      Triple-bind _ _ (rebuilt row found)
        (λ b. checked row b (b.record_hash == row.record_hash) same refl)

  built :
      Triple Claimed
        (build_submittable deps.others deps.rebuild id)
        (λ s w. Submitting v id h w × (s.record_hash ≡ h))
        Halt
  unfolding build_submittable
  built =
      Triple-bind _ _ loaded
        λ o. Triple-given _ λ w0 k0. record { at = λ w k. (put_together o k0.1).at w k.0 }

  attempted : Triple Claimed (attempt deps id) (λ o. Confirming v id h) Halt
  unfolding attempt
  attempted = tried deps v answers id h _ _ _ built λ s. Triple-given _ λ w0 k0. record {
    at = λ w k.
        (tried deps v answers id h _ _ _ (looked deps v answers id h s k0.1)
            (went_on deps v answers id h s k0.1)).at
          w k.0;
  }

  claimed :
      (b : Bool)
      → Triple (λ w. Claimed w × (b ≡ true)) (attempt_if deps id b) (λ o. Confirming v id h) Halt
  claimed true = record { at = λ w k. attempted.at w k.0 }
  claimed false = record { at = λ w k. absurd (ground (arith, k.1)) }

module _ {E : Type 0} (deps : SubmitDeps E) (v : LiveView E) (answers : SubmitAnswers deps v)
    (id h : ℕ) (d : Db) (undrifted : IsUndrifted deps id (claimed_db id d)) where
  open answers use {alone}

  -- Pending, with the tables at hand and the counter of the wallet that of the chain.
  abbrev pub Waiting : World E → Type 0
  Waiting w = RowIs id h pending AnyTx w.db × (w.local_nonce ≡ some (v.count w.env)) × (w.db ≡ d)

  pub submitted_live :
      Triple Waiting
        (process_submit_job deps id)
        (λ o. Confirming v id h)
        (Stop deps v answers id h)
  unfolding process_submit_job
  submitted_live =
      Triple-bind _ _
        (moved deps.others alone {P = Waiting}
          {Q = λ b w. Claimed deps v answers id h (claimed_db id d) undrifted w × (b ≡ true)} id h
          pending submitting AnyTx empty_patch to_submitting refl (λ w k. k.0)
          λ w k.
            let (is, nonce, same) = k in
            let (row, e, st, hash, any) = is in
            let new =
              row_updated id h pending AnyTx (move submitting empty_patch) w.db refl (λ r. refl)
                is in
            (
              (
                ((move submitting empty_patch row, new.0, refl, hash, tt), nonce),
                ap (claimed_db id) same,
              ),
              refl,
            ))
        (claimed deps v answers id h (claimed_db id d) undrifted)
