-- ===== src/Jobs/Live/Confirm.antt =====
-- The confirm job of a record that is confirming leaves it verified, where the contract holds its hash.
use you_fen.Base.{ℕ, ◌≡◌, refl, ◌∙◌, Bool, true, false, Option, none, some, arith}
use you_fen.Engine.Tables.{confirming, verified, PublicRecordRow}
use you_fen.Engine.Db.{gets}
use you_fen.Chain.Records.{can_transition, move, get_by_id}
use you_fen.Jobs.{World, statement}
use you_fen.Jobs.Keeps.{Triple, Triple-pure, Triple-bind, Triple-statement, Triple-given}
use you_fen.Jobs.Confirm.{
  ConfirmDeps, ConfirmOutcome, ConfirmResult, ReceiptStatus, confirmed_patch, verify_if,
  confirm_settle, confirm_row, process_confirm_job,
}
use you_fen.Jobs.Live.{LiveView, ConfirmAnswers, RowIs, row_of, row_updated, Never, answered, moved}
use you_fen.Jobs.Live.Steps.{AnyTx}

to_verified : can_transition confirming verified ≡ true
unfolding can_transition
to_verified = refl

module _ {E : Type 0} (deps : ConfirmDeps E) (v : LiveView E) (answers : ConfirmAnswers deps v)
    (id h t : ℕ) (wrote : v.writes t h ≡ true) where
  open answers use {alone, waits, reads, still_wait}

  abbrev Halt : World E → Type 0
  Halt = Never deps.others alone

  -- Confirming, with the hash held by the contract.
  abbrev pub Waiting : World E → Type 0
  Waiting w = RowIs id h confirming AnyTx w.db × (v.on_chain h w.env ≡ true)

  abbrev pub Verified : World E → Type 0
  Verified w = RowIs id h verified AnyTx w.db

  settled_if :
      (r : ConfirmResult) (b : Bool)
      → Triple
          (λ w. RowIs id h confirming AnyTx w.db × (b ≡ true))
          (verify_if deps id r b)
          (λ o. Verified)
          Halt
  settled_if r false = record { at = λ w k. absurd (ground (arith, k.1)) }
  settled_if r true =
      Triple-bind {Q = λ b. Verified} _ _
        (moved deps.others alone {P = λ w. RowIs id h confirming AnyTx w.db × (true ≡ true)}
          {Q = λ b. Verified} id h confirming verified AnyTx (confirmed_patch r) to_verified refl
          (λ w k. k.0)
          λ w k.
            let (row, e, st, hash, any) = k.0 in
            let new =
              row_updated id h confirming AnyTx (move verified (confirmed_patch r)) w.db refl
                (λ r. refl) k.0 in
            (move verified (confirmed_patch r) row, new.0, refl, hash, tt))
        (λ b. Triple-pure ConfirmOutcome.verified (λ w k. k))

  settled :
      (r : ConfirmResult) (st : ReceiptStatus)
      → Triple
          (λ w. Waiting w × (st ≡ ReceiptStatus.confirmed))
          (confirm_settle deps id h r st)
          (λ o. Verified)
          Halt
  settled r ReceiptStatus.reverted = record { at = λ w k. absurd (ground (arith, k.1)) }
  settled r ReceiptStatus.confirmed =
      Triple-bind {Q = λ b w. RowIs id h confirming AnyTx w.db × (b ≡ true)} _ _
        (record {
          at = λ w k.
              (answered deps.others alone {P = Waiting}
                  {Q = λ b w. RowIs id h confirming AnyTx w.db × (b ≡ true)}
                  (deps.read_chain_record h)
                  λ u l. (v.on_chain h u.env, reads h u.env, (l.0, l.1))).at
                w k.0;
        })
        (settled_if r)

  loaded :
      Triple Waiting
        (statement deps.others (get_by_id id))
        (λ o w. Waiting w × (row_of id w.db ≡ o))
        Halt
  unfolding get_by_id gets
  loaded =
      Triple-statement {P = Waiting} deps.others (get_by_id id)
        λ w k. rw (alone w.env w.db) (k, refl)

  row_confirmed :
      (o : Option PublicRecordRow)
      → Triple
          (λ w. Waiting w × (row_of id w.db ≡ o))
          (confirm_row deps id t o)
          (λ o. Verified)
          Halt
  row_confirmed none = record {
    at = λ w k. let (row, e, st, hash, any) = k.0.0 in let gone : row_of id w.db ≡ none = k.1 in cc;
  }
  row_confirmed (some found) = Triple-given _ λ w0 k0.
      let (row, e, st, hash, any) = k0.0.0 in
      let there : row_of id w0.db ≡ some found = k0.1 in
      let same : found.record_hash ≡ h = ground (arith, there, e, hash) in
      rw same (
        Triple-bind {Q = λ r w. Waiting w × (r.status ≡ ReceiptStatus.confirmed)} _ _
          (record {
            at = λ w k.
                (answered deps.others alone {P = Waiting}
                    {Q = λ r u. Waiting u × (r.status ≡ ReceiptStatus.confirmed)}
                    (deps.wait_for_confirmation t h)
                    λ u l.
                      let (r, e, good) = waits t h u.env wrote l.1 in
                      (r, e, ((l.0, (still_wait t h u.env).0 h ∙ l.1), good))).at
                  w k.0;
          })
          (λ r. settled r r.status))

  pub confirmed_live : Triple Waiting (process_confirm_job deps id t) (λ o. Verified) Halt
  unfolding process_confirm_job
  confirmed_live = Triple-bind _ _ loaded row_confirmed
