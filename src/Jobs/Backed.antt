-- ===== src/Jobs/Backed.antt =====
-- What the workers of lib/blockchain/queue must keep: a record that counts as verified is on the chain.
pub mod Submit
pub mod Confirm
pub mod Reconcile
pub mod System
mod Tests
use you_fen.Base.{
  find, All-find, find_sound, ==_iff, ℕ, ◌≡◌, refl, ◌∙◌, ap, Bool, true, false, ◌&&◌, Option, none,
  some, List, [], ◌∷◌, ◌==◌, All, All-update_all, update_all, select, length, ltb, Bool-cases, ◌⊎◌,
  inl, inr, arith,
}
use you_fen.Engine.Errors.{Failure, Result, ok, err}
use you_fen.Engine.Tables.{
  VerificationStatus, verified, RecordStatus, verification, PublicRecordRow,
}
use you_fen.Engine.Db.{Db, Tx, lift, ◌>>=◌}
use you_fen.Chain.Records.{
  RecordPatch, patched, apply_patch, addressed, move, assert_transition, assert_edges, transition,
  patch_in_status,
}
use you_fen.Jobs.{World, Job, Port, Others, Outcome, returned, thrown, call, statement, committed}
use you_fen.Jobs.Keeps.{Triple, Post, Post-kept, Triple-call, Triple-statement}

-- What is said of the world outside: which hashes the contract holds, and which hash a transaction
-- writes. `hash_of` is the hash that a record was created with.
pub record ChainView (E : Type 0) : Type 0 where
  pub on_chain : ℕ → E → Bool
  pub writes : ℕ → ℕ → Bool
  pub hash_of : ℕ → ℕ

Result-cases : {A : Type 0} (r : Result A) → ((a : A) × (r ≡ ok a)) ⊎ ((f : Failure) × (r ≡ err f))
Result-cases (ok a) = inl (a, refl)
Result-cases (err f) = inr (f, refl)

-- A transition commits, or throws for an edge that is not legal.
transition-cases :
    (id : ℕ) (from : List VerificationStatus) (to : VerificationStatus) (patch : RecordPatch)
    (d : Db)
    → (transition id from to patch d
        ≡ ok (
          ltb 0 (length (select (addressed id from) d.records)),
          record d { records = update_all (addressed id from) (move to patch) d.records },
        ))
      ⊎ ((f : Failure) × (transition id from to patch d ≡ err f))
unfolding transition lift ◌>>=◌
transition-cases id from to patch d = elim (Result-cases (assert_edges from to)) [
  | inl (u, e) ↦ inl (rw e refl)
  | inr (f, e) ↦ inr (f, rw e refl)
]

module _ {E : Type 0} (v : ChainView E) where
  -- The hash of a row is the one that it was created with, and its transaction writes that hash.
  abbrev pub IsTied : PublicRecordRow → Type 0
  IsTied r =
      (r.record_hash ≡ v.hash_of r.id)
      × ((t : ℕ) → r.tx_hash ≡ some t → v.writes t r.record_hash ≡ true)

  abbrev pub IsBackedRow : E → PublicRecordRow → Type 0
  IsBackedRow e r =
      IsTied r × (r.status ≡ verification verified → v.on_chain r.record_hash e ≡ true)

  -- Every verified record is on the chain.
  abbrev pub IsBacked : World E → Type 0
  IsBacked w = All (IsBackedRow w.env) w.db.records

  -- What the contract holds stays there.
  abbrev pub Grows : {A : Type 0} → Port E A → Type 0
  Grows port = (h : ℕ) (e : E) → v.on_chain h e ≡ true → v.on_chain h (port e).1 ≡ true

  -- The other workers keep to the same.
  abbrev pub KeepsBacked : Others E → Type 0
  KeepsBacked others =
      (e : E) (d : Db) → All (IsBackedRow e) d.records → All (IsBackedRow e) (others e d).records

  pub All-later :
      (e f : E) (rs : List PublicRecordRow)
      → ((h : ℕ) → v.on_chain h e ≡ true → v.on_chain h f ≡ true)
      → All (IsBackedRow e) rs
      → All (IsBackedRow f) rs
  All-later e f [] grow h = tt
  All-later e f (r ∷ rs) grow h =
      (((h.0).0, λ s. grow r.record_hash ((h.0).1 s)), All-later e f rs grow h.1)

  -- A row that is loaded has the hash that the record was created with.
  pub loaded_hash :
      (id : ℕ) (e : E) (rs : List PublicRecordRow) (row : PublicRecordRow)
      → All (IsBackedRow e) rs
      → find (λ r. r.id == id) rs ≡ some row
      → row.record_hash ≡ v.hash_of id
  loaded_hash id e rs row h k =
      ((All-find (IsBackedRow e) (λ r. r.id == id) rs row k h).0).0
      ∙ ap v.hash_of ((==_iff row.id id).0 (find_sound (λ r. r.id == id) rs row k))

  tied_patch :
      (id : ℕ) (patch : Option ℕ) (r : PublicRecordRow)
      → r.id ≡ id
      → ((t : ℕ) → patch ≡ some t → v.writes t (v.hash_of id) ≡ true)
      → IsTied r
      → (t : ℕ) → patched patch r.tx_hash ≡ some t
      → v.writes t r.record_hash ≡ true
  tied_patch id none r same ties tied t e = tied.1 t e
  tied_patch id (some u) r same ties tied t e = rw (tied.0, same) (ties t e)

  -- A move of the rows of a record keeps them backed, if its patch names a transaction that writes the
  -- hash, and if the hash is on the chain where the rows become verified.
  same_id :
      (id : ℕ) (from : List VerificationStatus) (r : PublicRecordRow)
      → addressed id from r ≡ true
      → r.id ≡ id
  same_id id from r h = ground arith

  patched_row :
      (e : E) (id : ℕ) (from : List VerificationStatus) (patch : RecordPatch)
      → ((t : ℕ) → patch.tx_hash ≡ some t → v.writes t (v.hash_of id) ≡ true)
      → (r : PublicRecordRow) → addressed id from r ≡ true
      → IsBackedRow e r
      → IsBackedRow e (apply_patch patch r)
  patched_row e id from patch ties r hit h =
      (((h.0).0, tied_patch id patch.tx_hash r (same_id id from r hit) ties h.0), λ s. h.1 s)

  module _ (e : E) (id : ℕ) (from : List VerificationStatus) (to : VerificationStatus)
      (patch : RecordPatch)
      (ties : (t : ℕ) → patch.tx_hash ≡ some t → v.writes t (v.hash_of id) ≡ true)
      (backed : to ≡ verified → v.on_chain (v.hash_of id) e ≡ true) where
    moved :
        (r : PublicRecordRow)
        → addressed id from r ≡ true
        → IsBackedRow e r
        → IsBackedRow e (move to patch r)
    moved r hit h = (
      ((h.0).0, tied_patch id patch.tx_hash r (same_id id from r hit) ties h.0),
      λ s. rw ((h.0).0, same_id id from r hit) (backed (cc)),
    )

  -- Backed, with a fact about the world outside.
  abbrev pub BackedAnd : (E → Type 0) → World E → Type 0
  BackedAnd F w = IsBacked w × F w.env

  abbrev pub Nothing : E → Type 0
  Nothing e = Unit {0}

  module _ (others : Others E) (keeps : KeepsBacked others) where
    -- A call, by what its answer tells.
    pub called :
        {A : Type 0} {F : E → Type 0} (G : A → E → Type 0) (port : Port E A)
        → Grows port
        → ((a : A) (e : E) → F e → (port e).0 ≡ returned a → G a (port e).1)
        → Triple (BackedAnd F) (call others port) (λ a. BackedAnd (G a)) (BackedAnd Nothing)
    called {A} {F} G port grow tells = Triple-call others port λ w h.
        answered w h.1 (port w.env).0 refl (
          keeps (port w.env).1 w.db
            (All-later w.env (port w.env).1 w.db.records (λ k. grow k w.env) h.0))
      where
        answered :
            (w : World E)
            → F w.env
            → (o : Outcome A) → (port w.env).0 ≡ o
            → All (IsBackedRow (port w.env).1) (others (port w.env).1 w.db).records
            → Post
                (λ a. BackedAnd (G a))
                (BackedAnd Nothing)
                (o, record w { db = others (port w.env).1 w.db; env = (port w.env).1 })
        answered w f (returned a) e k = (k, tells a w.env f e)
        answered w f (thrown x) e k = (k, tt)

    pub transition-Backed :
        (F : E → Type 0) (id : ℕ) (from : List VerificationStatus) (to : VerificationStatus)
        (patch : RecordPatch)
        → ((t : ℕ) → patch.tx_hash ≡ some t → v.writes t (v.hash_of id) ≡ true)
        → ((e : E) → F e → to ≡ verified → v.on_chain (v.hash_of id) e ≡ true)
        → Triple
            (BackedAnd F)
            (statement others (transition id from to patch))
            (λ b. BackedAnd F)
            (BackedAnd Nothing)
    transition-Backed F id from to patch ties backed =
        Triple-statement others (transition id from to patch) λ w h.
          elim (transition-cases id from to patch (others w.env w.db)) [
            | inl e ↦ rw e (
              All-update_all (IsBackedRow w.env) (addressed id from) (move to patch)
                  (others w.env w.db).records (moved w.env id from to patch ties (backed w.env h.1))
                  (keeps w.env w.db h.0),
              h.1,
            )
            | inr (f, e) ↦ rw e (keeps w.env w.db h.0, tt)
          ]

    pub patch_in_status-Backed :
        (F : E → Type 0) (id : ℕ) (status : VerificationStatus) (patch : RecordPatch)
        → ((t : ℕ) → patch.tx_hash ≡ some t → v.writes t (v.hash_of id) ≡ true)
        → Triple
            (BackedAnd F)
            (statement others (patch_in_status id status patch))
            (λ b. BackedAnd F)
            (BackedAnd Nothing)
    unfolding patch_in_status
    patch_in_status-Backed F id status patch ties =
        Triple-statement others (patch_in_status id status patch) λ w h. (
          All-update_all (IsBackedRow w.env) (addressed id (status ∷ [])) (apply_patch patch)
              (others w.env w.db).records (λ r. patched_row w.env id (status ∷ []) patch ties r)
              (keeps w.env w.db h.0),
          h.1,
        )
