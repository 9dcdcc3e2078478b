-- ===== src/Jobs/Build/Keeps.antt =====
-- What is built for a record has the hash of the row that was loaded.
use you_fen.Base.{ℕ, ◌≡◌, refl, Bool, true, false, Option, none, some, ◌==◌, ==_iff, find}
use you_fen.Engine.Tables.{terminal_error, PublicRecordRow}
use you_fen.Engine.Db.{Db, gets}
use you_fen.Chain.Records.{get_by_id}
use you_fen.Jobs.{World, Others, call, statement}
use you_fen.Jobs.Keeps.{
  Triple, Triple-pure, Triple-throw, Triple-bind, Triple-statement, Triple-given,
}
use you_fen.Jobs.Build.{
  BuiltEnvelope, SubmittableRecord, Rebuild, to_submittable, submittable_if, build_loaded,
  build_submittable,
}

module _ {E : Type 0} (P : World E → Type 0) (R : PublicRecordRow → Type 0) (others : Others E)
    (rebuild : Rebuild E) (id : ℕ)
    (others-keep : (w : World E) → P w → P (record w { db = others w.env w.db }))
    (knows : (w : World E) (row : PublicRecordRow)
      → P w
      → find (λ r. r.id == id) w.db.records ≡ some row
      → R row)
    (rebuilt : (row : PublicRecordRow) (d : Db)
      → Triple P (call others (rebuild row d)) (λ b. P) P) where
  -- The submittable has the hash of a row with what is known of a row.
  abbrev pub IsBuilt : SubmittableRecord → Type 0
  IsBuilt s = (row : PublicRecordRow) × R row × (s.record_hash ≡ row.record_hash)

  abbrev Loaded : Option PublicRecordRow → Type 0
  Loaded none = Unit
  Loaded (some row) = R row

  fetched :
      (w : World E) (o : Option PublicRecordRow)
      → P w
      → find (λ r. r.id == id) w.db.records ≡ o
      → Loaded o
  fetched w none h e = tt
  fetched w (some row) h e = knows w row h e

  loaded : Triple P (statement others (get_by_id id)) (λ o w. P w × Loaded o) P
  unfolding get_by_id gets
  loaded =
      Triple-statement others (get_by_id id) λ w h.
        let k = others-keep w h in (k, fetched (record w { db = others w.env w.db }) _ k refl)

  checked :
      (row : PublicRecordRow) (built : BuiltEnvelope) (b : Bool)
      → R row
      → (built.record_hash == row.record_hash) ≡ b
      → Triple P (submittable_if id built b) (λ s w. P w × IsBuilt s) P
  checked row built true r e =
      Triple-pure (to_submittable id built)
        λ w h. (h, (row, r, (==_iff built.record_hash row.record_hash).0 e))
  checked row built false r e = Triple-throw terminal_error (λ w h. h)

  put_together :
      (o : Option PublicRecordRow)
      → Loaded o
      → Triple P (build_loaded others rebuild id o) (λ s w. P w × IsBuilt s) P
  put_together none l = Triple-throw terminal_error (λ w h. h)
  put_together (some row) l =
      Triple-bind {Q = λ b. P} _ _ (record { at = λ w h. (rebuilt row w.db).at w h })
        (λ b. checked row b (b.record_hash == row.record_hash) l refl)

  pub build_submittable-IsBuilt :
      Triple P (build_submittable others rebuild id) (λ s w. P w × IsBuilt s) P
  unfolding build_submittable
  build_submittable-IsBuilt =
      Triple-bind _ _ loaded
        λ o. Triple-given _ λ w0 k0. record { at = λ w k. (put_together o k0.1).at w k.0 }
