-- ===== src/Jobs/Submit/Rows.antt =====
-- The rows of a record that are being submitted, before and after a statement.
use you_fen.Base.{
  ℕ, ◌≡◌, refl, inl, inr, Bool, true, false, List, [], ◌∷◌, ltb, length, select, update_all, All,
  Bool-cases, arith,
}
use you_fen.Engine.Errors.{ok}
use you_fen.Engine.Tables.{VerificationStatus, pending, submitting, confirming, PublicRecordRow}
use you_fen.Engine.Db.{Db, ◌>>=◌}
use you_fen.Chain.Records.{
  RecordPatch, addressed, same_status, can_transition, assert_transition, move, transition,
}

-- No row of the record is being submitted.
abbrev pub IsFree : ℕ → Db → Type 0
IsFree id d = All (λ r. addressed id (submitting ∷ []) r ≡ false) d.records

pub moved-IsFree :
    (id : ℕ) (to : VerificationStatus) (patch : RecordPatch) (rs : List PublicRecordRow)
    → same_status to submitting ≡ false
    → All
        (λ r. addressed id (submitting ∷ []) r ≡ false)
        (update_all (addressed id (submitting ∷ [])) (move to patch) rs)
moved-IsFree id to patch [] ne = tt
moved-IsFree id to patch (r ∷ rs) ne = elim (Bool-cases (addressed id (submitting ∷ []) r)) [
  | inl e ↦ (rw e ground (arith, e, ne), moved-IsFree id to patch rs ne)
  | inr e ↦ (rw e e, moved-IsFree id to patch rs ne)
]

-- Where no row was met, none was being submitted.
pub unmet-IsFree :
    (id : ℕ) (rs : List PublicRecordRow)
    → ltb 0 (length (select (addressed id (submitting ∷ [])) rs)) ≡ false
    → All (λ r. addressed id (submitting ∷ []) r ≡ false) rs
unmet-IsFree id [] h = tt
unmet-IsFree id (r ∷ rs) h = elim (Bool-cases (addressed id (submitting ∷ []) r)) [
  | inl e ↦ ground arith
  | inr e ↦ (e, unmet-IsFree id rs (rw e at h))
]

pub unmet-update_all :
    {A : Type 0} (p : A → Bool) (f : A → A) (rs : List A)
    → ltb 0 (length (select p rs)) ≡ false
    → update_all p f rs ≡ rs
unmet-update_all p f [] h = refl
unmet-update_all p f (r ∷ rs) h = ground (arith, unmet-update_all p f rs)

pub transition-run :
    (id : ℕ) (x to : VerificationStatus) (patch : RecordPatch) (d : Db)
    → can_transition x to ≡ true
    → transition id (x ∷ []) to patch d
      ≡ ok (
        ltb 0 (length (select (addressed id (x ∷ [])) d.records)),
        record d { records = update_all (addressed id (x ∷ [])) (move to patch) d.records },
      )
unfolding transition assert_transition ◌>>=◌
transition-run id x to patch d edge = ground (arith, edge)

pub to_pending : can_transition submitting pending ≡ true
unfolding can_transition
to_pending = refl

pub to_submitting : can_transition pending submitting ≡ true
unfolding can_transition
to_submitting = refl

pub to_confirming : can_transition submitting confirming ≡ true
unfolding can_transition
to_confirming = refl

pub to_failed : can_transition submitting VerificationStatus.failed ≡ true
unfolding can_transition
to_failed = refl
