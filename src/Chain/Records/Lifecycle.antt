-- ===== src/Chain/Records/Lifecycle.antt =====
-- The life of a public record: what one update does to the table, and what sequences of edges reach.
use you_fen.Base.{
  ℕ, ◌≡◌, ◌≢◌, refl, subst, ◌⊎◌, inl, inr, Bool, true, List, [], ◌∷◌, any, update_all, Bool-cases,
  ==_iff, arith,
}
use you_fen.Engine.Errors.{ok}
use you_fen.Engine.Tables.{
  VerificationStatus, verified, superseded, verification, recorded, PublicRecordRow,
}
use you_fen.Engine.Db.{Db, ◌>>=◌}
use you_fen.Engine.Db.Keeps.{Commits}
use you_fen.Chain.Records.{
  RecordPatch, same_status, can_transition, assert_transition, assert_edges, addressed, move,
  transition,
}

-- What a record was created with.
abbrev pub SameOrigin : PublicRecordRow → PublicRecordRow → Type 0
SameOrigin r s =
    (s.id ≡ r.id)
    × (s.community_id ≡ r.community_id)
    × (s.record_hash ≡ r.record_hash)
    × (s.source_table ≡ r.source_table)
    × (s.source_id ≡ r.source_id)

-- A row before and after: it is the same, or it is the row of the record and has moved along a legal edge
-- to the status `to`, with its origin.
abbrev pub Moved : ℕ → VerificationStatus → PublicRecordRow → PublicRecordRow → Type 0
Moved id to r s =
    (s ≡ r)
    ⊎ ((x : VerificationStatus) × (r.id ≡ id)
        × (r.status ≡ verification x)
        × (s.status ≡ verification to)
        × (can_transition x to ≡ true)
        × SameOrigin r s)

-- The rows of two tables, one by one.
abbrev pub Rowwise : ℕ → VerificationStatus → List PublicRecordRow → List PublicRecordRow → Type 0
Rowwise id to [] [] = Unit
Rowwise id to (r ∷ rs) (s ∷ ss) = Moved id to r s × Rowwise id to rs ss
Rowwise id to [] (s ∷ ss) = ⊥
Rowwise id to (r ∷ rs) [] = ⊥

same_status_eq : (a b : VerificationStatus) → same_status a b ≡ true → a ≡ b
same_status_eq a b h = ground arith

-- Every status that the update selects has the edge.
edge_of :
    (from : List VerificationStatus) (to x : VerificationStatus)
    → assert_edges from to ≡ ok tt
    → any (same_status x) from ≡ true
    → can_transition x to ≡ true
unfolding assert_transition
edge_of [] to x h k = cc
edge_of (y ∷ from) to x h k = ground (arith, same_status_eq x y, edge_of from to x)

moved :
    (from : List VerificationStatus) (id : ℕ) (to : VerificationStatus) (patch : RecordPatch)
    (r : PublicRecordRow)
    → assert_edges from to ≡ ok tt
    → addressed id from r ≡ true
    → Moved id to r (move to patch r)
moved from id to patch r legal hit =
    elim r.status as (λ st. r.status ≡ st → Moved id to r (move to patch r)) [
      | recorded ↦ λ e. absurd (ground (arith, e))
      | verification x ↦ λ e. inr (
        x,
        (==_iff r.id id).0 (ground (arith, hit)),
        e,
        refl,
        edge_of from to x legal (ground (arith, e)),
        (refl, refl, refl, refl, refl),
      )
    ]
      refl

updated :
    (from : List VerificationStatus) (id : ℕ) (to : VerificationStatus) (patch : RecordPatch)
    (rs : List PublicRecordRow)
    → assert_edges from to ≡ ok tt
    → Rowwise id to rs (update_all (addressed id from) (move to patch) rs)
updated from id to patch [] legal = tt
updated from id to patch (r ∷ rs) legal = elim (Bool-cases (addressed id from r)) [
  | inl e ↦ (rw e (moved from id to patch r legal e), updated from id to patch rs legal)
  | inr e ↦ (rw e (inl refl), updated from id to patch rs legal)
]

transition-run :
    (id : ℕ) (from : List VerificationStatus) (to : VerificationStatus) (patch : RecordPatch)
    (d : Db) (b : Bool) (e : Db)
    → Commits (transition id from to patch) d b e
    → (assert_edges from to ≡ ok tt)
      × (e ≡ record d { records = update_all (addressed id from) (move to patch) d.records })
unfolding transition ◌>>=◌
transition-run id from to patch d b e run = ground arith

-- A transition of a record that commits leaves every row as it was or, where it is that record's, takes
-- it along a legal edge with its id, its community, its hash and its source, adds none and drops none,
-- and changes no other table.
pub transition-Rowwise :
    (id : ℕ) (from : List VerificationStatus) (to : VerificationStatus) (patch : RecordPatch)
    (d : Db) (b : Bool) (e : Db)
    → transition id from to patch d ≡ ok (b, e)
    → Rowwise id to d.records e.records × (e ≡ record d { records = e.records })
transition-Rowwise id from to patch d b e run =
    let (legal, eq) = transition-run id from to patch d b e run in
    rw eq (updated from id to patch d.records legal, refl)

-- Sequences of legal edges.
pub data Life (s : VerificationStatus) : VerificationStatus → Type 0 where
  here : Life s s
  along : {x y : VerificationStatus} → Life s x → can_transition x y ≡ true → Life s y

into_superseded : (x : VerificationStatus) → can_transition x superseded ≡ true → x ≡ verified
unfolding can_transition
into_superseded x edge = ground arith

-- A record that has come to be superseded along legal edges, and was not from the start, has been
-- verified before.
pub superseded-Life :
    (s : VerificationStatus) → Life s superseded → s ≢ superseded → Life s verified
superseded-Life _ Life.here n = absurd (n refl)
superseded-Life s (Life.along {x} p edge) n = subst (Life s) (into_superseded x edge) p
