-- ===== src/Engine/Proposal/End/Rows.antt =====
-- The row of one proposal, through the statements of an end.
use you_fen.Base.{
  ℕ, ◌≤◌, ◌≡◌, refl, Bool, some, List, [], ◌∷◌, ◌==◌, ◌⊎◌, inl, inr, Bool-cases, length, select,
  find, update_first, update_all, arith,
}
use you_fen.Engine.Tables.{ProposalRow, ProposalStatus}
use you_fen.Engine.Db.{Db, ◌>>=◌}
use you_fen.Engine.Db.Sql.{is_ending, end_proposal_if_due}
use you_fen.Engine.Db.Keeps.{Commits}
use you_fen.Engine.Proposal.{load_proposal, update_proposal}

abbrev pub has_id : ℕ → ProposalRow → Bool
has_id id p = p.id == id

abbrev pub mark_ended : ProposalRow → ProposalRow
mark_ended p = record p { status = ProposalStatus.ended }

pub load_proposal-run :
    (id : ℕ) (d : Db) (p : ProposalRow) (e : Db)
    → Commits (load_proposal id) d p e
    → (find (has_id id) d.proposals ≡ some p) × (e ≡ d)
unfolding load_proposal ◌>>=◌
load_proposal-run id d p e run = ground arith

pub update_proposal-run :
    (id : ℕ) (f : ProposalRow → ProposalRow) (d : Db) (u : Unit) (e : Db)
    → Commits (update_proposal id f) d u e
    → e ≡ record d { proposals = update_first (has_id id) f d.proposals }
unfolding update_proposal ◌>>=◌
update_proposal-run id f d u e run = ground arith

pub end_proposal_if_due-run :
    (id now : ℕ) (d : Db) (n : ℕ) (e : Db)
    → Commits (end_proposal_if_due id now) d n e
    → (n ≡ length (select (is_ending id now) d.proposals))
      × (e ≡ record d { proposals = update_all (is_ending id now) mark_ended d.proposals })
unfolding end_proposal_if_due
end_proposal_if_due-run id now d n e run = (cc, cc)

-- Options and community of a row do not change when it is ended.
pub find-mark_ended :
    (id now : ℕ) (ps : List ProposalRow) (p : ProposalRow)
    → find (has_id id) ps ≡ some p
    → (q : ProposalRow) × (find (has_id id) (update_all (is_ending id now) mark_ended ps) ≡ some q)
      × ((q ≡ p) ⊎ (q ≡ mark_ended p))
find-mark_ended id now [] p h = cc
find-mark_ended id now (x ∷ ps) p h = elim (Bool-cases (x.id == id)) [
  | inl hit ↦ elim (Bool-cases (is_ending id now x)) [
    | inl ends ↦ (mark_ended x, ground arith, inr (ground arith))
    | inr stays ↦ (x, ground arith, inl (ground arith))
  ]
  | inr miss ↦
      let (q, hq, same) = find-mark_ended id now ps p (rw miss at h) in (q, ground arith, same)
]

-- At most one row has the id.
abbrev pub IsOnce : ℕ → List ProposalRow → Type 0
IsOnce id ps = length (select (has_id id) ps) ≤ 1

pub once-update_all :
    (id : ℕ) (hit : ProposalRow → Bool) (f : ProposalRow → ProposalRow) (ps : List ProposalRow)
    → ((p : ProposalRow) → (f p).id ≡ p.id)
    → length (select (has_id id) (update_all hit f ps)) ≡ length (select (has_id id) ps)
once-update_all id hit f [] k = refl
once-update_all id hit f (p ∷ ps) k = ground (arith, k p, once-update_all id hit f ps k)

pub once-update_first :
    (id : ℕ) (hit : ProposalRow → Bool) (f : ProposalRow → ProposalRow) (ps : List ProposalRow)
    → ((p : ProposalRow) → (f p).id ≡ p.id)
    → length (select (has_id id) (update_first hit f ps)) ≡ length (select (has_id id) ps)
once-update_first id hit f [] k = refl
once-update_first id hit f (p ∷ ps) k = ground (arith, k p, once-update_first id hit f ps k)

-- Nothing is left to end.
none_ending :
    (id now : ℕ) (ps : List ProposalRow)
    → length (select (has_id id) ps) ≡ 0
    → (select (is_ending id now) ps ≡ []) × (update_all (is_ending id now) mark_ended ps ≡ ps)
none_ending id now [] h = (refl, refl)
none_ending id now (p ∷ ps) h = ground (arith, none_ending id now ps)

pub recorded_stays :
    (id now : ℕ) (ps : List ProposalRow) (p : ProposalRow)
    → IsOnce id ps
    → find (has_id id) ps ≡ some p
    → p.status ≡ ProposalStatus.recorded
    → (select (is_ending id now) ps ≡ []) × (update_all (is_ending id now) mark_ended ps ≡ ps)
recorded_stays id now [] p one h s = (refl, refl)
recorded_stays id now (x ∷ ps) p one h s =
    ground (arith, recorded_stays id now ps p, none_ending id now ps)
