-- ===== src/Engine/Proposal/End/Again.antt =====
-- An end that is asked for again.
use you_fen.Base.{ℕ, ◌≡◌, refl, ap, ◌∙◌, some, length, select, find}
use you_fen.Engine.Errors.{ok}
use you_fen.Engine.Tables.{ProposalRow, ProposalStatus}
use you_fen.Engine.Db.{Db, ◌>>=◌}
use you_fen.Engine.Db.Sql.{is_ending, end_proposal_if_due}
use you_fen.Engine.Db.Keeps.{>>=-inv}
use you_fen.Engine.Ports.{Ports}
use you_fen.Engine.Proposal.{load_proposal}
use you_fen.Engine.Proposal.End.{EndSummary, EndOutcome, end}
use you_fen.Engine.Proposal.End.Rows.{
  has_id, mark_ended, load_proposal-run, end_proposal_if_due-run, IsOnce, once-update_all,
  once-update_first, recorded_stays,
}
use you_fen.Engine.Proposal.End.Results.{conclude-run, counts_or_noop, ended_db, end-HasResult}

ids_kept :
    (ports : Ports) (id : ℕ) (d : Db) (s : EndSummary) (e : Db)
    → end ports id d ≡ ok (EndOutcome.concluded s, e)
    → length (select (has_id id) e.proposals) ≡ length (select (has_id id) d.proposals)
unfolding end
ids_kept ports id d s e run =
    let (p, d1, loaded, k1) = >>=-inv (load_proposal id) _ d _ e run in
    let (here, e1) = load_proposal-run id d p d1 loaded in
    let (moved, d2, ended, k2) = >>=-inv (end_proposal_if_due id ports.now) _ d1 _ e k1 in
    let (n, e2) = end_proposal_if_due-run id ports.now d1 moved d2 ended in
    let (record_id, ep, es) =
      conclude-run ports p d2 _ e (counts_or_noop ports p moved d2 s e k2) in
    ap (λ ps. length (select (has_id id) ps)) ep
    ∙ (once-update_first id (has_id p.id) _ d2.proposals (λ x. refl)
        ∙ (ap (λ x. length (select (has_id id) x.proposals)) (e2 ∙ ap (ended_db id ports.now) e1)
            ∙ once-update_all id (is_ending id ports.now) mark_ended d.proposals (λ x. refl)))

-- An end of a proposal that is recorded is answered, and changes nothing.
end_recorded :
    (ports : Ports) (id : ℕ) (d : Db) (p : ProposalRow)
    → IsOnce id d.proposals
    → find (has_id id) d.proposals ≡ some p
    → p.status ≡ ProposalStatus.recorded
    → end ports id d ≡ ok (EndOutcome.noop, d)
unfolding end load_proposal end_proposal_if_due ◌>>=◌
end_recorded ports id d p one here st =
    let (none_due, same) = recorded_stays id ports.now d.proposals p one here st in
    rw (here, none_due, same, st) refl

-- After an end that counts the votes, where no other proposal has the id, every later end of the
-- proposal, at whatever time, is answered with a no-op and changes nothing.
pub end-again :
    (ports later : Ports) (id : ℕ) (d : Db) (s : EndSummary) (e : Db)
    → IsOnce id d.proposals
    → end ports id d ≡ ok (EndOutcome.concluded s, e)
    → end later id e ≡ ok (EndOutcome.noop, e)
end-again ports later id d s e one run =
    let (r, here, res) = end-HasResult ports id d s e run in
    end_recorded later id e r (rw (ids_kept ports id d s e run) one) here res.0
