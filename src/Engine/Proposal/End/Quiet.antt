-- ===== src/Engine/Proposal/End/Quiet.antt =====
-- A result that is not an approval has no effect but itself.
use you_fen.Base.{ℕ, ◌≡◌, refl, sym, ap, subst, ◌∙◌, Bool, true, false, ◌&&◌, ◌==◌, if◌then◌else◌}
use you_fen.Engine.Errors.{ok}
use you_fen.Engine.Tables.{ProposalRow, approve_option_id}
use you_fen.Engine.Db.{Db, gets, pure}
use you_fen.Engine.Db.Sql.{end_proposal_if_due}
use you_fen.Engine.Db.Keeps.{
  Commits, Keeps, Keeps-bind, Keeps-pure, Keeps-modify, Keeps-fresh_id, reads, >>=-inv, gets-run,
}
use you_fen.Engine.Ports.{Ports, ProposalData, create_pending_record}
use you_fen.Engine.Proposal.{load_proposal, update_proposal, emit, ProposalRecordKind}
use you_fen.Engine.Proposal.End.{is_carried, settle, EndSummary, EndOutcome, conclude, end}
use you_fen.Engine.Proposal.End.Rows.{load_proposal-run, end_proposal_if_due-run}
use you_fen.Engine.Proposal.End.Results.{
  votes_on, summary_of, conclude-run, counts_or_noop, ended_db,
}

-- Requests and policies are as they are in `before`.
abbrev pub IsQuiet : Db → Db → Type 0
IsQuiet before d =
    (d.advance_requests ≡ before.advance_requests)
    × (d.policies ≡ before.policies)
    × (d.policy_versions ≡ before.policy_versions)

-- The result is an approval, with a quorum.
abbrev pub approves : EndSummary → Bool
approves s = s.quorum_met && s.winning_option_id == approve_option_id

emit-IsQuiet :
    (before : Db) (ports : Ports) (k : ProposalRecordKind) (s : ProposalData) (c : ℕ)
    → Keeps (IsQuiet before) (emit ports k s c)
unfolding emit create_pending_record
emit-IsQuiet before ports k s c = search (reads, Keeps-modify, Keeps-fresh_id) depth 14

update_proposal-IsQuiet :
    (before : Db) (id : ℕ) (f : ProposalRow → ProposalRow)
    → Keeps (IsQuiet before) (update_proposal id f)
unfolding update_proposal
update_proposal-IsQuiet before id f = search (reads, Keeps-modify) depth 14

unsettled :
    (before : Db) (ports : Ports) (p : ProposalRow) (b : Bool)
    → b ≡ false
    → Keeps (IsQuiet before) (if b then settle ports p else pure tt)
unsettled before ports p false h = Keeps-pure tt
unsettled before ports p true h = cc

conclude-IsQuiet :
    (ports : Ports) (p : ProposalRow) (d : Db) (o : EndOutcome) (e : Db)
    → is_carried p (votes_on p.id d) ≡ false
    → Commits (conclude ports p) d o e
    → IsQuiet d e
unfolding conclude
conclude-IsQuiet ports p d o e refused run =
    let (votes, d1, r1, k1) = >>=-inv (gets _) _ d o e run in
    let (ev, e1) = gets-run _ votes d d1 r1 in
    (Keeps-bind _ _ (unsettled d ports p (is_carried p votes) (ap (is_carried p) ev ∙ refused)) λ u.
        Keeps-bind _ _ (emit-IsQuiet d ports _ _ _)
          λ record_id. Keeps-bind _ _ (update_proposal-IsQuiet d p.id _) λ w. Keeps-pure _).at
      d1 o e k1 (subst (IsQuiet d) (sym e1) (refl, refl, refl))

-- An end that counts the votes and does not come to an approval with a quorum leaves every advance
-- request, every policy and every pending version as it was.
pub end-IsQuiet :
    (ports : Ports) (id : ℕ) (d : Db) (s : EndSummary) (e : Db)
    → end ports id d ≡ ok (EndOutcome.concluded s, e)
    → approves s ≡ false
    → IsQuiet d e
unfolding end
end-IsQuiet ports id d s e run refused =
    let (p, d1, loaded, k1) = >>=-inv (load_proposal id) _ d _ e run in
    let (here, e1) = load_proposal-run id d p d1 loaded in
    let (moved, d2, ended, k2) = >>=-inv (end_proposal_if_due id ports.now) _ d1 _ e k1 in
    let (n, e2) = end_proposal_if_due-run id ports.now d1 moved d2 ended in
    let count = counts_or_noop ports p moved d2 s e k2 in
    let (record_id, ep, es) = conclude-run ports p d2 _ e count in
    let after : d2 ≡ ended_db id ports.now d = e2 ∙ ap (ended_db id ports.now) e1 in
    let sum : s ≡ summary_of p (votes_on p.id d2) record_id = cc es in
    subst (λ x. IsQuiet x e) after
      (conclude-IsQuiet ports p d2 _ e (sym (ap approves sum) ∙ refused) count)
