-- ===== src/Engine/Proposal/End/Results.antt =====
-- What an end that counts leaves on record.
use you_fen.Base.{
  ℕ, zero, suc, ◌≡◌, refl, sym, ap, subst, ◌∙◌, ◌⊎◌, inl, inr, true, some, List, [], ◌∷◌, map, ◌==◌,
  length, get_elem?, select, find, find_sound, find-update_first, ==_iff, leb, update_first,
  update_all, arith,
}
use you_fen.Engine.Errors.{ok}
use you_fen.Engine.Tables.{ProposalRow, ProposalStatus, VoteRow}
use you_fen.Engine.Db.{Db, ◌>>=◌, gets}
use you_fen.Engine.Db.Sql.{is_ending, end_proposal_if_due}
use you_fen.Engine.Db.Keeps.{
  Commits, Keeps, Keeps-if, Keeps-pure, Keeps-modify, Keeps-fresh_id, reads, >>=-inv, gets-run,
  ok-value, ok-db,
}
use you_fen.Engine.Ports.{Ports, ProposalData, create_pending_record}
use you_fen.Engine.Proposal.{load_proposal, emit, ProposalRecordKind}
use you_fen.Engine.Proposal.Tally.{tally_votes, resolve_outcome}
use you_fen.Engine.Proposal.End.{
  vote_leaf, record_result, is_carried, EndSummary, EndOutcome, conclude, conclude_if_moved, end,
}
use you_fen.Engine.Proposal.End.Settle.{IsBlind, settle-blind}
use you_fen.Engine.Proposal.End.Rows.{
  has_id, mark_ended, load_proposal-run, update_proposal-run, end_proposal_if_due-run,
  find-mark_ended,
}
use you_fen.Chain.Merkle.{build_merkle_proof, verify_merkle_proof}
use you_fen.Chain.Merkle.Inclusion.{merkle_inclusion}

-- The votes on a proposal.
abbrev pub votes_on : ℕ → Db → List VoteRow
votes_on id d = select (λ v. v.proposal_id == id) d.votes

-- The proposals are these.
abbrev Holds : List ProposalRow → Db → Type 0
Holds ps d = d.proposals ≡ ps

Holds-blind : (ps : List ProposalRow) → IsBlind (Holds ps)
Holds-blind ps = record {
  policies = λ qs d h. h;
  versions = λ vs d h. h;
  requests = λ qs d h. h;
  ids = λ n d h. h;
}

emit-Holds :
    (ps : List ProposalRow) (ports : Ports) (k : ProposalRecordKind) (s : ProposalData) (c : ℕ)
    → Keeps (Holds ps) (emit ports k s c)
unfolding emit create_pending_record
emit-Holds ps ports k s c = search (reads, Keeps-modify, Keeps-fresh_id) depth 14

-- The summary of the votes on a proposal.
abbrev pub summary_of : ProposalRow → List VoteRow → ℕ → EndSummary
summary_of p votes record_id = record {
  winning_option_id = resolve_outcome votes p.options;
  voter_count = length votes;
  total_vote_weight = (tally_votes votes).total_vote_weight;
  quorum_met = leb p.minimum_voter_count (length votes);
  result_record_id = record_id;
}

pub conclude-run :
    (ports : Ports) (p : ProposalRow) (d : Db) (o : EndOutcome) (e : Db)
    → Commits (conclude ports p) d o e
    → (record_id : ℕ) × (e.proposals
        ≡ update_first
            (has_id p.id)
            (record_result ports p (votes_on p.id d) record_id)
            d.proposals)
      × (o ≡ EndOutcome.concluded (summary_of p (votes_on p.id d) record_id))
unfolding conclude
conclude-run ports p d o e run =
    let (votes, d1, r1, k1) = >>=-inv (gets _) _ d o e run in
    let (ev, e1) = gets-run _ votes d d1 r1 in
    let (u, d2, r2, k2) = >>=-inv _ _ d1 o e k1 in
    let h2 =
      (Keeps-if (is_carried p votes) _ _ (settle-blind (Holds-blind d.proposals) ports p)
          (Keeps-pure tt)).at
        d1 u d2 r2 (ap (λ x. x.proposals) e1) in
    let (record_id, d3, r3, k3) = >>=-inv _ _ d2 o e k2 in
    let h3 = (emit-Holds d.proposals ports _ _ _).at d2 record_id d3 r3 h2 in
    let (w, d4, r4, k4) = >>=-inv _ _ d3 o e k3 in
    let e4 = update_proposal-run p.id _ d3 w d4 r4 in
    let put = λ (ps : List ProposalRow).
      update_first (has_id p.id) (record_result ports p votes record_id) ps in
    let put_of = λ (vs : List VoteRow).
      update_first (has_id p.id) (record_result ports p vs record_id) d.proposals in
    (
      record_id,
      sym (ap (λ x. x.proposals) (ok-db _ o d4 e k4))
          ∙ (ap (λ x. x.proposals) e4 ∙ (ap put h3 ∙ ap put_of ev)),
      sym (ok-value _ o d4 e k4)
          ∙ ap (λ (vs : List VoteRow). EndOutcome.concluded (summary_of p vs record_id)) ev,
    )

-- The row of a proposal after an end that counts.
abbrev pub IsResult : Ports → ℕ → List VoteRow → EndSummary → ProposalRow → Type 0
IsResult ports id votes s p =
    (p.status ≡ ProposalStatus.recorded)
    × (s ≡ summary_of p votes s.result_record_id)
    × (p.winning_option_id ≡ some s.winning_option_id)
    × (p.total_vote_weight ≡ some s.total_vote_weight)
    × (p.result_public_record_id ≡ some s.result_record_id)
    × ((index : ℕ) (v : VoteRow)
        → get_elem? votes index ≡ some v
        → (root : ℕ) × (proof : List ℕ) × (p.votes_merkle_root ≡ some root)
          × (build_merkle_proof ports.hash_node (map (vote_leaf ports p.community_id id) votes)
                index
              ≡ some proof)
          × (verify_merkle_proof ports.hash_node (vote_leaf ports p.community_id id v) proof root
              ≡ true))

get_elem?-map :
    {A B : Type 0} (f : A → B) (xs : List A) (i : ℕ) (x : A)
    → get_elem? xs i ≡ some x
    → get_elem? (map f xs) i ≡ some (f x)
get_elem?-map f [] i x h = cc
get_elem?-map f (y ∷ xs) zero x h = cc
get_elem?-map f (y ∷ xs) (suc i) x h = get_elem?-map f xs i x h

record_result-IsResult :
    (ports : Ports) (p q : ProposalRow) (votes : List VoteRow) (record_id : ℕ)
    → (q ≡ p) ⊎ (q ≡ mark_ended p)
    → IsResult ports p.id votes
        (summary_of p votes record_id)
        (record_result ports p votes record_id q)
record_result-IsResult ports p q votes record_id same = (
  refl,
  elim same [ inl e ↦ rw e refl | inr e ↦ rw e refl ],
  refl,
  refl,
  refl,
  λ index v h.
      let (root, proof, er, ep, ef) =
        merkle_inclusion ports.hash_node (map (vote_leaf ports p.community_id p.id) votes) index
          (vote_leaf ports p.community_id p.id v)
          (get_elem?-map (vote_leaf ports p.community_id p.id) votes index v h) in
      let own : q.community_id ≡ p.community_id = elim same [
        | inl e ↦ rw e refl
        | inr e ↦ rw e refl
      ] in
      (root, proof, er, rw own ep, rw own ef),
)

-- The result of a proposal, on the tables `e`.
abbrev pub HasResult : Ports → ℕ → List VoteRow → EndSummary → Db → Type 0
HasResult ports id votes s e =
    (r : ProposalRow) × (find (has_id id) e.proposals ≡ some r) × IsResult ports id votes s r

record_result-HasResult :
    (ports : Ports) (p q : ProposalRow) (d e : Db) (s : EndSummary) (record_id : ℕ)
    → (q ≡ p) ⊎ (q ≡ mark_ended p)
    → find (has_id p.id) d.proposals ≡ some q
    → e.proposals
      ≡ update_first (has_id p.id) (record_result ports p (votes_on p.id d) record_id) d.proposals
    → s ≡ summary_of p (votes_on p.id d) record_id
    → HasResult ports p.id (votes_on p.id d) s e
record_result-HasResult ports p q d e s record_id same here ep es =
    let votes = votes_on p.id d in
    let r = record_result ports p votes record_id q in
    (
      r,
      ap (find (has_id p.id)) ep
          ∙ find-update_first (has_id p.id) (record_result ports p votes record_id) d.proposals q
              here (find_sound (has_id p.id) d.proposals q here),
      subst (λ x. IsResult ports p.id votes x r) (sym es)
          (record_result-IsResult ports p q votes record_id same),
    )

conclude-HasResult :
    (ports : Ports) (p q : ProposalRow) (d : Db) (s : EndSummary) (e : Db)
    → (q ≡ p) ⊎ (q ≡ mark_ended p)
    → find (has_id p.id) d.proposals ≡ some q
    → Commits (conclude ports p) d (EndOutcome.concluded s) e
    → HasResult ports p.id (votes_on p.id d) s e
conclude-HasResult ports p q d s e same here run =
    let (record_id, ep, es) = conclude-run ports p d _ e run in
    record_result-HasResult ports p q d e s record_id same here ep (cc es)

-- The same, where the proposal was looked up by `id` and `before` has the same votes.
conclude_at :
    (ports : Ports) (id : ℕ) (p q : ProposalRow) (before d : Db) (s : EndSummary) (e : Db)
    → p.id ≡ id
    → (q ≡ p) ⊎ (q ≡ mark_ended p)
    → find (has_id id) d.proposals ≡ some q
    → d.votes ≡ before.votes
    → Commits (conclude ports p) d (EndOutcome.concluded s) e
    → HasResult ports id (votes_on id before) s e
conclude_at ports id p q before d s e pid same here votes run =
    subst (λ vs. HasResult ports id (select (λ v. v.proposal_id == id) vs) s e) votes
      (subst (λ k. HasResult ports k (votes_on k d) s e) pid
        (conclude-HasResult ports p q d s e same
          (subst (λ k. find (has_id k) d.proposals ≡ some q) (sym pid) here) run))

-- The tables that the conditional update leaves.
abbrev pub ended_db : ℕ → ℕ → Db → Db
ended_db id now d = record d { proposals = update_all (is_ending id now) mark_ended d.proposals }

-- The count that an end comes to, unless nothing was due.
pub counts_or_noop :
    (ports : Ports) (p : ProposalRow) (moved : ℕ) (d : Db) (s : EndSummary) (e : Db)
    → Commits (conclude_if_moved ports p moved) d (EndOutcome.concluded s) e
    → Commits (conclude ports p) d (EndOutcome.concluded s) e
unfolding ◌>>=◌
counts_or_noop ports p moved d s e run = ground arith

-- An end that counts the votes, whatever the tables are: it leaves the proposal recorded, with the
-- outcome, the total and the record that it answers with; these are the outcome and the total of
-- the votes on the proposal; and every vote has a proof against the root that is stored.
pub end-HasResult :
    (ports : Ports) (id : ℕ) (d : Db) (s : EndSummary) (e : Db)
    → end ports id d ≡ ok (EndOutcome.concluded s, e)
    → HasResult ports id (votes_on id d) s e
unfolding end
end-HasResult ports id d s e run =
    let (p, d1, loaded, k1) = >>=-inv (load_proposal id) _ d _ e run in
    let (here, e1) = load_proposal-run id d p d1 loaded in
    let (moved, d2, ended, k2) = >>=-inv (end_proposal_if_due id ports.now) _ d1 _ e k1 in
    let (n, e2) = end_proposal_if_due-run id ports.now d1 moved d2 ended in
    let (q, there, same) = find-mark_ended id ports.now d.proposals p here in
    let pid : p.id ≡ id = (==_iff p.id id).0 (find_sound (has_id id) d.proposals p here) in
    let after : d2 ≡ ended_db id ports.now d = e2 ∙ ap (ended_db id ports.now) e1 in
    conclude_at ports id p q d d2 s e pid same
      (ap (λ x. find (has_id id) x.proposals) after ∙ there) (ap (λ x. x.votes) after)
      (counts_or_noop ports p moved d2 s e k2)
