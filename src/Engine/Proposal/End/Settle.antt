-- ===== src/Engine/Proposal/End/Settle.antt =====
-- A settlement writes policies, versions and requests, and takes ids: it keeps whatever these leave
-- alone.
use you_fen.Base.{ℕ, Option, none, some, List}
use you_fen.Engine.Tables.{
  ProposalRow, ProposalType, PolicyChangePayload, PolicyRow, PolicyVersionRow, AdvanceRequestRow,
}
use you_fen.Engine.Db.{Db}
use you_fen.Engine.Db.Keeps.{Keeps, Keeps-modify, Keeps-bind, Keeps-pure, Keeps-fresh_id, reads}
use you_fen.Engine.Ports.{Ports}
use you_fen.Engine.Policy.{
  PendingVersionInput, read_policy, update_policy, insert_policy_version, create_pending_version,
}
use you_fen.Engine.Proposal.End.{approve_request, settle_type, settle}

-- `P` does not look at what a settlement writes.
pub record IsBlind (P : Db → Type 0) : Type 0 where
  pub policies : (ps : List PolicyRow) (d : Db) → P d → P (record d { policies = ps })
  pub versions : (vs : List PolicyVersionRow) (d : Db) → P d → P (record d { policy_versions = vs })
  pub requests :
      (qs : List AdvanceRequestRow) (d : Db) → P d → P (record d { advance_requests = qs })
  pub ids : (n : ℕ) (d : Db) → P d → P (record d { next_id = n })

module _ {P : Db → Type 0} (blind : IsBlind P) where
  read_policy-blind : (owner : ℕ) → Keeps P (read_policy owner)
  unfolding read_policy
  read_policy-blind owner = search reads

  update_policy-blind : (owner : ℕ) (f : PolicyRow → PolicyRow) → Keeps P (update_policy owner f)
  unfolding update_policy
  update_policy-blind owner f =
      Keeps-bind _ _ (search reads)
        λ there. Keeps-bind _ _ (search reads) λ _. Keeps-modify _ (λ d p. blind.policies _ d p)

  insert_policy_version-blind :
      (row_of : ℕ → PolicyVersionRow) → Keeps P (insert_policy_version row_of)
  unfolding insert_policy_version
  insert_policy_version-blind row_of = Keeps-bind _ _ (Keeps-fresh_id λ d p. blind.ids _ d p) λ id.
      Keeps-bind _ _ (search reads) λ taken.
        Keeps-bind _ _ (search reads)
          λ _. Keeps-bind _ _ (Keeps-modify _ (λ d p. blind.versions _ d p)) λ _. Keeps-pure _

  create_pending_version-blind :
      (ports : Ports) (i : PendingVersionInput) → Keeps P (create_pending_version ports i)
  unfolding create_pending_version
  create_pending_version-blind ports i =
      search (reads, read_policy-blind, update_policy-blind, insert_policy_version-blind) depth 40

  approve_request-blind :
      (ports : Ports) (o : Option PolicyChangePayload) → Keeps P (approve_request ports o)
  approve_request-blind ports none = search reads
  approve_request-blind ports (some payload) = Keeps-modify _ (λ d p. blind.requests _ d p)

  settle_type-blind :
      (ports : Ports) (p : ProposalRow) (o : Option ProposalType) → Keeps P (settle_type ports p o)
  settle_type-blind ports p none = search reads
  settle_type-blind ports p (some ProposalType.community_decision) = search reads
  settle_type-blind ports p (some ProposalType.token_policy_change) =
      search (reads, create_pending_version-blind) depth 14
  settle_type-blind ports p (some ProposalType.budget_advance) = approve_request-blind ports _
  settle_type-blind ports p (some ProposalType.special_mint) = search reads
  settle_type-blind ports p (some ProposalType.related_party_mint) = search reads
  settle_type-blind ports p (some ProposalType.token_reversal) = search reads

  pub settle-blind : (ports : Ports) (p : ProposalRow) → Keeps P (settle ports p)
  unfolding settle
  settle-blind ports p = settle_type-blind ports p p.type
