-- ===== src/Engine/Policy/Frames.antt =====
-- The policy service changes no total of a community.
use you_fen.Base.{ℕ, refl, Option, none, some, List}
use you_fen.Engine.Tables.{PolicyRow, PolicyVersionRow}
use you_fen.Engine.Db.{Db}
use you_fen.Engine.Db.Keeps.{Keeps, Keeps-modify, Keeps-bind, Keeps-pure, reads}
use you_fen.Engine.Ports.{Ports}
use you_fen.Engine.Books.{Totals}
use you_fen.Engine.Books.Updates.{Totals-frame}
use you_fen.Engine.Books.Steps.{
  create_pending_record-Keeps, create_db_only_record-Keeps, fresh_id-Keeps,
}
use you_fen.Engine.Policy.{
  PendingVersionInput, read_policy, update_policy, insert_policy_version, create_pending_version,
  activate_version, activate_pending, activate_if_policy, activate_pending_version,
}

module _ (c h s m r : ℕ) where
  policies-Totals :
      (d : Db) (ps : List PolicyRow)
      → Totals c h s m r d
      → Totals c h s m r (record d { policies = ps })
  policies-Totals d ps t = Totals-frame c h s m r d _ t refl refl refl refl refl refl

  versions-Totals :
      (d : Db) (vs : List PolicyVersionRow)
      → Totals c h s m r d
      → Totals c h s m r (record d { policy_versions = vs })
  versions-Totals d vs t = Totals-frame c h s m r d _ t refl refl refl refl refl refl

  read_policy-Keeps : (owner : ℕ) → Keeps (Totals c h s m r) (read_policy owner)
  unfolding read_policy
  read_policy-Keeps owner = search reads

  update_policy-Keeps :
      (owner : ℕ) (f : PolicyRow → PolicyRow) → Keeps (Totals c h s m r) (update_policy owner f)
  unfolding update_policy
  update_policy-Keeps owner f = search (reads, Keeps-modify, policies-Totals) depth 14

  insert_policy_version-Keeps :
      (row_of : ℕ → PolicyVersionRow) → Keeps (Totals c h s m r) (insert_policy_version row_of)
  unfolding insert_policy_version
  insert_policy_version-Keeps row_of = Keeps-bind _ _ (fresh_id-Keeps c h s m r) λ id.
      Keeps-bind _ _ (search reads) λ taken.
        Keeps-bind _ _ (search reads)
          λ u. Keeps-bind _ _ (Keeps-modify _ (λ d t. versions-Totals d _ t)) λ v. Keeps-pure _

  pub create_pending_version-Keeps :
      (ports : Ports) (i : PendingVersionInput)
      → Keeps (Totals c h s m r) (create_pending_version ports i)
  unfolding create_pending_version
  create_pending_version-Keeps ports i =
      search (reads, read_policy-Keeps, update_policy-Keeps, insert_policy_version-Keeps) depth 40

  activate_version-Keeps :
      (ports : Ports) (owner n : ℕ) (p : PolicyRow) (v : ℕ)
      → Keeps (Totals c h s m r) (activate_version ports owner n p v)
  unfolding activate_version
  activate_version-Keeps ports owner n p v =
      search
        (
          reads,
          Keeps-modify,
          versions-Totals,
          update_policy-Keeps,
          create_pending_record-Keeps c h s m r,
          create_db_only_record-Keeps c h s m r,
        )
        depth 40

  activate_pending-Keeps :
      (ports : Ports) (owner n : ℕ) (p : PolicyRow) (o : Option ℕ)
      → Keeps (Totals c h s m r) (activate_pending ports owner n p o)
  activate_pending-Keeps ports owner n p none = search reads
  activate_pending-Keeps ports owner n p (some v) = search (reads, activate_version-Keeps) depth 14

  activate_if_policy-Keeps :
      (ports : Ports) (owner n : ℕ) (o : Option PolicyRow)
      → Keeps (Totals c h s m r) (activate_if_policy ports owner n o)
  activate_if_policy-Keeps ports owner n none = search reads
  activate_if_policy-Keeps ports owner n (some p) =
      activate_pending-Keeps ports owner n p p.pending_policy_version_id

  pub activate_pending_version-Keeps :
      (ports : Ports) (owner n : ℕ)
      → Keeps (Totals c h s m r) (activate_pending_version ports owner n)
  unfolding activate_pending_version
  activate_pending_version-Keeps ports owner n =
      search (reads, read_policy-Keeps, activate_if_policy-Keeps) depth 14
