-- ===== src/Engine/Reversal/Supersede/Frames.antt =====
-- A superseded record changes no total of a community.
use you_fen.Base.{ℕ, Bool, true, false, Option, none, some, List}
use you_fen.Engine.Tables.{ReversalEventRow, VerificationStatus}
use you_fen.Engine.Db.Keeps.{Keeps, Keeps-update, Keeps-bind, Keeps-lift, reads}
use you_fen.Engine.Books.{Totals}
use you_fen.Engine.Books.Steps.{records-Totals}
use you_fen.Chain.Records.{RecordPatch, transition, get_by_id, mark_superseded}
use you_fen.Engine.Reversal.Supersede.{
  supersede_with, supersede_if_verified, supersede_from, finalize_supersede,
}

module _ (c h s m r : ℕ) where
  transition-Keeps :
      (id : ℕ) (from : List VerificationStatus) (to : VerificationStatus) (patch : RecordPatch)
      → Keeps (Totals c h s m r) (transition id from to patch)
  unfolding transition
  transition-Keeps id from to patch =
      Keeps-bind _ _ (Keeps-lift _) λ u. Keeps-update _ _ (λ d t. records-Totals c h s m r d _ t)

  mark_superseded-Keeps : (a b : ℕ) → Keeps (Totals c h s m r) (mark_superseded a b)
  unfolding mark_superseded
  mark_superseded-Keeps a b = search (reads, transition-Keeps) depth 14

  supersede_with-Keeps : (a : ℕ) (o : Option ℕ) → Keeps (Totals c h s m r) (supersede_with a o)
  supersede_with-Keeps a none = search reads
  supersede_with-Keeps a (some b) = search (reads, mark_superseded-Keeps) depth 14

  supersede_if_verified-Keeps :
      (a b : ℕ) (v : Bool) → Keeps (Totals c h s m r) (supersede_if_verified a b v)
  supersede_if_verified-Keeps a b false = search reads
  supersede_if_verified-Keeps a b true = search (reads, supersede_with-Keeps) depth 14

  supersede_from-Keeps :
      (rev : ReversalEventRow) (o : Option ℕ) → Keeps (Totals c h s m r) (supersede_from rev o)
  unfolding get_by_id
  supersede_from-Keeps rev none = search reads
  supersede_from-Keeps rev (some id) = search (reads, supersede_if_verified-Keeps) depth 14

  pub finalize_supersede-Keeps : (id : ℕ) → Keeps (Totals c h s m r) (finalize_supersede id)
  unfolding finalize_supersede
  finalize_supersede-Keeps id = search (reads, supersede_from-Keeps) depth 14
