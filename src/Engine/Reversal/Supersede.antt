-- ===== src/Engine/Reversal/Supersede.antt =====
-- `finalizeSupersede` of lib/engine/reversal-service.ts: once the record of a reversal is verified, it
-- supersedes the record of the mint.
pub mod Frames
use you_fen.Base.{ℕ, Bool, true, false, Option, none, some, ◌==◌, find}
use you_fen.Engine.Errors.{not_found}
use you_fen.Engine.Tables.{
  ReversalEventRow, MintEventRow, PublicRecordRow, RecordStatus, verification, verified,
}
use you_fen.Engine.Db.{Db, Tx, ◌>>=◌, ◌>>◌, pure, gets, require}
use you_fen.Chain.Records.{get_by_id, mark_superseded}

abbrev pub is_verified : RecordStatus → Bool
is_verified (verification verified) = true
is_verified _ = false

abbrev pub record_of_mint : Option MintEventRow → Option ℕ
record_of_mint none = none
record_of_mint (some m) = m.public_record_id

-- The last step, with the record of the mint, if there is one.
abbrev pub supersede_with : ℕ → Option ℕ → Tx Bool
supersede_with reversal_record_id none = pure false
supersede_with reversal_record_id (some mint_record_id) = do
  mark_superseded mint_record_id reversal_record_id
  pure true

abbrev pub verified_record : Option PublicRecordRow → Bool
verified_record none = false
verified_record (some r) = is_verified r.status

abbrev pub supersede_if_verified : ℕ → ℕ → Bool → Tx Bool
supersede_if_verified original_id reversal_record_id false = pure false
supersede_if_verified original_id reversal_record_id true = do
  mint ← gets λ d. find (λ m. m.id == original_id) d.mint_events
  supersede_with reversal_record_id (record_of_mint mint)

abbrev pub supersede_from : ReversalEventRow → Option ℕ → Tx Bool
supersede_from rev none = pure false
supersede_from rev (some record_id) = do
  row ← get_by_id record_id
  supersede_if_verified rev.original_mint_event_id record_id (verified_record row)

unfoldable pub finalize_supersede : ℕ → Tx Bool
unfolding get_by_id
finalize_supersede reversal_event_id = do
  rev ← require (← gets λ d. find (λ r. r.id == reversal_event_id) d.reversal_events) not_found
  supersede_from rev rev.public_record_id
