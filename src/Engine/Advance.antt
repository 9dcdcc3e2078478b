-- ===== src/Engine/Advance.antt =====
-- lib/engine/advance-service.ts: requests for an advance on the next epoch's budget.
pub mod Requests
pub mod Execute
pub mod Conservation
pub mod Once
use you_fen.Base.{ℕ, Bool, Option, List, ◌==◌, any, find, update_first}
use you_fen.Engine.Errors.{not_found}
use you_fen.Engine.Tables.{AdvanceRequestRow, RequestStatus}
use you_fen.Engine.Db.{Db, Tx, ◌>>=◌, ◌>>◌, gets, require, modify, assert_found}

pub record AdvanceRequestSummary : Type 0 where
  pub request_id : ℕ
  pub status : RequestStatus

-- `loadRequest`
unfoldable pub load_request : ℕ → Tx AdvanceRequestRow
load_request id = do
  row ← gets λ d. find (λ r. r.id == id) d.advance_requests
  require row not_found

-- `tokenAdvanceRequest.update`
unfoldable pub update_request : ℕ → (AdvanceRequestRow → AdvanceRequestRow) → Tx Unit
update_request id change = do
  assert_found (← gets λ d. any (λ r. r.id == id) d.advance_requests)
  modify
      λ d. record d { advance_requests = update_first (λ r. r.id == id) change d.advance_requests }
