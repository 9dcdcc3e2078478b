-- ===== src/Api/Idempotency.antt =====
-- lib/api/core/idempotency.ts: an operation runs once for each key. The store is an interface, which
-- the adapter of the database fills. Endpoints, keys, hashes and texts are numbers.
pub mod Replay
mod Tests
use you_fen.Base.{
  ℕ, ◌≡◌, Bool, true, false, ◌&&◌, Option, none, some, List, [], ◌∷◌, ◌++◌, ◌==◌, leb, ltb, any,
  find, if◌then◌else◌,
}

pub data ApiErrorCode : Type 0 where
  idempotency_key_required idempotency_conflict other : ApiErrorCode

-- The envelope of a response; what it carries is a number.
pub data ApiBody : Type 0 where
  success : ℕ → ApiBody
  failure : ApiErrorCode → ApiBody

pub record ApiResult : Type 0 where
  pub status : ℕ
  pub body : ApiBody

-- `fail`, whose message is not kept.
abbrev pub fail : ℕ → ApiErrorCode → ApiResult
fail status code = record { status = status; body = ApiBody.failure code }

pub record IdempotencyRow : Type 0 where
  pub request_hash : ℕ
  pub response_status : ℕ
  pub response_body : ApiBody

pub record IdempotencyStore (S : Type 0) : Type 0 where
  pub find_row : ℕ → ℕ → S → Option IdempotencyRow
  pub save_row : ℕ → ℕ → IdempotencyRow → S → S

-- What a handler relies on: a row that is saved is found, and no row is lost or changed.
pub record IsLawful {S : Type 0} (store : IdempotencyStore S) : Type 0 where
  pub saved :
      (endpoint key : ℕ) (row : IdempotencyRow) (s : S)
      → store.find_row endpoint key s ≡ none
      → store.find_row endpoint key (store.save_row endpoint key row s) ≡ some row
  pub kept :
      (endpoint key endpoint' key' : ℕ) (row row' : IdempotencyRow) (s : S)
      → store.find_row endpoint key s ≡ some row
      → store.find_row endpoint key (store.save_row endpoint' key' row' s) ≡ some row

pub record IdempotencyContext : Type 0 where
  pub endpoint : ℕ
  pub key : Option ℕ
  pub request_hash : ℕ

-- What an operation ends with.
pub data RunOutcome : Type 0 where
  returned : ApiResult → RunOutcome
  thrown : RunOutcome

abbrev pub is_success : ℕ → Bool
is_success status = leb 200 status && ltb status 300

-- The row of a result.
abbrev pub result_row : IdempotencyContext → ApiResult → IdempotencyRow
result_row ctx r = record {
  request_hash = ctx.request_hash;
  response_status = r.status;
  response_body = r.body;
}

module _ {S W : Type 0} (store : IdempotencyStore S) where
  -- A result is saved if it is a success; an operation that throws saves nothing.
  abbrev pub save_success : IdempotencyContext → ℕ → S → RunOutcome × W → RunOutcome × (S × W)
  save_success ctx key s (RunOutcome.thrown, w) = (RunOutcome.thrown, (s, w))
  save_success ctx key s (RunOutcome.returned r, w) = (
    RunOutcome.returned r,
    (if is_success r.status then store.save_row ctx.endpoint key (result_row ctx r) s else s, w),
  )

  -- The answer for the row that was found.
  abbrev pub replay_or_run :
      IdempotencyContext
      → ℕ
      → (W → RunOutcome × W)
      → Option IdempotencyRow
      → S
      → W
      → RunOutcome × (S × W)
  replay_or_run ctx key run (some existing) s w =
      if existing.request_hash == ctx.request_hash
      then (
        RunOutcome.returned
            (record { status = existing.response_status; body = existing.response_body }),
        (s, w),
      )
      else (RunOutcome.returned (fail 409 ApiErrorCode.idempotency_conflict), (s, w))
  replay_or_run ctx key run none s w = save_success ctx key s (run w)

  abbrev pub with_key :
      IdempotencyContext → (W → RunOutcome × W) → Option ℕ → S → W → RunOutcome × (S × W)
  with_key ctx run none s w =
      (RunOutcome.returned (fail 400 ApiErrorCode.idempotency_key_required), (s, w))
  with_key ctx run (some key) s w =
      replay_or_run ctx key run (store.find_row ctx.endpoint key s) s w

  -- `withIdempotency`, on a store and the state that the operation changes.
  unfoldable pub with_idempotency :
      IdempotencyContext → (W → RunOutcome × W) → S → W → RunOutcome × (S × W)
  with_idempotency ctx run s w = with_key ctx run ctx.key s w

-- The row of the table, whose body is a text.
pub record KeyRow : Type 0 where
  pub endpoint : ℕ
  pub key : ℕ
  pub request_hash : ℕ
  pub response_status : ℕ
  pub response_body : ℕ

-- JSON.stringify and JSON.parse.
pub record Json : Type 0 where
  pub stringify : ApiBody → ℕ
  pub parse : ℕ → ApiBody

abbrev pub is_key : ℕ → ℕ → KeyRow → Bool
is_key endpoint key r = r.endpoint == endpoint && r.key == key

abbrev pub row_of : Json → Option KeyRow → Option IdempotencyRow
row_of json none = none
row_of json (some r) = some (record {
  request_hash = r.request_hash;
  response_status = r.response_status;
  response_body = json.parse r.response_body;
})

abbrev pub new_row : Json → ℕ → ℕ → IdempotencyRow → KeyRow
new_row json endpoint key row = record {
  endpoint = endpoint;
  key = key;
  request_hash = row.request_hash;
  response_status = row.response_status;
  response_body = json.stringify row.response_body;
}

-- `find` and `save` of `createPrismaIdempotencyStore`; a row that is there already is left.
unfoldable pub find_key : Json → ℕ → ℕ → List KeyRow → Option IdempotencyRow
find_key json endpoint key rows = row_of json (find (is_key endpoint key) rows)

unfoldable pub save_key : Json → ℕ → ℕ → IdempotencyRow → List KeyRow → List KeyRow
save_key json endpoint key row rows =
    if any (is_key endpoint key) rows then rows else rows ++ new_row json endpoint key row ∷ []

abbrev pub prisma_store : Json → IdempotencyStore (List KeyRow)
prisma_store json = record { find_row = find_key json; save_row = save_key json }
