-- ===== src/Api/Idempotency/Tests.antt =====
-- A request that is sent twice.
use you_fen.Base.{ℕ, ◌+◌, ◌-◌, ◌≡◌, refl, some, List, [], ◌∷◌, ◌==◌, if◌then◌else◌, arith}
use you_fen.Api.Idempotency.{
  ApiErrorCode, ApiBody, ApiResult, fail, IdempotencyContext, IsLawful, RunOutcome,
  with_idempotency, KeyRow, Json, find_key, save_key, prisma_store,
}
use you_fen.Api.Idempotency.Replay.{
  prisma_store-IsLawful, with_idempotency-replay, run_calls, with_idempotency-at_most_once,
}

-- Texts for bodies: a code, or a number above the codes.
abbrev test_stringify : ApiBody → ℕ
test_stringify (ApiBody.failure ApiErrorCode.idempotency_key_required) = 0
test_stringify (ApiBody.failure ApiErrorCode.idempotency_conflict) = 1
test_stringify (ApiBody.failure ApiErrorCode.other) = 2
test_stringify (ApiBody.success n) = n + 3

abbrev test_parse : ℕ → ApiBody
test_parse n =
    if n == 0
    then ApiBody.failure ApiErrorCode.idempotency_key_required
    else if n == 1
    then ApiBody.failure ApiErrorCode.idempotency_conflict
    else if n == 2
    then ApiBody.failure ApiErrorCode.other
    else ApiBody.success (n - 3)

abbrev test_json : Json
test_json = record { stringify = test_stringify; parse = test_parse }

test_roundtrip : (b : ApiBody) → test_json.parse (test_json.stringify b) ≡ b
test_roundtrip (ApiBody.failure ApiErrorCode.idempotency_key_required) = refl
test_roundtrip (ApiBody.failure ApiErrorCode.idempotency_conflict) = refl
test_roundtrip (ApiBody.failure ApiErrorCode.other) = refl
test_roundtrip (ApiBody.success n) = ground arith

prisma_store-IsLawful_example : IsLawful (prisma_store test_json)
prisma_store-IsLawful_example = prisma_store-IsLawful test_json test_roundtrip

-- An operation that counts its runs.
abbrev count_run : ℕ → RunOutcome × ℕ
count_run n = (RunOutcome.returned (record { status = 201; body = ApiBody.success n }), n + 1)

abbrev test_context : IdempotencyContext
test_context = record { endpoint = 1; key = some 5; request_hash = 77 }

abbrev first_answer : ApiResult
first_answer = record { status = 201; body = ApiBody.success 8 }

abbrev kept_rows : List KeyRow
kept_rows =
    record { endpoint = 1; key = 5; request_hash = 77; response_status = 201; response_body = 11 }
    ∷ []

first_call :
    with_idempotency (prisma_store test_json) test_context count_run [] 8
    ≡ (RunOutcome.returned first_answer, (kept_rows, 9))
unfolding with_idempotency find_key save_key
first_call = refl

with_idempotency-replay_example :
    with_idempotency (prisma_store test_json) test_context count_run kept_rows 9
    ≡ (RunOutcome.returned first_answer, (kept_rows, 9))
with_idempotency-replay_example =
    with_idempotency-replay (prisma_store test_json) prisma_store-IsLawful_example test_context 5
      count_run count_run [] kept_rows 8 9 9 first_answer refl first_call refl

-- A call of another endpoint in between.
abbrev other_calls : List (IdempotencyContext × (ℕ → RunOutcome × ℕ))
other_calls = (record { endpoint = 2; key = some 5; request_hash = 4 }, count_run) ∷ []

abbrev between : List KeyRow × ℕ
between =
    run_calls (prisma_store test_json) prisma_store-IsLawful_example other_calls (kept_rows, 9)

with_idempotency-at_most_once_example :
    with_idempotency
      (prisma_store test_json)
      (record test_context { request_hash = 78 })
      count_run
      between.0
      between.1
    ≡ (
      RunOutcome.returned
          (if 77 == 78 then first_answer else fail 409 ApiErrorCode.idempotency_conflict),
      between,
    )
with_idempotency-at_most_once_example =
    with_idempotency-at_most_once (prisma_store test_json) prisma_store-IsLawful_example
      test_context 5 78 count_run count_run other_calls [] kept_rows 8 9 first_answer refl
      first_call refl
