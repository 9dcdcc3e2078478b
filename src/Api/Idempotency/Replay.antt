-- ===== src/Api/Idempotency/Replay.antt =====
-- A key is answered once: the store keeps its law, and a handler on a lawful store replays.
use you_fen.Base.{
  if◌then◌else◌, ℕ, ◌≡◌, refl, true, Option, none, some, List, [], ◌∷◌, ◌==◌, find, any-find,
  find-append_none, find-append_some, Option-cases, Bool-cases, inl, inr, arith,
}
use you_fen.Api.Idempotency.{
  ApiErrorCode, ApiBody, ApiResult, fail, IdempotencyRow, IdempotencyStore, IsLawful,
  IdempotencyContext, RunOutcome, is_success, result_row, save_success, replay_or_run, with_key,
  with_idempotency, KeyRow, Json, is_key, find_key, save_key, new_row, prisma_store,
}

module _ (json : Json) (roundtrip : (b : ApiBody) → json.parse (json.stringify b) ≡ b) where
  saved_key :
      (endpoint key : ℕ) (row : IdempotencyRow) (rows : List KeyRow)
      → find_key json endpoint key rows ≡ none
      → find_key json endpoint key (save_key json endpoint key row rows) ≡ some row
  unfolding find_key save_key
  saved_key endpoint key row rows h = ground (
    arith,
    any-find (is_key endpoint key) rows,
    find-append_none (is_key endpoint key) rows (new_row json endpoint key row ∷ []),
    roundtrip row.response_body,
  )

  kept_key :
      (endpoint key endpoint' key' : ℕ) (row row' : IdempotencyRow) (rows : List KeyRow)
      → find_key json endpoint key rows ≡ some row
      → find_key json endpoint key (save_key json endpoint' key' row' rows) ≡ some row
  unfolding find_key save_key
  kept_key endpoint key endpoint' key' row row' rows h =
      elim (Option-cases (find (is_key endpoint key) rows)) [
        | inl missing ↦ cc
        | inr (r, there) ↦ ground (
          arith,
          find-append_some (is_key endpoint key) rows (new_row json endpoint' key' row' ∷ []) r,
        )
      ]

  -- Where parsing undoes stringifying, the table of keys is a lawful store: a row that is saved under
  -- a new key is found as it was, and no row is lost or changed.
  pub prisma_store-IsLawful : IsLawful (prisma_store json)
  prisma_store-IsLawful = record { saved = saved_key; kept = kept_key }

module _ {S W : Type 0} (store : IdempotencyStore S) (lawful : IsLawful store) where
  -- A successful answer is on record.
  saved_answer :
      (ctx : IdempotencyContext) (key : ℕ) (x : RunOutcome × W) (s s' : S) (w' : W) (r : ApiResult)
      → store.find_row ctx.endpoint key s ≡ none
      → save_success store ctx key s x ≡ (RunOutcome.returned r, (s', w'))
      → is_success r.status ≡ true
      → store.find_row ctx.endpoint key s' ≡ some (result_row ctx r)
  saved_answer ctx key (RunOutcome.thrown, v) s s' w' r new h good = cc
  saved_answer ctx key (RunOutcome.returned q, v) s s' w' r new h good =
      ground (arith, lawful.saved ctx.endpoint key (result_row ctx q) s)

  answered :
      (ctx : IdempotencyContext) (key : ℕ) (run : W → RunOutcome × W) (o : Option IdempotencyRow)
      (s s' : S) (w w' : W) (r : ApiResult)
      → store.find_row ctx.endpoint key s ≡ o
      → replay_or_run store ctx key run o s w ≡ (RunOutcome.returned r, (s', w'))
      → is_success r.status ≡ true
      → store.find_row ctx.endpoint key s' ≡ some (result_row ctx r)
  answered ctx key run (some row) s s' w w' r there h good = ground arith
  answered ctx key run none s s' w w' r there h good =
      saved_answer ctx key (run w) s s' w' r there h good

  -- On a lawful store: after a call with a key that was answered with a success, a second call with
  -- the same endpoint, key and request is answered alike, whatever its operation is, and neither the
  -- store nor the state that the operation would change is touched.
  pub with_idempotency-replay :
      (ctx : IdempotencyContext) (key : ℕ) (run later : W → RunOutcome × W) (s s' : S) (w w' v : W)
      (r : ApiResult)
      → ctx.key ≡ some key
      → with_idempotency store ctx run s w ≡ (RunOutcome.returned r, (s', w'))
      → is_success r.status ≡ true
      → with_idempotency store ctx later s' v ≡ (RunOutcome.returned r, (s', v))
  unfolding with_idempotency
  with_idempotency-replay ctx key run later s s' w w' v r hk h good =
      let row =
        answered ctx key run (store.find_row ctx.endpoint key s) s s' w w' r refl (rw hk at h)
          good in
      rw (hk, row) (ground arith)

module _ {S W : Type 0} (store : IdempotencyStore S) (lawful : IsLawful store) where
  -- A row survives the call of any context.
  kept_saved :
      (ctx : IdempotencyContext) (endpoint key used : ℕ) (row : IdempotencyRow) (x : RunOutcome × W)
      (s : S)
      → store.find_row endpoint key s ≡ some row
      → store.find_row endpoint key (save_success store ctx used s x).1.0 ≡ some row
  kept_saved ctx endpoint key used row (RunOutcome.thrown, v) s h = h
  kept_saved ctx endpoint key used row (RunOutcome.returned r, v) s h =
      elim (Bool-cases (is_success r.status)) [
        | inl e ↦ rw e (lawful.kept endpoint key ctx.endpoint used row (result_row ctx r) s h)
        | inr e ↦ rw e h
      ]

  kept_found :
      (ctx : IdempotencyContext) (endpoint key used : ℕ) (row : IdempotencyRow)
      (run : W → RunOutcome × W) (o : Option IdempotencyRow) (s : S) (w : W)
      → store.find_row endpoint key s ≡ some row
      → store.find_row endpoint key (replay_or_run store ctx used run o s w).1.0 ≡ some row
  kept_found ctx endpoint key used row run none s w h =
      kept_saved ctx endpoint key used row (run w) s h
  kept_found ctx endpoint key used row run (some there) s w h =
      elim (Bool-cases (there.request_hash == ctx.request_hash)) [ inl e ↦ rw e h | inr e ↦ rw e h ]

  kept_call :
      (ctx : IdempotencyContext) (endpoint key : ℕ) (row : IdempotencyRow)
      (run : W → RunOutcome × W) (o : Option ℕ) (s : S) (w : W)
      → store.find_row endpoint key s ≡ some row
      → store.find_row endpoint key (with_key store ctx run o s w).1.0 ≡ some row
  kept_call ctx endpoint key row run none s w h = h
  kept_call ctx endpoint key row run (some used) s w h =
      kept_found ctx endpoint key used row run (store.find_row ctx.endpoint used s) s w h

  -- Calls one after another, each with a context and an operation of its own.
  abbrev pub run_calls : List (IdempotencyContext × (W → RunOutcome × W)) → S × W → S × W
  run_calls [] (s, w) = (s, w)
  run_calls ((ctx, run) ∷ calls) (s, w) = run_calls calls (with_idempotency store ctx run s w).1

  kept_calls :
      (endpoint key : ℕ) (row : IdempotencyRow)
      (calls : List (IdempotencyContext × (W → RunOutcome × W))) (x : S × W)
      → store.find_row endpoint key x.0 ≡ some row
      → store.find_row endpoint key (run_calls calls x).0 ≡ some row
  unfolding with_idempotency
  kept_calls endpoint key row [] (s, w) h = h
  kept_calls endpoint key row ((ctx, run) ∷ calls) (s, w) h =
      kept_calls endpoint key row calls (with_idempotency store ctx run s w).1
        (kept_call ctx endpoint key row run ctx.key s w h)

  -- On a lawful store: after a call with a key that was answered with a success, and after any
  -- further calls of whatever endpoints, keys and operations, a call with that endpoint and key runs
  -- nothing and changes neither the store nor the state: it is answered with the first answer where its
  -- request is the first one's, and with the status 409 where it is another.
  pub with_idempotency-at_most_once :
      (ctx : IdempotencyContext) (key hash : ℕ) (run later : W → RunOutcome × W)
      (calls : List (IdempotencyContext × (W → RunOutcome × W))) (s s' : S) (w w' : W)
      (r : ApiResult)
      → ctx.key ≡ some key
      → with_idempotency store ctx run s w ≡ (RunOutcome.returned r, (s', w'))
      → is_success r.status ≡ true
      → let x = run_calls calls (s', w') in
        with_idempotency store (record ctx { request_hash = hash }) later x.0 x.1 ≡ (
          RunOutcome.returned
              (if ctx.request_hash == hash then r else fail 409 ApiErrorCode.idempotency_conflict),
          x,
        )
  unfolding with_idempotency
  with_idempotency-at_most_once ctx key hash run later calls s s' w w' r hk h good =
      let first =
        answered store lawful ctx key run (store.find_row ctx.endpoint key s) s s' w w' r refl
          (rw hk at h) good in
      let row = kept_calls ctx.endpoint key (result_row ctx r) calls (s', w') first in
      rw (hk, row)
        (elim (Bool-cases (ctx.request_hash == hash)) [ inl e ↦ rw e refl | inr e ↦ rw e refl ])
