-- ===== src/Jobs/Queue.antt =====
-- lib/blockchain/queue/enqueue.ts, and makeConfirmEnqueuer of confirm-worker.ts: a job is added to a
-- queue that knows each id once, and that keeps jobs which have ended for a while.
mod Tests
use you_fen.Base.{
  ℕ, ◌≡◌, ◌≢◌, ◌⊎◌, refl, Bool, true, false, not, ◌&&◌, Option, none, some, List, [], ◌∷◌, ◌==◌,
  Bool-cases, inl, inr, if◌then◌else◌, arith,
}

pub data JobState : Type 0 where
  active waiting waiting_children delayed prioritized unknown : JobState
  completed failed : JobState

-- `submit:${record.id}:v${record.attemptEpoch}`
pub record JobId : Type 0 where
  pub record_id : ℕ
  pub attempt_epoch : ℕ

abbrev pub same_job : JobId → JobId → Bool
same_job i j = i.record_id == j.record_id && i.attempt_epoch == j.attempt_epoch

-- What the code uses of a queue: the state of a job (`getJob`, then `getState`), `remove` and `add`.
pub record SubmitQueue (Q : Type 0) : Type 0 where
  pub get_state : JobId → Q → Option JobState
  pub remove : JobId → Q → Q
  pub add : JobId → Q → Q

-- An `add` of an id that is there is ignored, and a new job waits.
abbrev pub added : Option JobState → Option JobState
added none = some JobState.waiting
added (some s) = some s

-- The documented behaviour of the queue.
pub record IsLawful {Q : Type 0} (queue : SubmitQueue Q) : Type 0 where
  pub get-add :
      (i j : JobId) (q : Q)
      → queue.get_state j (queue.add i q)
        ≡ (if same_job i j then added (queue.get_state j q) else queue.get_state j q)
  pub get-remove :
      (i j : JobId) (q : Q)
      → queue.get_state j (queue.remove i q) ≡ (if same_job i j then none else queue.get_state j q)

-- `ACTIVE_JOB_STATES.has(state)`
abbrev pub is_active_state : JobState → Bool
is_active_state JobState.completed = false
is_active_state JobState.failed = false
is_active_state _ = true

abbrev pub is_in_flight : Option JobState → Bool
is_in_flight none = false
is_in_flight (some s) = is_active_state s

module _ {Q : Type 0} (queue : SubmitQueue Q) where
  abbrev pub enqueue_over : JobId → Option JobState → Q → Bool × Q
  enqueue_over i none q = (true, queue.add i q)
  enqueue_over i (some state) q =
      if is_active_state state then (false, q) else (true, queue.add i (queue.remove i q))

  -- `createEnqueue`
  unfoldable pub enqueue : JobId → Q → Bool × Q
  enqueue i q = enqueue_over i (queue.get_state i q) q

  module _ (laws : IsLawful queue) where
    open laws use {get-add, get-remove}

    same_self : (i : JobId) → same_job i i ≡ true
    same_self i = ground arith

    over_in_flight :
        (i : JobId) (o : Option JobState) (q : Q)
        → queue.get_state i q ≡ o
        → is_in_flight (queue.get_state i (enqueue_over i o q).1) ≡ true
    over_in_flight i none q e = rw (get-add i i q, same_self i, e) refl
    over_in_flight i (some state) q e = elim (Bool-cases (is_active_state state)) [
      | inl h ↦ rw (h, e) h
      | inr h ↦ rw (h, get-add i i (queue.remove i q), get-remove i i q, same_self i) refl
    ]

    over_others :
        (i j : JobId) (o : Option JobState) (q : Q)
        → same_job i j ≡ false
        → queue.get_state j (enqueue_over i o q).1 ≡ queue.get_state j q
    over_others i j none q ne = rw (get-add i j q, ne) refl
    over_others i j (some state) q ne = elim (Bool-cases (is_active_state state)) [
      | inl h ↦ rw h refl
      | inr h ↦ rw (h, get-add i j (queue.remove i q), get-remove i j q, ne) refl
    ]

    over_queued :
        (i : JobId) (o : Option JobState) (q : Q) → (enqueue_over i o q).0 ≡ not (is_in_flight o)
    over_queued i none q = refl
    over_queued i (some state) q = ground arith

-- Over a queue that keeps to what it documents, an enqueueing ends with the job in flight, whatever was
-- there before, also a job of the same id that has ended; it answers whether it was not in flight
-- before; and it leaves every other job as it was.
pub enqueue_lem :
    {Q : Type 0} (queue : SubmitQueue Q) (i : JobId) (q : Q)
    → IsLawful queue
    → (is_in_flight (queue.get_state i (enqueue queue i q).1) ≡ true)
      × ((enqueue queue i q).0 ≡ not (is_in_flight (queue.get_state i q)))
      × ((j : JobId)
          → same_job i j ≡ false
          → queue.get_state j (enqueue queue i q).1 ≡ queue.get_state j q)
unfolding enqueue
enqueue_lem queue i q laws = (
  over_in_flight queue laws i (queue.get_state i q) q refl,
  over_queued queue laws i (queue.get_state i q) q,
  λ j ne. over_others queue laws i j (queue.get_state i q) q ne,
)

-- The confirm queue, whose ids are of a record and a transaction; `getJob` tells only whether a job is
-- there.
pub record ConfirmQueue (Q : Type 0) : Type 0 where
  pub has_job : ℕ → ℕ → Q → Bool
  pub add : ℕ → ℕ → Q → Q

-- `makeConfirmEnqueuer`
unfoldable pub enqueue_confirm : {Q : Type 0} → ConfirmQueue Q → ℕ → ℕ → Q → Q
enqueue_confirm queue record_id tx_hash q =
    if queue.has_job record_id tx_hash q then q else queue.add record_id tx_hash q
