-- ===== src/Jobs/Queue/Tests.antt =====
-- A queue as a list of jobs with their states.
use you_fen.Base.{◌≡◌, refl, true, false, not, Option, none, some, if◌then◌else◌}
use you_fen.Jobs.Queue.{
  JobState, JobId, same_job, SubmitQueue, added, IsLawful, is_in_flight, enqueue, enqueue_lem,
}

abbrev Toy : Type 0
Toy = JobId → Option JobState

abbrev toy_queue : SubmitQueue Toy
toy_queue = record {
  get_state = λ j q. q j;
  remove = λ i q j. if same_job i j then none else q j;
  add = λ i q j. if same_job i j then added (q j) else q j;
}

toy_laws : IsLawful toy_queue
toy_laws = record { get-add = λ i j q. refl; get-remove = λ i j q. refl }

abbrev job : JobId
job = record { record_id = 70; attempt_epoch = 0 }

-- The job has failed, and is kept for a while.
abbrev lingering : Toy
lingering j = if same_job job j then some JobState.failed else none

enqueue_lem_example :
    (is_in_flight (toy_queue.get_state job (enqueue toy_queue job lingering).1) ≡ true)
    × ((enqueue toy_queue job lingering).0 ≡ not (is_in_flight (toy_queue.get_state job lingering)))
    × ((j : JobId)
        → same_job job j ≡ false
        → toy_queue.get_state j (enqueue toy_queue job lingering).1
          ≡ toy_queue.get_state j lingering)
enqueue_lem_example = enqueue_lem toy_queue job lingering toy_laws
