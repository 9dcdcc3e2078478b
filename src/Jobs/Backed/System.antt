-- ===== src/Jobs/Backed/System.antt =====
-- All workers together, on one database and one chain.
use you_fen.Base.{ℕ, List, [], ◌∷◌}
use you_fen.Jobs.{World, Outcome, returned, thrown}
use you_fen.Jobs.Keeps.{Post}
use you_fen.Jobs.Submit.{SubmitDeps, process_submit_job}
use you_fen.Jobs.Confirm.{ConfirmDeps, process_confirm_job}
use you_fen.Jobs.Reconcile.{ReconcilerDeps, reconcile_once}
use you_fen.Jobs.Backed.{ChainView, IsBacked, BackedAnd, Nothing}
use you_fen.Jobs.Backed.Submit.Handler.{SubmitLaws}
use you_fen.Jobs.Backed.Submit.{submitted_job}
use you_fen.Jobs.Backed.Confirm.{ConfirmLaws, confirmed_job}
use you_fen.Jobs.Backed.Reconcile.Rows.{ReconcilerLaws}
use you_fen.Jobs.Backed.Reconcile.{reconciled}

-- A job of a queue: a record to submit; a record with its transaction to confirm; a round at a time.
pub data QueueJob : Type 0 where
  submit : ℕ → QueueJob
  confirm : ℕ → ℕ → QueueJob
  reconcile : ℕ → QueueJob

pub record Workers (E : Type 0) : Type 0 where
  pub submit_deps : SubmitDeps E
  pub confirm_deps : ConfirmDeps E
  pub reconciler_deps : ReconcilerDeps E

pub record WorkerLaws {E : Type 0} (workers : Workers E) (v : ChainView E) : Type 0 where
  pub submit_laws : SubmitLaws workers.submit_deps v
  pub confirm_laws : ConfirmLaws workers.confirm_deps v
  pub reconciler_laws : ReconcilerLaws workers.reconciler_deps v

module _ {E : Type 0} (workers : Workers E) where
  -- What a job leaves behind, whether it returns or throws.
  abbrev pub run_job : QueueJob → World E → World E
  run_job (QueueJob.submit id) w = (process_submit_job workers.submit_deps id w).1
  run_job (QueueJob.confirm id tx) w = (process_confirm_job workers.confirm_deps id tx w).1
  run_job (QueueJob.reconcile now) w = (reconcile_once workers.reconciler_deps now w).1

  abbrev pub run_jobs : List QueueJob → World E → World E
  run_jobs [] w = w
  run_jobs (j ∷ jobs) w = run_jobs jobs (run_job j w)

module _ {E : Type 0} (v : ChainView E) where
  world_after :
      {A : Type 0} (r : Outcome A × World E)
      → Post (λ a. BackedAnd v (Nothing v)) (BackedAnd v (Nothing v)) r
      → IsBacked v r.1
  world_after (returned a, w) h = h.0
  world_after (thrown e, w) h = h.0

  module _ (workers : Workers E) (laws : WorkerLaws workers v) where
    run_job-IsBacked :
        (j : QueueJob) (w : World E) → IsBacked v w → IsBacked v (run_job workers j w)
    run_job-IsBacked (QueueJob.submit id) w h =
        world_after (process_submit_job workers.submit_deps id w)
          ((submitted_job workers.submit_deps v laws.submit_laws id).at w (h, tt))
    run_job-IsBacked (QueueJob.confirm id tx) w h =
        world_after (process_confirm_job workers.confirm_deps id tx w)
          ((confirmed_job workers.confirm_deps v laws.confirm_laws id tx).at w (h, tt))
    run_job-IsBacked (QueueJob.reconcile now) w h =
        world_after (reconcile_once workers.reconciler_deps now w)
          ((reconciled workers.reconciler_deps v laws.reconciler_laws now).at w (h, tt))

-- Whatever submit jobs, confirm jobs and rounds of the reconciler run, in whatever order, while other
-- workers act and calls answer or throw: if the calls keep to what they document and the other workers
-- keep to the same, every record that is verified after them has its hash on the chain, every record
-- has the hash that it was created with, and the transaction of a record writes its hash, if so before.
pub run_jobs-IsBacked :
    {E : Type 0} (v : ChainView E) (workers : Workers E) (jobs : List QueueJob) (w : World E)
    → WorkerLaws workers v
    → IsBacked v w
    → IsBacked v (run_jobs workers jobs w)
run_jobs-IsBacked v workers [] w laws h = h
run_jobs-IsBacked v workers (j ∷ jobs) w laws h =
    run_jobs-IsBacked v workers jobs (run_job workers j w) laws
      (run_job-IsBacked v workers laws j w h)
