-- ===== src/Jobs/Backed/Tests.antt =====
-- The workers on a small chain.
use you_fen.Base.{ℕ, ◌≡◌, refl, Bool, true, false, some, List, [], ◌∷◌, ◌==◌, ==_iff, arith}
use you_fen.Jobs.{Outcome, returned}
use you_fen.Jobs.Fixture.{
  ToyChain, holds, toy_found, toy_status, submit_deps, confirm_deps, reconciler_deps, start,
}
use you_fen.Jobs.Build.{SubmittableRecord}
use you_fen.Jobs.Submit.{SubmitResult, FoundTx}
use you_fen.Jobs.Reconcile.{TxStatus}
use you_fen.Jobs.Backed.{ChainView, IsBacked}
use you_fen.Jobs.Backed.Submit.Handler.{SubmitLaws}
use you_fen.Jobs.Backed.Confirm.{ConfirmLaws}
use you_fen.Jobs.Backed.Reconcile.Rows.{ReconcilerLaws}
use you_fen.Jobs.Backed.System.{QueueJob, Workers, WorkerLaws, run_jobs, run_jobs-IsBacked}

abbrev view : ChainView ToyChain
view = record { on_chain = holds; writes = λ t h. t == h; hash_of = λ id. 5 }

found_writes : (b : Bool) (h : ℕ) (f : FoundTx) → toy_found b h ≡ some f → (f.tx_hash == h) ≡ true
found_writes true h f e = ground arith
found_writes false h f e = cc

sent_writes :
    (s : SubmittableRecord) (r : SubmitResult)
    → ◌≡◌ {A = Outcome SubmitResult}
        (returned (record { tx_hash = s.record_hash; submitted_at = 100 }))
        (returned r)
    → (r.tx_hash == s.record_hash) ≡ true
sent_writes s r e = ground arith

holds_same :
    (t h : ℕ) (e : ToyChain)
    → toy_status (holds t e) ≡ TxStatus.confirmed
    → (t == h) ≡ true
    → holds h e ≡ true
holds_same t h e k same = let eq : t ≡ h = (==_iff t h).0 same in rw (← eq) (ground (arith, k))

submit_laws : SubmitLaws submit_deps view
submit_laws = record {
  keeps = λ e d h. h;
  grows_rebuild = λ row d h e k. k;
  grows_read = λ h k e l. l;
  grows_find = λ h k e l. l;
  grows_count = λ h e k. k;
  grows_submit = λ s n h e k. ground (arith, k);
  grows_enqueue = λ id t h e k. k;
  grows_discard = λ h e k. k;
  tells_find = λ h e f k. found_writes (holds h e) h f (cc);
  tells_submit = λ s n e r k. sent_writes s r k;
}

confirm_laws : ConfirmLaws confirm_deps view
confirm_laws = record {
  keeps = λ e d h. h;
  grows_wait = λ t h k e l. l;
  grows_read = λ h k e l. l;
  tells_read = λ h e k. cc;
}

reconciler_laws : ReconcilerLaws reconciler_deps view
reconciler_laws = record {
  keeps = λ e d h. h;
  grows_find = λ h k e l. l;
  grows_status = λ t h e l. l;
  grows_read = λ h k e l. l;
  grows_nonce = λ h e k. k;
  grows_enqueue = λ id n h e k. k;
  tells_find = λ h e f k. found_writes (holds h e) h f (cc);
  tells_status = λ t h e k same. holds_same t h e (cc) same;
  tells_read = λ h e k. cc;
}

abbrev workers : Workers ToyChain
workers = record {
  submit_deps = submit_deps;
  confirm_deps = confirm_deps;
  reconciler_deps = reconciler_deps;
}

worker_laws : WorkerLaws workers view
worker_laws = record {
  submit_laws = submit_laws;
  confirm_laws = confirm_laws;
  reconciler_laws = reconciler_laws;
}

-- A submission, a round of the reconciler and a confirmation.
abbrev jobs : List QueueJob
jobs = QueueJob.submit 70 ∷ (QueueJob.reconcile 900000 ∷ (QueueJob.confirm 70 5 ∷ []))

start-IsBacked : IsBacked view start
start-IsBacked = (((refl, λ t e. cc), λ e. cc), tt)

run_jobs-IsBacked_example : IsBacked view (run_jobs workers jobs start)
run_jobs-IsBacked_example = run_jobs-IsBacked view workers jobs start worker_laws start-IsBacked
