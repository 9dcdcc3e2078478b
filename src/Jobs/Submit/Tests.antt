-- ===== src/Jobs/Submit/Tests.antt =====
-- Submit jobs on one record.
use you_fen.Base.{arith, some, ◌⊎◌, true, any, ◌≡◌, refl, [], ◌∷◌}
use you_fen.Engine.Tables.{
  already_recorded_error, chain_unavailable_error, VerificationStatus, submitting,
}
use you_fen.Engine.Db.{Db}
use you_fen.Engine.Db
use you_fen.Chain.Records.{
  get_by_id, addressed, assert_transition, can_transition, transition, patch_in_status,
}
use you_fen.Jobs
use you_fen.Jobs.{World, Outcome, returned, thrown, call, statement, try_or, pure, throw}
use you_fen.Jobs.Fixture.{ToyChain, submit_deps, start}
use you_fen.Jobs.Build.{build_submittable}
use you_fen.Jobs.Wallet.{resync_nonce, get_next_nonce}
use you_fen.Jobs.Submit.{
  SubmitDeps, SubmitOutcome, process_submit_job, attempt, hand_over, send_with, handle_submit_error,
  recover, heal_leaked_nonce, reset_to_pending,
}
use you_fen.Jobs.Submit.Rows.{IsFree}
use you_fen.Jobs.Submit.Free.{process_submit_job-IsFree, process_submit_job-returned}
use you_fen.Jobs.Submit.Nonce.Laws.{CountLaws, IsSynced}
use you_fen.Jobs.Submit.Nonce.{process_submit_job-IsSynced}

abbrev after : World ToyChain
after = (process_submit_job submit_deps 70 start).1

-- The job of record 70 is done.
submitted_run :
    ◌≡◌ {A = Outcome SubmitOutcome × World ToyChain}
      (process_submit_job submit_deps 70 start)
      (returned SubmitOutcome.submitted, after)
unfolding process_submit_job attempt build_submittable get_by_id send_with hand_over get_next_nonce
    handle_submit_error recover heal_leaked_nonce resync_nonce reset_to_pending transition
    patch_in_status assert_transition can_transition Db.gets call statement try_or pure throw
    Db.◌>>=◌ Jobs.◌>>=◌
submitted_run = refl

process_submit_job-IsFree_example : IsFree 70 after.db
process_submit_job-IsFree_example =
    process_submit_job-IsFree submit_deps 70 start (λ e d h. h) (refl, tt) (λ h e x. cc)

-- A node that refuses the transaction and does not answer for the count either.
abbrev flaky_deps : SubmitDeps ToyChain
flaky_deps = record submit_deps {
  submit_record = λ s n e. (thrown chain_unavailable_error, e);
  get_transaction_count = λ e. (thrown chain_unavailable_error, record e { missed = true });
}

flaky_laws : CountLaws flaky_deps (λ e. e.count) (λ e. e.missed)
flaky_laws = record {
  answers = λ e n k. cc;
  misses = λ e x k. refl;
  submits = λ s e r k. cc;
  missed-submit = λ s n e m. m;
  quiet-count = λ e. (refl, λ m. refl);
  quiet-rebuild = λ row d e. (refl, λ m. m);
  quiet-read = λ h e. (refl, λ m. m);
  quiet-find = λ h e. (refl, λ m. m);
  quiet-enqueue = λ id t e. (refl, λ m. m);
  quiet-discard = λ e. (refl, λ m. m);
}

steady_laws : CountLaws submit_deps (λ e. e.count) (λ e. e.missed)
steady_laws = record {
  answers = λ e n k. ground arith;
  misses = λ e x k. cc;
  submits = λ s e r k. refl;
  missed-submit = λ s n e m. m;
  quiet-count = λ e. (refl, λ m. m);
  quiet-rebuild = λ row d e. (refl, λ m. m);
  quiet-read = λ h e. (refl, λ m. m);
  quiet-find = λ h e. (refl, λ m. m);
  quiet-enqueue = λ id t e. (refl, λ m. m);
  quiet-discard = λ e. (refl, λ m. m);
}

process_submit_job-IsSynced_example :
    IsSynced after.local_nonce after.env.count ⊎ (after.env.missed ≡ true)
process_submit_job-IsSynced_example =
    process_submit_job-IsSynced submit_deps (λ e. e.count) (λ e. e.missed) 70 start steady_laws refl

-- The nonce is leaked, and the miss is on record.
leaked_nonce :
    let v = (process_submit_job flaky_deps 70 start).1 in
    (v.local_nonce ≡ some 4) × (v.env.count ≡ 3) × (v.env.missed ≡ true)
unfolding process_submit_job attempt build_submittable get_by_id send_with hand_over get_next_nonce
    handle_submit_error recover heal_leaked_nonce resync_nonce reset_to_pending transition
    patch_in_status assert_transition can_transition Db.gets call statement try_or pure throw
    Db.◌>>=◌ Jobs.◌>>=◌
leaked_nonce = (refl, refl, refl)

process_submit_job-returned_example : IsFree 70 after.db
process_submit_job-returned_example =
    process_submit_job-returned submit_deps 70 start (λ e d h. h) (refl, tt) SubmitOutcome.submitted
      after submitted_run

-- The source of the record has drifted: what is rebuilt has another hash.
abbrev drifted_deps : SubmitDeps ToyChain
drifted_deps = record submit_deps {
  rebuild = λ row d e. (returned (record { record_type = row.record_type; record_hash = 6 }), e);
}

-- The record fails, and nothing is sent.
drift_fails :
    let v = (process_submit_job drifted_deps 70 start).1 in
    (any (addressed 70 (VerificationStatus.failed ∷ [])) v.db.records ≡ true) × (v.env.count ≡ 3)
unfolding process_submit_job attempt build_submittable get_by_id send_with hand_over get_next_nonce
    handle_submit_error recover heal_leaked_nonce resync_nonce reset_to_pending transition
    patch_in_status assert_transition can_transition Db.gets call statement try_or pure throw
    Db.◌>>=◌ Jobs.◌>>=◌
drift_fails = (refl, refl)

-- The chain has the hash already, and the look-up of its transaction fails.
abbrev unlucky_deps : SubmitDeps ToyChain
unlucky_deps = record submit_deps {
  submit_record = λ s n e. (thrown already_recorded_error, e);
  find_tx_by_record_hash = λ h e. (thrown chain_unavailable_error, e);
}

-- The record is left in `submitting`.
left_submitting :
    any (addressed 70 (submitting ∷ [])) (process_submit_job unlucky_deps 70 start).1.db.records
    ≡ true
unfolding process_submit_job attempt build_submittable get_by_id send_with hand_over get_next_nonce
    handle_submit_error recover heal_leaked_nonce resync_nonce reset_to_pending transition
    patch_in_status assert_transition can_transition Db.gets call statement try_or pure throw
    Db.◌>>=◌ Jobs.◌>>=◌
left_submitting = refl
