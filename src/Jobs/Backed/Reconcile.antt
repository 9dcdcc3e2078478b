-- ===== src/Jobs/Backed/Reconcile.antt =====
-- Rounds of the reconciler keep every verified record on the chain.
pub mod Rows
use you_fen.Base.{
  ℕ, ◌+◌, ◌≡◌, refl, Bool, true, false, Option, none, some, List, [], ◌∷◌, map, ltb, select, All,
  Bool-cases, inl, inr,
}
use you_fen.Engine.Tables.{
  VerificationStatus, submitting, confirming, verified, superseded, PublicRecordRow, RecordStatus,
  verification, recorded,
}
use you_fen.Engine.Db.{gets}
use you_fen.Chain.Records.{RecordPatch, transition}
use you_fen.Jobs.{World, Job, Port, returned, call, statement}
use you_fen.Jobs.Keeps.{
  Triple, Triple-pure, Triple-try_or, Triple-bind, Triple-given, Triple-statement,
}
use you_fen.Jobs.Submit.{FoundTx}
use you_fen.Jobs.Confirm.{reverted_patch}
use you_fen.Jobs.Reconcile.{
  TxStatus, ReconcilerDeps, RecRow, RowOutcome, ReconcileReport, empty_report, bump, in_flight_from,
  is_stale, stale_rows, epoch_patch, timeout_patch, recovery_patch, requeued_if,
  recover_to_verified, requeue, fail_row, judge_nonce, nonce_judgement, recover_if, ask_contract,
  by_tx_status, handle_by_status, handle_in_flight, enqueue_if, handle_pending, each_row, scan,
  reconcile_once,
}
use you_fen.Jobs.Backed.{
  ChainView, IsTied, IsBackedRow, Grows, KeepsBacked, BackedAnd, Nothing, called, transition-Backed,
  patch_in_status-Backed,
}
use you_fen.Jobs.Backed.Reconcile.Rows.{ReconcilerLaws, plainly, in_flight_handled}

module _ {E : Type 0} (deps : ReconcilerDeps E) (v : ChainView E) (laws : ReconcilerLaws deps v)
    (now : ℕ) where
  open laws use {
    keeps, grows_find, grows_status, grows_read, grows_nonce, grows_enqueue, tells_find,
    tells_status, tells_read,
  }

  abbrev Plain : World E → Type 0
  Plain = BackedAnd v (Nothing v)

  abbrev PlainWith : {A : Type 0} → A → World E → Type 0
  PlainWith a = BackedAnd v (Nothing v)

  enqueued_if :
      (row : PublicRecordRow) (b : Bool) → Triple Plain (enqueue_if deps now row b) PlainWith Plain
  enqueued_if row false = Triple-pure RowOutcome.untouched (λ w h. h)
  enqueued_if row true =
      Triple-bind _ _
        (plainly deps v laws now (deps.enqueue row.id (row.attempt_epoch + 1))
          (grows_enqueue row.id (row.attempt_epoch + 1)))
        (λ q. Triple-pure (requeued_if q) (λ w h. h))

  pending_handled : (r : RecRow) → Triple Plain (handle_pending deps now r) PlainWith Plain
  unfolding handle_pending
  pending_handled r =
      Triple-bind _ _
        (patch_in_status-Backed v deps.others keeps (Nothing v) r.row.id VerificationStatus.pending
          (epoch_patch (r.row.attempt_epoch + 1)) (λ t k. cc))
        (enqueued_if r.row)

  abbrev AreTied : List RecRow → Type 0
  AreTied rows = All (λ r. IsTied v r.row) rows

  each_handled :
      (handle : RecRow → Job E RowOutcome)
      → ((r : RecRow) → IsTied v r.row → Triple Plain (handle r) PlainWith Plain)
      → (rows : List RecRow) (report : ReconcileReport) → AreTied rows
      → Triple Plain (each_row deps now handle rows report) PlainWith Plain
  unfolding each_row
  each_handled handle each [] report h = Triple-pure report (λ w k. k)
  each_handled handle each (r ∷ rows) report h =
      Triple-bind _ _
        (Triple-try_or _ _ _ (each r h.0) (λ e. Triple-pure RowOutcome.failed (λ w k. k))
          (λ o. Triple-pure o (λ w k. k)))
        (λ o. each_handled handle each rows (bump o report) h.1)

  tied_rows :
      (p : PublicRecordRow → Bool) (t : PublicRecordRow → ℕ) (e : E) (rs : List PublicRecordRow)
      → All (IsBackedRow v e) rs
      → AreTied (map (λ r. record { row = r; updated_at = t r }) (select p rs))
  tied_rows p t e [] h = tt
  tied_rows p t e (r ∷ rs) h = elim (Bool-cases (p r)) [
    | inl k ↦ rw k ((h.0).0, tied_rows p t e rs h.1)
    | inr k ↦ rw k (tied_rows p t e rs h.1)
  ]

  scanned_at :
      (statuses : List VerificationStatus) (ms : ℕ) (t : PublicRecordRow → ℕ)
      → Triple Plain
          (statement deps.others (gets (stale_rows statuses ms now t)))
          (λ rows. BackedAnd v (λ e. AreTied rows))
          Plain
  unfolding gets
  scanned_at statuses ms t =
      Triple-statement {P = Plain} deps.others (gets (stale_rows statuses ms now t)) λ w h. (
        keeps w.env w.db h.0,
        tied_rows (is_stale statuses ms now t) t w.env (deps.others w.env w.db).records
            (keeps w.env w.db h.0),
      )

  scanned :
      (statuses : List VerificationStatus) (ms : ℕ)
      → Triple Plain (scan deps now statuses ms) (λ rows. BackedAnd v (λ e. AreTied rows)) Plain
  unfolding scan
  scanned statuses ms = record {
    at = λ w h. (scanned_at statuses ms (deps.updated_at w.env)).at w h;
  }

  pub reconciled : Triple Plain (reconcile_once deps now) PlainWith Plain
  unfolding reconcile_once
  reconciled = Triple-bind _ _ (scanned in_flight_from deps.stale_threshold_ms) λ rows.
      Triple-given _ λ w0 k0. record {
        at = λ w k.
            (Triple-bind _ _
                (each_handled (handle_in_flight deps now) (in_flight_handled deps v laws now) rows
                  empty_report k0.1)
                λ report.
                  Triple-bind _ _ (scanned (VerificationStatus.pending ∷ []) deps.pending_stale_ms)
                    λ late. Triple-given _ λ w1 k1. record {
                      at = λ w' k'.
                          (each_handled (handle_pending deps now) (λ r h. pending_handled r) late
                              report k1.1).at
                            w' (k'.0, tt);
                    }).at
              w (k.0, tt);
      }
