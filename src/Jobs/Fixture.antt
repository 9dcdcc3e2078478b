-- ===== src/Jobs/Fixture.antt =====
-- A small chain for tests: the hashes that it holds, the number of its transactions and whether a call
-- for that number has thrown. The hash of a
-- transaction is the hash that it writes.
use you_fen.Base.{ℕ, ◌+◌, suc, Bool, true, false, Option, none, some, List, [], ◌∷◌, ◌==◌, any}
use you_fen.Engine.Tables.{pending, verification, RecordType, SourceTable, PublicRecordRow}
use you_fen.Engine.Fixture.{town}
use you_fen.Jobs.{World, returned}
use you_fen.Jobs.Submit.{SubmitDeps, FoundTx}
use you_fen.Jobs.Confirm.{ConfirmDeps, ReceiptStatus}
use you_fen.Jobs.Reconcile.{ReconcilerDeps, TxStatus}

pub record ToyChain : Type 0 where
  pub hashes : List ℕ
  pub count : ℕ
  pub missed : Bool

abbrev pub holds : ℕ → ToyChain → Bool
holds h e = any (λ k. k == h) e.hashes

abbrev pub toy_found : Bool → ℕ → Option FoundTx
toy_found true h = some (record { tx_hash = h; block_number = 9 })
toy_found false h = none

abbrev pub toy_status : Bool → TxStatus
toy_status true = TxStatus.confirmed
toy_status false = TxStatus.not_found

-- The hash of what is rebuilt from a source.
abbrev pub source_hash : ℕ → ℕ
source_hash source_id = source_id + 4

abbrev pub submit_deps : SubmitDeps ToyChain
submit_deps = record {
  rebuild = λ row d e. (
    returned (record { record_type = row.record_type; record_hash = source_hash row.source_id }),
    e,
  );
  read_chain_record = λ h e. (returned (holds h e), e);
  find_tx_by_record_hash = λ h e. (returned (toy_found (holds h e) h), e);
  get_transaction_count = λ e. (returned e.count, e);
  submit_record = λ s n e. (
    returned (record { tx_hash = s.record_hash; submitted_at = 100 }),
    record e { hashes = s.record_hash ∷ e.hashes; count = suc e.count },
  );
  enqueue_confirm = λ id t e. (returned tt, e);
  discard = λ e. e;
  now = λ e. 100;
  others = λ e d. d;
}

abbrev pub confirm_deps : ConfirmDeps ToyChain
confirm_deps = record {
  wait_for_confirmation = λ t h e. (
    returned (record {
      status = ReceiptStatus.confirmed;
      block_number = 9;
      block_hash = 0;
      confirmed_at = 200;
    }),
    e,
  );
  read_chain_record = λ h e. (returned (holds h e), e);
  others = λ e d. d;
}

abbrev pub reconciler_deps : ReconcilerDeps ToyChain
reconciler_deps = record {
  find_tx_by_record_hash = λ h e. (returned (toy_found (holds h e) h), e);
  get_transaction_status = λ t e. (returned (toy_status (holds t e)), e);
  read_chain_record = λ h e. (returned (holds h e), e);
  get_latest_nonce = λ e. (returned e.count, e);
  enqueue = λ id n e. (returned true, e);
  updated_at = λ e r. 0;
  stale_threshold_ms = 180000;
  hard_timeout_ms = 600000;
  pending_stale_ms = 300000;
  others = λ e d. d;
}

abbrev pub pending_record : PublicRecordRow
pending_record = record {
  id = 70;
  community_id = 1;
  record_type = RecordType.token_mint;
  status = verification pending;
  chain_eligible = true;
  record_hash = 5;
  source_table = SourceTable.token_mint_event;
  source_id = 1;
  tx_hash = none;
  assigned_nonce = none;
  block_number = none;
  block_hash = none;
  submitted_at = none;
  confirmed_at = none;
  attempt_epoch = 0;
  last_error = none;
  superseded_by_record_id = none;
}

abbrev pub start : World ToyChain
start = record {
  db = record town { records = pending_record ∷ [] };
  local_nonce = some 3;
  resync_seq = 1;
  env = record { hashes = []; count = 3; missed = false };
}
