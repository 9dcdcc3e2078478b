-- ===== src/Chain/Records/Tests.antt =====
-- Records that move.
use you_fen.Base.{◌≡◌, refl, Bool, true, none, [], ◌∷◌}
use you_fen.Engine.Tables.{
  submitting, confirming, verification, RecordType, SourceTable, PublicRecordRow,
}
use you_fen.Engine.Db.{Db, ◌>>=◌}
use you_fen.Engine.Db.Keeps.{db_of, committed-run, Commits}
use you_fen.Engine.Fixture.{town}
use you_fen.Chain.Records.{empty_patch, can_transition, assert_transition, transition}
use you_fen.Chain.Records.Lifecycle.{Rowwise, transition-Rowwise}

abbrev record_one : PublicRecordRow
record_one = record {
  id = 70;
  community_id = 1;
  record_type = RecordType.token_mint;
  status = verification submitting;
  chain_eligible = true;
  record_hash = 5;
  source_table = SourceTable.token_mint_event;
  source_id = 1;
  tx_hash = none;
  assigned_nonce = none;
  block_number = none;
  block_hash = none;
  submitted_at = none;
  confirmed_at = none;
  attempt_epoch = 0;
  last_error = none;
  superseded_by_record_id = none;
}

abbrev archive : Db
archive = record town { records = record_one ∷ [] }

abbrev confirmed : Db
confirmed = db_of (transition 70 (submitting ∷ []) confirming empty_patch archive) archive

confirm_run :
    (b : Bool) × Commits
      (transition 70 (submitting ∷ []) confirming empty_patch)
      archive
      b
      confirmed
unfolding transition ◌>>=◌ assert_transition can_transition
confirm_run = committed-run (transition 70 (submitting ∷ []) confirming empty_patch) archive refl

transition-Rowwise_example :
    Rowwise 70 confirming archive.records confirmed.records
    × (confirmed ≡ record archive { records = confirmed.records })
transition-Rowwise_example =
    transition-Rowwise 70 (submitting ∷ []) confirming empty_patch archive confirm_run.0 confirmed
      confirm_run.1
