-- ===== src/Jobs/Build.antt =====
-- `makeBuildSubmittable` of lib/blockchain/index.ts: what is sent for a record is rebuilt from its
-- source, and must have the hash that is stored. `rebuild` stands for the loading of the source
-- (`resolveSource`) and its envelope (`buildEnvelopeForSource`); nothing is assumed of its answer.
pub mod Keeps
use you_fen.Base.{ℕ, Bool, true, false, Option, none, some, ◌==◌}
use you_fen.Engine.Tables.{terminal_error, RecordType, PublicRecordRow}
use you_fen.Engine.Db.{Db}
use you_fen.Chain.Records.{get_by_id}
use you_fen.Jobs.{Job, Port, Others, pure, throw, call, statement, ◌>>=◌}

pub record BuiltEnvelope : Type 0 where
  pub record_type : RecordType
  pub record_hash : ℕ

pub record SubmittableRecord : Type 0 where
  pub record_id : ℕ
  pub record_type : RecordType
  pub record_hash : ℕ

abbrev pub Rebuild : Type 0 → Type 0
Rebuild E = PublicRecordRow → Db → Port E BuiltEnvelope

abbrev pub to_submittable : ℕ → BuiltEnvelope → SubmittableRecord
to_submittable record_id built = record {
  record_id = record_id;
  record_type = built.record_type;
  record_hash = built.record_hash;
}

module _ {E : Type 0} where
  -- The guard against a source that has drifted.
  abbrev pub submittable_if : ℕ → BuiltEnvelope → Bool → Job E SubmittableRecord
  submittable_if record_id built true = pure (to_submittable record_id built)
  submittable_if record_id built false = throw terminal_error

module _ {E : Type 0} (others : Others E) (rebuild : Rebuild E) where
  abbrev pub build_loaded : ℕ → Option PublicRecordRow → Job E SubmittableRecord
  build_loaded record_id none = throw terminal_error
  build_loaded record_id (some loaded) = do
    built ← λ w. call others (rebuild loaded w.db) w
    submittable_if record_id built (built.record_hash == loaded.record_hash)

  unfoldable pub build_submittable : ℕ → Job E SubmittableRecord
  build_submittable record_id = do
    loaded ← statement others (get_by_id record_id)
    build_loaded record_id loaded
