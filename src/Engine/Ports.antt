-- ===== src/Engine/Ports.antt =====
-- What the services are given: lib/engine/types.ts (RecordsPort, BuildEnvelopePort, HashPorts),
-- with the transactional half of `createPendingRecord` (lib/blockchain/records/record-service.ts)
-- and lib/engine/db-only-records.ts. The hashes are parameters: an envelope is modelled by what it
-- is built from, and its hash by a number.
use you_fen.Base.{ℕ, Bool, true, false, Option, none, List, [], ◌∷◌, ◌++◌, ◌==◌, any, if◌then◌else◌}
use you_fen.Engine.Errors.{Failure, p2002, duplicate_record_hash, ok, err}
use you_fen.Engine.Tables.{
  RecordType, SourceTable, RecordStatus, VerificationStatus, MintType, BudgetSource,
}
use you_fen.Engine.Db.{Tx, ◌>>=◌, ◌>>◌, pure, gets, modify, fresh_id, lift}

-- `TokenMintEventData` of lib/blockchain/types.ts
pub record TokenMintEventData : Type 0 where
  pub id : ℕ
  pub community_id : ℕ
  pub member_id : ℕ
  pub epoch_number : ℕ
  pub mint_type : MintType
  pub budget_source : BudgetSource
  pub amount : ℕ
  pub member_balance_before : ℕ
  pub member_balance_after : ℕ
  pub total_supply_before : ℕ
  pub total_supply_after : ℕ
  pub governance_activation_epoch : Option ℕ
  pub token_policy_version : ℕ
  pub created_at : ℕ
  pub ledger_seq : ℕ

pub record TokenReversalEventData : Type 0 where
  pub id : ℕ
  pub community_id : ℕ
  pub member_id : ℕ
  pub original_mint_event_id : ℕ
  pub amount : ℕ
  pub total_balance_after : ℕ
  pub total_supply_after : ℕ
  pub created_at : ℕ
  pub ledger_seq : ℕ

pub record TokenEpochData : Type 0 where
  pub id : ℕ
  pub community_id : ℕ
  pub epoch_number : ℕ
  pub opening_supply : ℕ
  pub base_mint_budget : ℕ
  pub regular_minted_amount : ℕ
  pub advanced_minted_amount : ℕ
  pub advance_debt_from_previous_epoch : ℕ
  pub closed_at : ℕ
  pub created_at : ℕ

pub record TokenPolicyData : Type 0 where
  pub id : ℕ
  pub community_id : ℕ
  pub policy_version : ℕ
  pub monthly_inflation_rate_bps : ℕ
  pub max_advance_rate_bps : ℕ
  pub member_mint_cap_rate_bps : ℕ
  pub effective_epoch : ℕ
  pub created_at : ℕ

-- `ProposalData` of lib/blockchain/types.ts
pub record ProposalData : Type 0 where
  pub id : ℕ
  pub community_id : ℕ
  pub epoch_number_snapshot : Option ℕ
  pub total_supply_snapshot : Option ℕ
  pub active_governance_supply_snapshot : Option ℕ
  pub token_policy_version_snapshot : Option ℕ
  pub snapshot_at : Option ℕ
  pub ended_at : Option ℕ
  pub winning_option_id : Option ℕ
  pub voter_count : Option ℕ
  pub total_vote_weight : Option ℕ
  pub created_at : ℕ
  pub weights_merkle_root : Option ℕ
  pub votes_merkle_root : Option ℕ

-- The `RecordSource` union, by its `kind`.
pub data RecordSource : Type 0 where
  token_mint advance_mint : TokenMintEventData → RecordSource
  token_reversal : TokenReversalEventData → ℕ → RecordSource
  epoch_summary : TokenEpochData → RecordSource
  policy_version : TokenPolicyData → RecordSource
  proposal_snapshot proposal_result : ProposalData → RecordSource

pub record Ports : Type 0 where
  pub build_envelope : RecordSource → ℕ
  pub db_record_hash : RecordType → List ℕ → ℕ
  pub hash_member_id : ℕ → ℕ → ℕ
  pub hash_option_id : ℕ → ℕ → ℕ
  pub hash_snapshot_leaf : ℕ → ℕ → ℕ
  pub hash_vote_leaf : ℕ → ℕ → ℕ → ℕ
  pub hash_node : ℕ → ℕ → ℕ
  pub now : ℕ

-- An insertion into PublicRecord, whose `recordHash` is unique: `clash` is thrown if it is taken.
abbrev pub insert_record :
    Failure → ℕ → RecordType → RecordStatus → Bool → ℕ → SourceTable → ℕ → Tx ℕ
insert_record clash community_id record_type status chain_eligible record_hash source_table
      source_id =
    do
      lift
          (← gets
            λ d. if any (λ r. r.record_hash == record_hash) d.records then err clash else ok tt)
      id ← fresh_id
      modify λ d. record d {
        records =
            d.records
            ++ record {
              id = id;
              community_id = community_id;
              record_type = record_type;
              status = status;
              chain_eligible = chain_eligible;
              record_hash = record_hash;
              source_table = source_table;
              source_id = source_id;
              tx_hash = none;
              assigned_nonce = none;
              block_number = none;
              block_hash = none;
              submitted_at = none;
              confirmed_at = none;
              attempt_epoch = 0;
              last_error = none;
              superseded_by_record_id = none;
            }
              ∷ [];
      }
      pure id

-- `createPendingRecord`: a record that is to be mirrored on chain.
unfoldable pub create_pending_record : RecordType → SourceTable → ℕ → ℕ → ℕ → Tx ℕ
create_pending_record record_type source_table source_id community_id record_hash =
    insert_record duplicate_record_hash community_id record_type
      (RecordStatus.verification VerificationStatus.pending) true record_hash source_table source_id

-- `createDbOnlyRecord`: recorded on creation, never mirrored.
unfoldable pub create_db_only_record : Ports → ℕ → RecordType → SourceTable → ℕ → List ℕ → Tx ℕ
create_db_only_record ports community_id record_type source_table source_id payload =
    insert_record p2002 community_id record_type RecordStatus.recorded false
      (ports.db_record_hash record_type payload) source_table source_id
