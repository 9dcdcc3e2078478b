-- ===== src/Engine/Tables.antt =====
-- The rows that the engine reads and writes (lib/engine/types.ts and prisma/schema.prisma). Ids,
-- names, texts and times are numbers; a bigint column is a natural number where every write keeps
-- it from falling below zero, and an integer where the code tests its sign.
mod Kinds
pub use Kinds.*
use you_fen.Base.{ℕ, ℤ, Bool, true, false, Option, none, some, List, leb}

pub record EpochRow : Type 0 where
  pub id : ℕ
  pub community_id : ℕ
  pub epoch_number : ℕ
  pub opening_supply : ℕ
  pub base_mint_budget : ℕ
  pub advance_debt_from_previous_epoch : ℕ
  pub effective_regular_budget : ℕ
  pub max_advance_amount : ℕ
  pub regular_minted_amount : ℕ
  pub advanced_minted_amount : ℕ
  pub unused_regular_budget : ℤ
  pub inflation_rate_bps : ℕ
  pub status : EpochStatus
  pub start_time : Option ℕ
  pub end_time : Option ℕ
  pub closed_at : Option ℕ
  pub public_record_id : Option ℕ
  pub created_at : ℕ

pub record BalanceRow : Type 0 where
  pub id : ℕ
  pub community_id : ℕ
  pub member_id : ℕ
  pub total_balance : ℕ
  pub active_governance_balance : ℕ
  pub pending_governance_balance : ℕ
  pub tokens_earned_current_epoch : ℕ
  pub tokens_earned_lifetime : ℕ
  pub tokens_reversed_lifetime : ℕ
  pub last_mint_at : Option ℕ

pub record StateRow : Type 0 where
  pub community_id : ℕ
  pub current_total_supply : ℕ
  pub ledger_seq : ℕ

pub record MintEventRow : Type 0 where
  pub id : ℕ
  pub community_id : ℕ
  pub member_id : ℕ
  pub epoch_id : Option ℕ
  pub epoch_number : ℕ
  pub mint_type : MintType
  pub budget_source : BudgetSource
  pub amount : ℕ
  pub governance_activation_epoch : Option ℕ
  pub governance_status : GovernanceStatus
  pub member_balance_before : ℕ
  pub member_balance_after : ℕ
  pub total_supply_before : ℕ
  pub total_supply_after : ℕ
  pub token_policy_version : ℕ
  pub reason : ℕ
  pub approved_by : ℕ
  pub active_governance_before : ℕ
  pub active_governance_after : ℕ
  pub ownership_percentage_before : ℕ
  pub ownership_percentage_after : ℕ
  pub contribution_id : Option ℕ
  pub rule_id : Option ℕ
  pub proposal_id : Option ℕ
  pub advance_request_id : Option ℕ
  pub second_approved_by : Option ℕ
  pub related_party : Bool
  pub evidence_urls : List ℕ
  pub ledger_seq : ℕ
  pub created_at : ℕ
  pub public_record_id : Option ℕ

pub record ReversalEventRow : Type 0 where
  pub id : ℕ
  pub community_id : ℕ
  pub member_id : ℕ
  pub original_mint_event_id : ℕ
  pub amount : ℕ
  pub reason : ReversalReason
  pub total_balance_after : ℕ
  pub active_governance_balance_after : ℕ
  pub pending_governance_balance_after : ℕ
  pub total_supply_after : ℕ
  pub approved_by : ℕ
  pub proposal_id : Option ℕ
  pub ledger_seq : ℕ
  pub created_at : ℕ
  pub public_record_id : Option ℕ

pub record PolicyRule : Type 0 where
  pub id : ℕ
  pub token_amount : ℤ

-- `rules` is `none` where the JSON column holds no array.
pub record PolicyRow : Type 0 where
  pub id : ℕ
  pub community_id : ℕ
  pub policy_version : ℕ
  pub rules : Option (List PolicyRule)
  pub monthly_inflation_rate_bps : ℕ
  pub max_advance_rate_bps : ℕ
  pub member_mint_cap_rate_bps : ℕ
  pub epoch_duration_days : ℕ
  pub pending_policy_version_id : Option ℕ
  pub pending_policy_effective_epoch : Option ℕ

pub record PolicyVersionRow : Type 0 where
  pub id : ℕ
  pub policy_id : ℕ
  pub version : ℕ
  pub effective_epoch : ℕ
  pub monthly_inflation_rate_bps : ℕ
  pub max_advance_rate_bps : ℕ
  pub member_mint_cap_rate_bps : ℕ
  pub rules : Option (List PolicyRule)
  pub proposal_id : ℕ
  pub public_record_id : Option ℕ
  pub created_at : ℕ

pub record ContributionRow : Type 0 where
  pub id : ℕ
  pub community_id : ℕ
  pub member_id : ℕ
  pub description : ℕ
  pub rule_id : Option ℕ
  pub approved_token_amount : Option ℤ
  pub status : ContributionStatus
  pub evidence : List ℕ

pub record MemberRow : Type 0 where
  pub id : ℕ
  pub role : Role

pub record AdvanceRequestRow : Type 0 where
  pub id : ℕ
  pub community_id : ℕ
  pub epoch_id : ℕ
  pub member_id : ℕ
  pub requested_amount : ℕ
  pub approved_amount : Option ℕ
  pub advance_rate_bps : ℕ
  pub reason : ℕ
  pub contribution_ids : List ℕ
  pub status : RequestStatus
  pub related_party : Bool
  pub requested_by : ℕ
  pub second_approved_by : Option ℕ
  pub proposal_id : Option ℕ
  pub approved_at : Option ℕ
  pub executed_at : Option ℕ
  pub public_record_id : Option ℕ
  pub created_at : ℕ

-- The keys of `policyChangePayload` that reach the engine; the first two by a spread.
pub record PolicyChangePayload : Type 0 where
  pub community_id : Option ℕ
  pub proposal_id : Option ℕ
  pub monthly_inflation_rate_bps : Option ℤ
  pub max_advance_rate_bps : Option ℤ
  pub member_mint_cap_rate_bps : Option ℤ
  pub rules : Option (List PolicyRule)
  pub advance_request_id : Option ℕ
  pub target_mint_event_id : Option ℕ

pub record ProposalRow : Type 0 where
  pub id : ℕ
  pub community_id : ℕ
  pub status : ProposalStatus
  pub type : Option ProposalType
  pub options : List ℕ
  pub end_time : Option ℕ
  pub created_at : ℕ
  pub epoch_number_snapshot : Option ℕ
  pub total_supply_snapshot : Option ℕ
  pub active_governance_supply_snapshot : Option ℕ
  pub token_policy_version_snapshot : Option ℕ
  pub snapshot_at : Option ℕ
  pub minimum_voter_count : ℕ
  pub policy_change_payload : Option PolicyChangePayload
  pub winning_option_id : Option ℕ
  pub voter_count : Option ℕ
  pub total_vote_weight : Option ℕ
  pub special_mint_recipient_id : Option ℕ
  pub ended_at : Option ℕ
  pub weights_merkle_root : Option ℕ
  pub votes_merkle_root : Option ℕ
  pub snapshot_public_record_id : Option ℕ
  pub result_public_record_id : Option ℕ
  pub title : ℕ
  pub description : Option ℕ
  pub created_by : ℕ
  pub start_time : Option ℕ
  pub epoch_id_snapshot : Option ℕ
  pub advance_amount : Option ℤ
  pub special_mint_amount : Option ℤ
  pub related_party_note : Option ℕ

pub record SnapshotRow : Type 0 where
  pub proposal_id : ℕ
  pub member_id : ℕ
  pub active_governance_token : ℕ

pub record VoteRow : Type 0 where
  pub id : ℕ
  pub proposal_id : ℕ
  pub member_id : ℕ
  pub option_id : ℕ
  pub total_token_balance_snapshot : ℕ
  pub active_governance_balance_snapshot : ℕ
  pub total_supply_snapshot : ℕ

pub record PublicRecordRow : Type 0 where
  pub id : ℕ
  pub community_id : ℕ
  pub record_type : RecordType
  pub status : RecordStatus
  pub chain_eligible : Bool
  pub record_hash : ℕ
  pub source_table : SourceTable
  pub source_id : ℕ
  pub tx_hash : Option ℕ
  pub assigned_nonce : Option ℕ
  pub block_number : Option ℕ
  pub block_hash : Option ℕ
  pub submitted_at : Option ℕ
  pub confirmed_at : Option ℕ
  pub attempt_epoch : ℕ
  pub last_error : Option LastError
  pub superseded_by_record_id : Option ℕ

-- `voterCount >= minimumVoterCount`, where a vote count is there.
abbrev pub quorum_met : ProposalRow → Bool
quorum_met p = elim p.voter_count [ none ↦ false | some n ↦ leb p.minimum_voter_count n ]
