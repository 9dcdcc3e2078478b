-- ===== src/Engine/Tables/Kinds.antt =====
-- The unions of lib/engine/types.ts, lib/blockchain/types.ts and the services, and tests on them.
use you_fen.Base.{ℕ, Bool, true, false}

pub data BudgetSource : Type 0 where
  current_epoch next_epoch_advance : BudgetSource

pub data MintType : Type 0 where
  contribution initial_allocation special_reward historical_correction : MintType

pub data GovernanceStatus : Type 0 where
  active pending : GovernanceStatus

-- `other` is any status that the code does not name.
pub data EpochStatus : Type 0 where
  active closing closed other : EpochStatus

pub data RequestStatus : Type 0 where
  pending_second_approval pending_proposal approved rejected executed other : RequestStatus

pub data ProposalStatus : Type 0 where
  draft active ended recorded other : ProposalStatus

pub data ProposalType : Type 0 where
  community_decision token_policy_change budget_advance : ProposalType
  special_mint related_party_mint token_reversal : ProposalType

pub data ContributionStatus : Type 0 where
  approved other : ContributionStatus

pub data Role : Type 0 where
  owner manager other : Role

-- `REVERSAL_REASONS`; `unknown` is any other text, which a caller may send.
pub data ReversalReason : Type 0 where
  fabricated_evidence duplicate_claim multi_account_abuse : ReversalReason
  vote_manipulation entry_error community_proposal unknown : ReversalReason

-- The `recordType` and the `sourceTable` of a public record.
pub data RecordType : Type 0 where
  token_mint advance_mint token_reversal epoch_summary policy_version : RecordType
  proposal_snapshot proposal_result : RecordType
  epoch_budget_created budget_advance advance_debt_repayment : RecordType
  inflation_rate_change proposal_created : RecordType

pub data SourceTable : Type 0 where
  token_mint_event token_reversal_event token_epoch token_policy_version : SourceTable
  community_token_policy token_advance_request proposal : SourceTable

-- `VerificationStatus` of lib/blockchain/types.ts.
pub data VerificationStatus : Type 0 where
  pending submitting confirming verified failed superseded : VerificationStatus

-- The status column of a public record: DB-only records are `recorded`.
pub data RecordStatus : Type 0 where
  verification : VerificationStatus → RecordStatus
  recorded : RecordStatus

-- The classes of lib/blockchain/errors.ts that the workers tell apart, without their messages.
pub data ChainError : Type 0 where
  retryable_error terminal_error already_recorded_error nonce_error : ChainError
  chain_unavailable_error : ChainError

-- What the workers write into `lastError`.
pub data LastError : Type 0 where
  of_error : ChainError → LastError
  reverted reconcile_hard_timeout : LastError

abbrev pub epoch_is_active : EpochStatus → Bool
epoch_is_active EpochStatus.active = true
epoch_is_active _ = false

abbrev pub request_is_approved : RequestStatus → Bool
request_is_approved RequestStatus.approved = true
request_is_approved _ = false

abbrev pub proposal_is_recorded : ProposalStatus → Bool
proposal_is_recorded ProposalStatus.recorded = true
proposal_is_recorded _ = false

abbrev pub contribution_is_approved : ContributionStatus → Bool
contribution_is_approved ContributionStatus.approved = true
contribution_is_approved ContributionStatus.other = false

-- `RELATED_PARTY_ROLES.has(role)`
abbrev pub is_related_role : Role → Bool
is_related_role Role.owner = true
is_related_role Role.manager = true
is_related_role Role.other = false

-- The option ids 'approve' and 'reject'.
abbrev pub approve_option_id : ℕ
approve_option_id = 0

abbrev pub reject_option_id : ℕ
reject_option_id = 1
