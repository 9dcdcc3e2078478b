-- ===== src/Chain/Projection/Rows.antt =====
-- The events that lib/blockchain/indexer/event-decoder.ts decodes, and the tables that they are folded
-- into.
use you_fen.Base.{ℕ, Bool, Option, List}
use you_fen.Chain.Actions.{ChainActionStatus}
use you_fen.Engine.Tables.{VerificationStatus}

pub data EventName : Type 0 where
  mint_executed reversal_executed member_enrolled member_key_rotated : EventName
  proposal_executed other : EventName

-- The arguments that the fold reads.
pub record EventArgs : Type 0 where
  pub member_balance_after : Option ℕ
  pub total_supply_after : Option ℕ
  pub epoch_number : Option ℕ
  pub regular_amount : Option ℕ
  pub signer_address : Option ℕ
  pub new_addr : Option ℕ
  pub kind : Option ℕ

pub record DecodedChainEvent : Type 0 where
  pub event_name : EventName
  pub community_id : Option ℕ
  pub member_id_hash : Option ℕ
  pub proposal_id : Option ℕ
  pub record_hash : Option ℕ
  pub ledger_seq : Option ℕ
  pub block_number : ℕ
  pub log_index : ℕ
  pub tx_hash : ℕ
  pub args : EventArgs

pub record ChainEventRow : Type 0 where
  pub event : DecodedChainEvent
  pub applied_at : Option ℕ

pub record MemberChainBalance : Type 0 where
  pub community_id : ℕ
  pub member_id_hash : ℕ
  pub balance : ℕ
  pub ledger_seq : ℕ

pub record CommunityTokenState : Type 0 where
  pub community_id : ℕ
  pub current_total_supply : ℕ
  pub ledger_seq : ℕ

pub record MemberEpochMintCounter : Type 0 where
  pub community_id : ℕ
  pub member_id_hash : ℕ
  pub epoch_number : ℕ
  pub regular_minted : ℕ

pub record ChainActionRow : Type 0 where
  pub record_hash : Option ℕ
  pub status : ChainActionStatus

pub record ProjectedRecord : Type 0 where
  pub record_hash : ℕ
  pub status : VerificationStatus
  pub block_number : Option ℕ
  pub confirmed_at : Option ℕ

pub record MemberSigner : Type 0 where
  pub community_id : ℕ
  pub member_id : ℕ
  pub member_id_hash : ℕ
  pub signer_address : ℕ
  pub is_active : Bool
  pub enrolled_at : Option ℕ
  pub tx_hash : ℕ

pub record ProposalExecution : Type 0 where
  pub proposal_id : ℕ
  pub community_id : ℕ
  pub kind : ℕ
  pub approved : Bool
  pub executed_at : ℕ
  pub tx_hash : ℕ

pub record Projections : Type 0 where
  pub events : List ChainEventRow
  pub balances : List MemberChainBalance
  pub supplies : List CommunityTokenState
  pub counters : List MemberEpochMintCounter
  pub actions : List ChainActionRow
  pub records : List ProjectedRecord
  pub signers : List MemberSigner
  pub executions : List ProposalExecution
