-- ===== src/Engine/Reversal/Guards.antt =====
-- The checks of `reverseMint`: the reason, the governance gate, the amount, the bounds.
use you_fen.Base.{
  ℕ, ℤ, pos, negsuc, Bool, true, false, not, ◌&&◌, ◌||◌, Option, none, some, ◌==◌, ltb, leb, find,
  option_eq, if◌then◌else◌,
}
use you_fen.Engine.Errors.{Result, ok, fail, proposal_required, validation_error}
use you_fen.Engine.Tables.{
  ReversalReason, MintEventRow, BalanceRow, StateRow, ProposalRow, ProposalType, GovernanceStatus,
  PolicyChangePayload, proposal_is_recorded, approve_option_id, quorum_met,
}
use you_fen.Engine.Db.{Tx, ◌>>=◌, pure, gets, throw, require, throw_if}

pub record ReverseInput : Type 0 where
  pub original_mint_event_id : ℕ
  pub amount : Option ℤ
  pub reason : ReversalReason
  pub approved_by : ℕ
  pub proposal_id : Option ℕ

abbrev pub is_known_reason : ReversalReason → Bool
is_known_reason ReversalReason.unknown = false
is_known_reason _ = true

abbrev pub is_community_proposal : ReversalReason → Bool
is_community_proposal ReversalReason.community_proposal = true
is_community_proposal _ = false

abbrev is_token_reversal : Option ProposalType → Bool
is_token_reversal (some ProposalType.token_reversal) = true
is_token_reversal _ = false

-- `readTargetMintEventId`
abbrev pub read_target_mint_event_id : Option PolicyChangePayload → Option ℕ
read_target_mint_event_id none = none
read_target_mint_event_id (some payload) = payload.target_mint_event_id

-- A passed proposal that authorises the reversal of this mint.
abbrev pub authorizes_reversal : MintEventRow → ProposalRow → Bool
authorizes_reversal mint p =
    is_token_reversal p.type
    && (proposal_is_recorded p.status
        && (p.community_id == mint.community_id
            && (option_eq p.winning_option_id (some approve_option_id)
                && (quorum_met p
                    && option_eq (read_target_mint_event_id p.policy_change_payload)
                        (some mint.id)))))

-- Step 3, for a mint that needs a proposal.
abbrev pub require_reversal_proposal : MintEventRow → Option ℕ → Tx Unit
require_reversal_proposal mint none = throw proposal_required
require_reversal_proposal mint (some proposal_id) = do
  p ← require (← gets λ d. find (λ r. r.id == proposal_id) d.proposals) proposal_required
  throw_if (not (authorizes_reversal mint p)) proposal_required

-- Step 3. The full row of the mint is the one that is locked.
unfoldable pub governance_gate : ReverseInput → MintEventRow → Tx Unit
governance_gate i mint =
    if is_community_proposal i.reason || mint.related_party
    then require_reversal_proposal mint i.proposal_id
    else pure tt

-- Step 5: `amount <= 0n || amount > mint.amount` throws.
abbrev pub reversal_amount : Option ℤ → ℕ → Result ℕ
reversal_amount none minted = if ltb 0 minted then ok minted else fail validation_error
reversal_amount (some (pos n)) minted =
    if ltb 0 n && leb n minted then ok n else fail validation_error
reversal_amount (some (negsuc n)) minted = fail validation_error

abbrev is_active : GovernanceStatus → Bool
is_active GovernanceStatus.active = true
is_active GovernanceStatus.pending = false

-- Step 6: what is taken from the active and from the pending part.
abbrev pub active_deduct : MintEventRow → ℕ → ℕ
active_deduct mint amount = if is_active mint.governance_status then amount else 0

abbrev pub pending_deduct : MintEventRow → ℕ → ℕ
pending_deduct mint amount = if is_active mint.governance_status then 0 else amount

-- Some difference would be negative.
abbrev pub overdraws : MintEventRow → BalanceRow → StateRow → ℕ → Bool
overdraws mint balance state amount =
    ltb balance.total_balance amount
    || (ltb balance.active_governance_balance (active_deduct mint amount)
        || (ltb balance.pending_governance_balance (pending_deduct mint amount)
            || ltb state.current_total_supply amount))
