-- ===== src/Chain/Projection.antt =====
-- lib/blockchain/indexer/projection.ts: one decoded event of the chain is folded into the tables that
-- mirror it. Hashes, addresses and texts are numbers; a row is addressed by its key.
mod Rows
pub mod Replay
pub mod Fresher
pub mod Order
mod Tests
pub use Rows.*
use you_fen.Base.{
  ℕ, ◌+◌, Bool, true, false, ◌&&◌, not, Option, none, some, List, [], ◌∷◌, ◌++◌, ◌==◌, ltb, any,
  find, update_first, update_all, option_eq, or_default, is_some, if◌then◌else◌,
}
use you_fen.Chain.Actions.{ChainActionStatus, verified, superseded, reverted, same_action_status}
use you_fen.Engine.Tables.{VerificationStatus}

-- `upsert` of the row that passes the test.
abbrev pub upsert {ℓ} : {A : Type ℓ} → (A → Bool) → A → (A → A) → List A → List A
upsert hit row change rows = if any hit rows then update_first hit change rows else rows ++ row ∷ []

abbrev pub is_event : ℕ → ℕ → ChainEventRow → Bool
is_event tx_hash log_index r = r.event.tx_hash == tx_hash && r.event.log_index == log_index

abbrev pub is_member_balance : ℕ → ℕ → MemberChainBalance → Bool
is_member_balance community member b = b.community_id == community && b.member_id_hash == member

abbrev pub is_supply_of : ℕ → CommunityTokenState → Bool
is_supply_of community s = s.community_id == community

-- The balance of a member: the event of the higher sequence wins.
abbrev pub take_balance : ℕ → ℕ → MemberChainBalance → MemberChainBalance
take_balance balance seq b =
    if ltb b.ledger_seq seq then record b { balance = balance; ledger_seq = seq } else b

abbrev pub new_balance : ℕ → ℕ → ℕ → ℕ → MemberChainBalance
new_balance community member balance seq = record {
  community_id = community;
  member_id_hash = member;
  balance = balance;
  ledger_seq = seq;
}

unfoldable pub fold_balance : ℕ → ℕ → ℕ → ℕ → List MemberChainBalance → List MemberChainBalance
fold_balance community member balance seq =
    upsert (is_member_balance community member) (new_balance community member balance seq)
      (take_balance balance seq)

abbrev pub take_supply : ℕ → ℕ → CommunityTokenState → CommunityTokenState
take_supply supply seq s =
    if ltb s.ledger_seq seq then record s { current_total_supply = supply; ledger_seq = seq } else s

abbrev pub new_supply : ℕ → ℕ → ℕ → CommunityTokenState
new_supply community supply seq = record {
  community_id = community;
  current_total_supply = supply;
  ledger_seq = seq;
}

unfoldable pub fold_supply : ℕ → ℕ → ℕ → List CommunityTokenState → List CommunityTokenState
fold_supply community supply seq =
    upsert (is_supply_of community) (new_supply community supply seq) (take_supply supply seq)

abbrev pub is_counter_of : ℕ → ℕ → ℕ → MemberEpochMintCounter → Bool
is_counter_of community member epoch c =
    c.community_id == community && (c.member_id_hash == member && c.epoch_number == epoch)

abbrev pub fold_counter : ℕ → ℕ → ℕ → ℕ → List MemberEpochMintCounter → List MemberEpochMintCounter
fold_counter community member epoch regular =
    upsert (is_counter_of community member epoch)
      (record {
        community_id = community;
        member_id_hash = member;
        epoch_number = epoch;
        regular_minted = regular;
      })
      λ c. record c { regular_minted = c.regular_minted + regular }

-- `CHAIN_ACTION_LOCKED`
abbrev pub chain_action_locked : List ChainActionStatus
chain_action_locked = verified ∷ (superseded ∷ (reverted ∷ []))

abbrev pub drives : ℕ → ChainActionRow → Bool
drives record_hash a =
    option_eq a.record_hash (some record_hash)
    && not (any (same_action_status a.status) chain_action_locked)

abbrev pub verify_action : ChainActionRow → ChainActionRow
verify_action a = record a { status = verified }

abbrev pub verify_record : ℕ → ℕ → ProjectedRecord → ProjectedRecord
verify_record block now r = record r {
  status = VerificationStatus.verified;
  block_number = some block;
  confirmed_at = some now;
}

abbrev pub mark_verified : ℕ → ℕ → Option ℕ → Projections → Projections
mark_verified block now none p = p
mark_verified block now (some record_hash) p = record p {
  actions = update_all (drives record_hash) verify_action p.actions;
  records = update_all (λ r. r.record_hash == record_hash) (verify_record block now) p.records;
}

-- The three counts of a balance event.
abbrev pub fold_counts : Bool → DecodedChainEvent → ℕ → ℕ → Projections → Projections
fold_counts is_reversal e community member p = record p {
  balances =
      fold_balance community member (or_default e.args.member_balance_after 0)
        (or_default e.ledger_seq 0) p.balances;
  supplies =
      fold_supply community (or_default e.args.total_supply_after 0) (or_default e.ledger_seq 0)
        p.supplies;
  counters =
      if is_reversal
      then p.counters
      else fold_counter community member (or_default e.args.epoch_number 0)
          (or_default e.args.regular_amount 0) p.counters;
}

-- An event that names no community or no member is not folded.
abbrev pub for_member :
    Option ℕ → Option ℕ → (ℕ → ℕ → Projections → Projections) → Projections → Projections
for_member none member f p = p
for_member (some community) none f p = p
for_member (some community) (some member) f p = f community member p

-- `applyBalanceEvent`
unfoldable pub apply_balance_event : ℕ → Bool → DecodedChainEvent → Projections → Projections
apply_balance_event now is_reversal e =
    for_member e.community_id e.member_id_hash λ community member p.
      mark_verified e.block_number now e.record_hash (fold_counts is_reversal e community member p)

abbrev pub is_signer_of : ℕ → ℕ → MemberSigner → Bool
is_signer_of community member s = s.community_id == community && s.member_id_hash == member

-- The empty text.
abbrev pub no_text : ℕ
no_text = 0

-- `applyEnroll`
unfoldable pub apply_enroll : ℕ → DecodedChainEvent → Projections → Projections
apply_enroll now e = for_member e.community_id e.member_id_hash λ community member p. record p {
  signers =
      upsert (is_signer_of community member)
        (record {
          community_id = community;
          member_id = no_text;
          member_id_hash = member;
          signer_address = or_default e.args.signer_address 0;
          is_active = true;
          enrolled_at = some now;
          tx_hash = e.tx_hash;
        })
        (λ s. record s {
          signer_address = or_default e.args.signer_address 0;
          is_active = true;
          enrolled_at = some now;
          tx_hash = e.tx_hash;
        })
        p.signers;
}

-- `applyRotate`
unfoldable pub apply_rotate : DecodedChainEvent → Projections → Projections
apply_rotate e = for_member e.community_id e.member_id_hash λ community member p. record p {
  signers =
      update_all (is_signer_of community member)
        (λ s. record s { signer_address = or_default e.args.new_addr 0; tx_hash = e.tx_hash })
        p.signers;
}

abbrev pub record_execution : ℕ → DecodedChainEvent → Option ℕ → Projections → Projections
record_execution now e none p = p
record_execution now e (some proposal) p = record p {
  executions =
      upsert (λ x. x.proposal_id == proposal)
        (record {
          proposal_id = proposal;
          community_id = or_default e.community_id 0;
          kind = or_default e.args.kind 0;
          approved = true;
          executed_at = now;
          tx_hash = e.tx_hash;
        })
        (λ x. record x { executed_at = now; tx_hash = e.tx_hash }) p.executions;
}

-- `applyProposalExecuted`
unfoldable pub apply_proposal_executed : ℕ → DecodedChainEvent → Projections → Projections
apply_proposal_executed now e = record_execution now e e.proposal_id

-- The switch on the name of the event.
abbrev pub fold_event : ℕ → DecodedChainEvent → EventName → Projections → Projections
fold_event now e EventName.mint_executed = apply_balance_event now false e
fold_event now e EventName.reversal_executed = apply_balance_event now true e
fold_event now e EventName.member_enrolled = apply_enroll now e
fold_event now e EventName.member_key_rotated = apply_rotate e
fold_event now e EventName.proposal_executed = apply_proposal_executed now e
fold_event now e EventName.other = λ p. p

pub data ApplyOutcome : Type 0 where
  applied skipped : ApplyOutcome

-- `existing?.appliedAt`
abbrev pub was_applied : Option ChainEventRow → Bool
was_applied none = false
was_applied (some r) = is_some r.applied_at

abbrev pub find_event : DecodedChainEvent → Projections → Option ChainEventRow
find_event e p = find (is_event e.tx_hash e.log_index) p.events

-- The row of the event, if it has none yet.
abbrev pub add_event : DecodedChainEvent → Option ChainEventRow → Projections → Projections
add_event e (some existing) p = p
add_event e none p = record p { events = p.events ++ record { event = e; applied_at = none } ∷ [] }

abbrev pub stamp : ℕ → ChainEventRow → ChainEventRow
stamp now r = record r { applied_at = some now }

abbrev pub mark_applied : ℕ → DecodedChainEvent → Projections → Projections
mark_applied now e p = record p {
  events = update_first (is_event e.tx_hash e.log_index) (stamp now) p.events;
}

-- `applyEvent`
unfoldable pub apply_event : ℕ → DecodedChainEvent → Projections → ApplyOutcome × Projections
apply_event now e p =
    let existing = find_event e p in
    if was_applied existing then (ApplyOutcome.skipped, p) else (
      ApplyOutcome.applied,
      mark_applied now e (fold_event now e e.event_name (add_event e existing p)),
    )
