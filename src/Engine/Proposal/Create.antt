-- ===== src/Engine/Proposal/Create.antt =====
-- lib/engine/proposal-service.ts: create, with the extras that each type of proposal needs.
use you_fen.Base.{
  ℕ, ℤ, Bool, true, false, ◌&&◌, not, Option, none, some, List, [], ◌∷◌, ◌++◌, length, ltb,
  or_default, is_some,
}
use you_fen.Engine.Errors.{Result, ok, validation_error, fail}
use you_fen.Engine.Tables.{
  ProposalRow, ProposalStatus, ProposalType, PolicyChangePayload, RecordType, SourceTable,
}
use you_fen.Engine.Db.{Tx, ◌>>=◌, ◌>>◌, pure, lift, require, throw_if, modify, fresh_id}
use you_fen.Engine.Ports.{Ports, create_db_only_record}

-- A text that is no date is `some none`.
pub record ProposalMetadata : Type 0 where
  pub policy_change_payload : Option PolicyChangePayload
  pub advance_amount : Option ℤ
  pub special_mint_recipient_id : Option ℕ
  pub special_mint_amount : Option ℤ
  pub related_party_note : Option ℕ
  pub description : Option ℕ
  pub minimum_voter_count : Option ℕ
  pub end_time : Option (Option ℕ)

-- A type that the code does not know is `none`; an option is its id, and no options are none at all.
pub record ProposalCreateInput : Type 0 where
  pub community_id : ℕ
  pub title : ℕ
  pub type : Option ProposalType
  pub created_by : ℕ
  pub options : List ℕ
  pub metadata : ProposalMetadata

-- The default of the column `minimumVoterCount`.
abbrev pub default_minimum_voter_count : ℕ
default_minimum_voter_count = 3

abbrev pub parse_end_time : Option (Option ℕ) → Result (Option ℕ)
parse_end_time none = ok none
parse_end_time (some none) = fail validation_error
parse_end_time (some (some t)) = ok (some t)

-- `base`, where the columns that a type adds are empty; `now` and `id` are the columns' defaults.
abbrev pub base_row :
    ProposalCreateInput → ProposalMetadata → ProposalType → Option ℕ → ℕ → ℕ → ProposalRow
base_row input meta type end_time now id = record {
  id = id;
  community_id = input.community_id;
  status = ProposalStatus.draft;
  type = some type;
  options = input.options;
  end_time = end_time;
  created_at = now;
  epoch_number_snapshot = none;
  total_supply_snapshot = none;
  active_governance_supply_snapshot = none;
  token_policy_version_snapshot = none;
  snapshot_at = none;
  minimum_voter_count = or_default meta.minimum_voter_count default_minimum_voter_count;
  policy_change_payload = none;
  winning_option_id = none;
  voter_count = none;
  total_vote_weight = none;
  special_mint_recipient_id = none;
  ended_at = none;
  weights_merkle_root = none;
  votes_merkle_root = none;
  snapshot_public_record_id = none;
  result_public_record_id = none;
  title = input.title;
  description = meta.description;
  created_by = input.created_by;
  start_time = none;
  epoch_id_snapshot = none;
  advance_amount = none;
  special_mint_amount = none;
  related_party_note = none;
}

abbrev pub has_rates : Option PolicyChangePayload → Bool
has_rates none = false
has_rates (some p) =
    is_some p.monthly_inflation_rate_bps
    && (is_some p.max_advance_rate_bps && is_some p.member_mint_cap_rate_bps)

abbrev pub names_request : Option PolicyChangePayload → Bool
names_request none = false
names_request (some p) = is_some p.advance_request_id

abbrev pub names_mint_event : Option PolicyChangePayload → Bool
names_mint_event none = false
names_mint_event (some p) = is_some p.target_mint_event_id

-- The tests of `need`, by type.
abbrev pub has_extras : ProposalType → ProposalMetadata → Bool
has_extras ProposalType.community_decision meta = true
has_extras ProposalType.token_policy_change meta = has_rates meta.policy_change_payload
has_extras ProposalType.budget_advance meta =
    is_some meta.advance_amount && names_request meta.policy_change_payload
has_extras ProposalType.special_mint meta =
    is_some meta.special_mint_recipient_id && is_some meta.special_mint_amount
has_extras ProposalType.related_party_mint meta =
    is_some meta.special_mint_recipient_id
    && (is_some meta.special_mint_amount && is_some meta.related_party_note)
has_extras ProposalType.token_reversal meta = names_mint_event meta.policy_change_payload

-- The columns that a type adds.
abbrev pub add_extras : ProposalType → ProposalMetadata → ProposalRow → ProposalRow
add_extras ProposalType.community_decision meta p = p
add_extras ProposalType.token_policy_change meta p = record p {
  policy_change_payload = meta.policy_change_payload;
}
add_extras ProposalType.budget_advance meta p = record p {
  advance_amount = meta.advance_amount;
  policy_change_payload = meta.policy_change_payload;
}
add_extras ProposalType.special_mint meta p = record p {
  special_mint_recipient_id = meta.special_mint_recipient_id;
  special_mint_amount = meta.special_mint_amount;
}
add_extras ProposalType.related_party_mint meta p = record p {
  special_mint_recipient_id = meta.special_mint_recipient_id;
  special_mint_amount = meta.special_mint_amount;
  related_party_note = meta.related_party_note;
}
add_extras ProposalType.token_reversal meta p = record p {
  policy_change_payload = meta.policy_change_payload;
}

-- The number that stands for a type in the payload of a record.
abbrev type_number : ProposalType → ℕ
type_number ProposalType.community_decision = 0
type_number ProposalType.token_policy_change = 1
type_number ProposalType.budget_advance = 2
type_number ProposalType.special_mint = 3
type_number ProposalType.related_party_mint = 4
type_number ProposalType.token_reversal = 5

-- `create`
unfoldable pub create : Ports → ProposalCreateInput → Tx ℕ
create ports input = do
  type ← require input.type validation_error
  throw_if (ltb (length input.options) 2) validation_error
  end_time ← lift (parse_end_time input.metadata.end_time)
  throw_if (not (has_extras type input.metadata)) validation_error
  id ← fresh_id
  modify λ d. record d {
    proposals =
        d.proposals
        ++ add_extras type input.metadata (base_row input input.metadata type end_time ports.now id)
          ∷ [];
  }
  record_id ←
      create_db_only_record ports input.community_id RecordType.proposal_created
        SourceTable.proposal id (type_number type ∷ input.title ∷ length input.options ∷ [])
  pure id
