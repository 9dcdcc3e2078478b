-- ===== src/Engine/Fixture.antt =====
-- A community with one epoch, two members and an approved contribution, for the tests.
use you_fen.Base.{ℕ, ◌+◌, pos, false, none, some, [], ◌∷◌}
use you_fen.Engine.Tables.{
  EpochRow, BalanceRow, PolicyRow, ContributionRow, AdvanceRequestRow, EpochStatus, RequestStatus,
  ContributionStatus, Role,
}
use you_fen.Engine.Db.{Db}
use you_fen.Engine.Mint.Gates.{MintInput}
use you_fen.Engine.Ports.{Ports, RecordSource}

-- Hashes that are fresh numbers are enough for a test.
abbrev pub envelope_number : RecordSource → ℕ
envelope_number (RecordSource.token_mint m) = 100 + m.id
envelope_number (RecordSource.advance_mint m) = 100 + m.id
envelope_number (RecordSource.token_reversal r h) = 200 + r.id
envelope_number (RecordSource.epoch_summary e) = 300 + e.id
envelope_number (RecordSource.policy_version p) = 400 + p.id
envelope_number (RecordSource.proposal_snapshot p) = 500 + p.id
envelope_number (RecordSource.proposal_result p) = 600 + p.id

abbrev pub test_ports : Ports
test_ports = record {
  build_envelope = envelope_number;
  db_record_hash = λ k xs. 7;
  hash_member_id = λ c m. m;
  hash_option_id = λ p o. o;
  hash_snapshot_leaf = λ m w. m + w;
  hash_vote_leaf = λ m o w. m + o + w;
  hash_node = λ a b. a + b;
  now = 1000;
}

abbrev pub epoch_one : EpochRow
epoch_one = record {
  id = 10;
  community_id = 1;
  epoch_number = 1;
  opening_supply = 1000;
  base_mint_budget = 100;
  advance_debt_from_previous_epoch = 0;
  effective_regular_budget = 100;
  max_advance_amount = 25;
  regular_minted_amount = 90;
  advanced_minted_amount = 0;
  unused_regular_budget = pos 0;
  inflation_rate_bps = 1000;
  status = EpochStatus.active;
  start_time = some 0;
  end_time = some 500;
  closed_at = none;
  public_record_id = none;
  created_at = 0;
}

abbrev pub founder_balance : BalanceRow
founder_balance = record {
  id = 20;
  community_id = 1;
  member_id = 2;
  total_balance = 0;
  active_governance_balance = 0;
  pending_governance_balance = 0;
  tokens_earned_current_epoch = 0;
  tokens_earned_lifetime = 0;
  tokens_reversed_lifetime = 0;
  last_mint_at = none;
}

abbrev pub policy_one : PolicyRow
policy_one = record {
  id = 30;
  community_id = 1;
  policy_version = 1;
  rules = some (record { id = 40; token_amount = pos 50 } ∷ []);
  monthly_inflation_rate_bps = 1000;
  max_advance_rate_bps = 2500;
  member_mint_cap_rate_bps = 5000;
  epoch_duration_days = 30;
  pending_policy_version_id = none;
  pending_policy_effective_epoch = none;
}

abbrev pub contribution_one : ContributionRow
contribution_one = record {
  id = 50;
  community_id = 1;
  member_id = 3;
  description = 0;
  rule_id = some 40;
  approved_token_amount = some (pos 20);
  status = ContributionStatus.approved;
  evidence = [];
}

-- Two admins have approved an advance for the contribution.
abbrev pub request_one : AdvanceRequestRow
request_one = record {
  id = 60;
  community_id = 1;
  epoch_id = 10;
  member_id = 3;
  requested_amount = 10;
  approved_amount = none;
  advance_rate_bps = 1000;
  reason = 0;
  contribution_ids = 50 ∷ [];
  status = RequestStatus.approved;
  related_party = false;
  requested_by = 4;
  second_approved_by = some 5;
  proposal_id = none;
  approved_at = some 1;
  executed_at = none;
  public_record_id = none;
  created_at = 0;
}

-- The budget has 10 left, so that a mint of 20 takes both legs.
abbrev pub town : Db
town = record {
  epochs = epoch_one ∷ [];
  balances = founder_balance ∷ [];
  states = record { community_id = 1; current_total_supply = 0; ledger_seq = 7 } ∷ [];
  mint_events = [];
  reversal_events = [];
  policies = policy_one ∷ [];
  policy_versions = [];
  contributions = contribution_one ∷ [];
  members = record { id = 2; role = Role.owner } ∷ record { id = 3; role = Role.other } ∷ [];
  advance_requests = request_one ∷ [];
  proposals = [];
  snapshots = [];
  votes = [];
  records = [];
  next_id = 1000;
}

abbrev pub split_input : MintInput
split_input = record {
  contribution_id = 50;
  approver_id = 4;
  second_approver_id = none;
  proposal_id = none;
  advance_request_id = some 60;
}
