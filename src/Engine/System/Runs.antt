-- ===== src/Engine/System/Runs.antt =====
-- Runs of the services on a small community, for the tests.
use you_fen.Base.{refl, pos, none, some, [], ◌∷◌, arith}
use you_fen.Engine.Calc.{
  calculate_base_mint_budget, calculate_effective_regular_budget, calculate_max_advance_amount,
  calculate_carried_over_debt, calculate_cumulative_advance_rate_bps,
  calculate_ownership_percentage, calculate_member_epoch_cap, resolve_advance_approval,
}
use you_fen.Engine.Tables.{ReversalReason}
use you_fen.Engine.Db.{Db, ◌>>=◌}
use you_fen.Engine.Db.Keeps.{Commits, db_of, committed-run}
use you_fen.Engine.Db.Locks.{
  lock_active_epoch, lock_epoch_by_id, lock_state, lock_balance, allocate_ledger_seq,
}
use you_fen.Engine.Db.Sql.{
  increment_regular_minted_guarded, increment_advanced_minted_guarded, activate_pending_governance,
}
use you_fen.Engine.Balances.{
  create_balance, lock_or_create_balance, credit_balance, grow_supply, credit_member,
}
use you_fen.Engine.Ports.{create_pending_record, create_db_only_record}
use you_fen.Engine.Books.{Balanced}
use you_fen.Engine.Fixture.{town, epoch_one, test_ports, split_input}
use you_fen.Engine.Mint.{MintOutcome, insert_mint_event, attach_record, attach_records, plan_legs}
use you_fen.Engine.Mint.Gates.{
  load_contribution, resolve_amount, arbitrate, resolve_split, verify_advance_approval,
  resolve_budget,
}
use you_fen.Engine.Mint.Contribution.{
  prepare_mint, insert_legs, meter_budgets, consume_request, write_mint, mint_for_contribution,
}
use you_fen.Engine.Mint.Genesis.{
  AllocationInput, allocate_one, allocate_all, finish_allocation, mint_initial_allocation,
}
use you_fen.Engine.Advance.{load_request, update_request}
use you_fen.Engine.Advance.Execute.{
  ExecuteInput, check_advance, insert_advance, settle_advance, execute,
}
use you_fen.Engine.Reversal.Guards.{ReverseInput, governance_gate}
use you_fen.Engine.Reversal.Reverse.{
  ReversalOutcome, lock_rows, bound_amount, check_reversal, insert_reversal, debit_member,
  attach_reversal_record, write_reversal, reverse_mint,
}
use you_fen.Engine.Policy.{read_policy, activate_pending_version}
use you_fen.Engine.Epoch.{derive_budget}
use you_fen.Engine.Epoch.Close.{
  CloseOutcome, update_epoch, require_policy, require_state, open_next, roll_governance,
  insert_epoch, record_budget, record_summary, close_active, close_epoch,
}
use you_fen.Engine.Epoch.Next.{NextEpoch, create_epoch, create_next_epoch}
use you_fen.Engine.System.{Step, Reach}

pub town-Balanced : Balanced 1 town
town-Balanced = ground arith

-- A mint that takes both legs.
abbrev pub minted_town : Db
minted_town = db_of (mint_for_contribution test_ports split_input town) town

pub mint_run :
    (o : MintOutcome) × Commits (mint_for_contribution test_ports split_input) town o minted_town
unfolding mint_for_contribution prepare_mint write_mint ◌>>=◌ load_contribution lock_active_epoch
    lock_state lock_or_create_balance lock_balance create_balance resolve_amount
    calculate_member_epoch_cap arbitrate resolve_budget resolve_split verify_advance_approval
    calculate_cumulative_advance_rate_bps resolve_advance_approval plan_legs
    calculate_ownership_percentage insert_legs allocate_ledger_seq insert_mint_event credit_member
    meter_budgets increment_regular_minted_guarded increment_advanced_minted_guarded consume_request
    attach_records attach_record create_pending_record
mint_run = committed-run (mint_for_contribution test_ports split_input) town refl

abbrev pub seed_input : AllocationInput
seed_input = record {
  community_id = 1;
  allocations =
      record { member_id = 2; amount = pos 30 } ∷ (record { member_id = 3; amount = pos 12 } ∷ []);
  reason = 0;
  approved_by = 2;
}

abbrev pub seeded_town : Db
seeded_town = db_of (mint_initial_allocation test_ports seed_input town) town

pub seed_run :
    (o : MintOutcome) × Commits (mint_initial_allocation test_ports seed_input) town o seeded_town
unfolding mint_initial_allocation ◌>>=◌ lock_state allocate_one allocate_all finish_allocation
    lock_or_create_balance lock_balance create_balance allocate_ledger_seq insert_mint_event
    calculate_ownership_percentage credit_balance grow_supply attach_records attach_record
    create_pending_record
seed_run = committed-run (mint_initial_allocation test_ports seed_input) town refl

-- The regular budget has 5 left, and the request asks for 10.
abbrev pub busy_town : Db
busy_town = record town { epochs = record epoch_one { regular_minted_amount = 95 } ∷ [] }

abbrev pub execute_input : ExecuteInput
execute_input = record { request_id = 60; evidence_urls = none }

abbrev pub advanced_town : Db
advanced_town = db_of (execute test_ports execute_input busy_town) busy_town

pub execute_run :
    (o : MintOutcome) × Commits (execute test_ports execute_input) busy_town o advanced_town
unfolding execute ◌>>=◌ lock_epoch_by_id load_request check_advance insert_advance settle_advance
    lock_state calculate_cumulative_advance_rate_bps lock_or_create_balance lock_balance
    create_balance allocate_ledger_seq calculate_ownership_percentage insert_mint_event
    credit_member increment_advanced_minted_guarded update_request attach_record
    create_pending_record create_db_only_record
execute_run = committed-run (execute test_ports execute_input) busy_town refl

pub busy_town-Balanced : Balanced 1 busy_town
busy_town-Balanced = ground arith

-- The first leg of the mint is reversed in part.
abbrev pub reverse_input : ReverseInput
reverse_input = record {
  original_mint_event_id = 1001;
  amount = some (pos 4);
  reason = ReversalReason.entry_error;
  approved_by = 4;
  proposal_id = none;
}

abbrev pub reversed_town : Db
reversed_town = db_of (reverse_mint test_ports reverse_input minted_town) minted_town

pub reverse_run :
    (o : ReversalOutcome) × Commits
      (reverse_mint test_ports reverse_input)
      minted_town
      o
      reversed_town
unfolding reverse_mint ◌>>=◌ check_reversal lock_rows governance_gate bound_amount write_reversal
    insert_reversal debit_member attach_reversal_record allocate_ledger_seq mint_for_contribution
    prepare_mint write_mint load_contribution lock_active_epoch lock_state lock_or_create_balance
    lock_balance create_balance resolve_amount calculate_member_epoch_cap arbitrate resolve_budget
    resolve_split verify_advance_approval calculate_cumulative_advance_rate_bps
    resolve_advance_approval plan_legs calculate_ownership_percentage insert_legs insert_mint_event
    credit_member meter_budgets increment_regular_minted_guarded increment_advanced_minted_guarded
    consume_request attach_records attach_record create_pending_record
reverse_run = committed-run (reverse_mint test_ports reverse_input) minted_town refl

abbrev pub closed_town : Db
closed_town = db_of (close_epoch test_ports 10 town) town

pub close_run : (o : CloseOutcome) × Commits (close_epoch test_ports 10) town o closed_town
unfolding close_epoch ◌>>=◌ lock_epoch_by_id close_active update_epoch open_next require_policy
    require_state calculate_carried_over_debt activate_pending_version read_policy derive_budget
    calculate_base_mint_budget calculate_effective_regular_budget calculate_max_advance_amount
    roll_governance activate_pending_governance insert_epoch record_budget create_db_only_record
    record_summary
close_run = committed-run (close_epoch test_ports 10) town refl

abbrev pub new_town : Db
new_town = record town { epochs = [] }

abbrev pub opened_town : Db
opened_town = db_of (create_next_epoch test_ports 1 new_town) new_town

pub open_run : (o : NextEpoch) × Commits (create_next_epoch test_ports 1) new_town o opened_town
unfolding create_next_epoch ◌>>=◌ create_epoch require_policy require_state derive_budget
    calculate_base_mint_budget calculate_effective_regular_budget calculate_max_advance_amount
open_run = committed-run (create_next_epoch test_ports 1) new_town refl

pub new_town-Balanced : Balanced 1 new_town
new_town-Balanced = ground arith

-- A mint, and then its reversal.
pub there_and_back : Reach town reversed_town
there_and_back =
    Reach.next (Reach.next Reach.start (Step.minting test_ports split_input mint_run.0 mint_run.1))
      (Step.reversing test_ports reverse_input reverse_run.0 reverse_run.1)
