-- ===== src/Engine/System/Tests.antt =====
-- What the theorems say of runs on a small community.
use you_fen.Base.{◌+◌, ◌-◌, ◌≤◌, ◌≡◌, ◌≢◌, refl, arith}
use you_fen.Engine.Errors.{ok}
use you_fen.Engine.Books.{Balanced}
use you_fen.Engine.Fixture.{town, policy_one, test_ports, split_input}
use you_fen.Engine.Mint.{MintOutcome}
use you_fen.Engine.Mint.Contribution.{mint_for_contribution}
use you_fen.Engine.Mint.Conservation.{mint_for_contribution-Balanced}
use you_fen.Engine.Mint.Once.{mint_for_contribution-once}
use you_fen.Engine.Reversal.Reverse.Once.{reverse_mint-once}
use you_fen.Engine.Mint.Seed.{mint_initial_allocation-Balanced}
use you_fen.Engine.Advance.Execute.{execute}
use you_fen.Engine.Advance.Conservation.{execute-Balanced}
use you_fen.Engine.Reversal.Reverse.{reverse_mint}
use you_fen.Engine.Reversal.Reverse.Conservation.{reverse_mint-Balanced}
use you_fen.Engine.Epoch.{DerivedBudget, derive_budget}
use you_fen.Engine.Epoch.Budget.{derive_budget_lem}
use you_fen.Engine.Epoch.Conservation.{close_epoch-Balanced, create_next_epoch-Balanced}
use you_fen.Engine.Ledger.{LedgerReach}
use you_fen.Engine.System.{Reach-Balanced}
use you_fen.Engine.System.Refinement.{ledger_of, Reach-LedgerReach}
use you_fen.Engine.Advance.Once.{execute-again}
use you_fen.Engine.System.Runs.{
  town-Balanced, minted_town, mint_run, seed_input, seeded_town, seed_run, busy_town, execute_input,
  advanced_town, execute_run, busy_town-Balanced, reverse_input, reversed_town, reverse_run,
  closed_town, close_run, new_town, opened_town, open_run, new_town-Balanced, there_and_back,
}

mint_for_contribution-Balanced_example : Balanced 1 minted_town
mint_for_contribution-Balanced_example =
    mint_for_contribution-Balanced test_ports split_input 1 town mint_run.0 minted_town
      town-Balanced mint_run.1

mint_initial_allocation-Balanced_example : Balanced 1 seeded_town
mint_initial_allocation-Balanced_example =
    mint_initial_allocation-Balanced test_ports seed_input 1 town seed_run.0 seeded_town
      town-Balanced seed_run.1

execute-Balanced_example : Balanced 1 advanced_town
execute-Balanced_example =
    execute-Balanced test_ports execute_input 1 busy_town execute_run.0 advanced_town
      busy_town-Balanced execute_run.1

reverse_mint-Balanced_example : Balanced 1 reversed_town
reverse_mint-Balanced_example =
    reverse_mint-Balanced test_ports reverse_input 1 minted_town reverse_run.0 reversed_town
      mint_for_contribution-Balanced_example reverse_run.1

close_epoch-Balanced_example : Balanced 1 closed_town
close_epoch-Balanced_example =
    close_epoch-Balanced test_ports 10 1 town close_run.0 closed_town town-Balanced close_run.1

create_next_epoch-Balanced_example : Balanced 1 opened_town
create_next_epoch-Balanced_example =
    create_next_epoch-Balanced test_ports 1 1 new_town open_run.0 opened_town new_town-Balanced
      open_run.1

Reach-Balanced_example : Balanced 1 reversed_town
Reach-Balanced_example = Reach-Balanced 1 town reversed_town there_and_back town-Balanced

Reach-LedgerReach_example : LedgerReach (ledger_of 1 town) (ledger_of 1 reversed_town)
Reach-LedgerReach_example = Reach-LedgerReach 1 town reversed_town there_and_back town-Balanced

-- No second mint of contribution 50 commits, with whatever outcome and tables.
mint_for_contribution-once_example :
    mint_for_contribution test_ports split_input minted_town ≢ ok (mint_run.0, town)
mint_for_contribution-once_example =
    mint_for_contribution-once test_ports test_ports split_input split_input town minted_town town
      mint_run.0 mint_run.0 mint_run.1 refl

reverse_mint-once_example :
    reverse_mint test_ports reverse_input reversed_town ≢ ok (reverse_run.0, minted_town)
reverse_mint-once_example =
    reverse_mint-once test_ports test_ports reverse_input reverse_input minted_town reversed_town
      minted_town reverse_run.0 reverse_run.0 reverse_run.1 refl

derive_budget_lem_example :
    (b : DerivedBudget) × (derive_budget 1000 130 policy_one ≡ ok b)
    × (b.base_mint_budget ≤ 1000)
    × (b.max_advance_amount ≤ b.base_mint_budget)
    × (b.effective_regular_budget + 130 ≡ b.base_mint_budget + (130 - b.base_mint_budget))
derive_budget_lem_example = derive_budget_lem 1000 130 policy_one (omega arith) (omega arith)

-- The advance is executed a second time, later.
execute-again_example :
    (p : MintOutcome) × (execute (record test_ports { now = 2000 }) execute_input advanced_town
      ≡ ok (p, advanced_town))
execute-again_example =
    execute-again test_ports (record test_ports { now = 2000 }) execute_input execute_input
      busy_town execute_run.0 advanced_town execute_run.1 refl
