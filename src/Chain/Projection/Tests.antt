-- ===== src/Chain/Projection/Tests.antt =====
-- Two mints for one member.
use you_fen.Base.{ℕ, ◌≡◌, refl, inl, none, some, [], arith}
use you_fen.Chain.Projection.{
  EventName, DecodedChainEvent, EventArgs, Projections, ApplyOutcome, apply_event,
}
use you_fen.Chain.Projection.Replay.{apply_event-replay}
use you_fen.Chain.Projection.Fresher.{known_balance, known_supply}
use you_fen.Chain.Projection.Order.{apply_both, apply_event-commutes}

abbrev mint_args : ℕ → ℕ → EventArgs
mint_args balance regular = record {
  member_balance_after = some balance;
  total_supply_after = some balance;
  epoch_number = some 1;
  regular_amount = some regular;
  signer_address = none;
  new_addr = none;
  kind = none;
}

abbrev mint_event : ℕ → ℕ → EventArgs → DecodedChainEvent
mint_event seq tx args = record {
  event_name = EventName.mint_executed;
  community_id = some 1;
  member_id_hash = some 2;
  proposal_id = none;
  record_hash = some tx;
  ledger_seq = some seq;
  block_number = 10;
  log_index = 0;
  tx_hash = tx;
  args = args;
}

abbrev first_mint : DecodedChainEvent
first_mint = mint_event 1 100 (mint_args 5 5)

abbrev second_mint : DecodedChainEvent
second_mint = mint_event 2 101 (mint_args 12 7)

abbrev no_projections : Projections
no_projections = record {
  events = [];
  balances = [];
  supplies = [];
  counters = [];
  actions = [];
  records = [];
  signers = [];
  executions = [];
}

apply_event-replay_example :
    let q = (apply_event 3 first_mint no_projections).1 in
    apply_event 4 first_mint q ≡ (ApplyOutcome.skipped, q)
apply_event-replay_example = apply_event-replay 3 4 first_mint no_projections

apply_event-commutes_example :
    (known_balance 1 2 (apply_both 3 first_mint second_mint no_projections)
      ≡ known_balance 1 2 (apply_both 3 second_mint first_mint no_projections))
    × (known_supply 1 (apply_both 3 first_mint second_mint no_projections)
        ≡ known_supply 1 (apply_both 3 second_mint first_mint no_projections))
apply_event-commutes_example =
    apply_event-commutes 3 1 2 first_mint second_mint no_projections
      (record { named = inl refl; community = refl; member = refl })
      (record { named = inl refl; community = refl; member = refl }) refl (omega arith) refl refl
