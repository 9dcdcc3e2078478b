-- ===== src/Chain/Actions/Service/Tests.antt =====
-- Two ticks of a worker on one action.
use you_fen.Base.{◌≡◌, refl, true, false, none, some, [], ◌∷◌}
use you_fen.Chain.Actions.{ready_to_submit, submitting, expired, next_states, can_move}
use you_fen.Chain.Actions.Service.{
  CreateChainActionInput, ActionTable, action_row, create_chain_action, transition_action,
}
use you_fen.Chain.Actions.Service.Races.{transition_action-race, create_chain_action-again}

abbrev mint_call : CreateChainActionInput
mint_call = record {
  community_id = 1;
  kind = 0;
  signature_request_id = none;
  call_data = 9;
  record_hash = some 77;
  contribution_id = some 50;
  proposal_id = none;
  member_id_hash = some 3;
  amount = some 20;
  idempotency_key = none;
  initial_status = some ready_to_submit;
}

abbrev one_action : ActionTable
one_action = record { rows = action_row mint_call 4 ∷ []; next_id = 5 }

abbrev taken : ActionTable
taken = record one_action { rows = record (action_row mint_call 4) { status = submitting } ∷ [] }

first_tick : transition_action 4 ready_to_submit submitting none one_action ≡ some (true, taken)
unfolding transition_action can_move next_states
first_tick = refl

may_expire : can_move ready_to_submit expired ≡ true
unfolding can_move next_states
may_expire = refl

-- The second tick finds the action too old, too late.
transition_action-race_example :
    transition_action 4 ready_to_submit expired (some (some 1)) taken ≡ some (false, taken)
transition_action-race_example =
    transition_action-race 4 ready_to_submit submitting expired none (some (some 1)) one_action
      taken true first_tick may_expire

create_chain_action-again_example :
    let r = create_chain_action mint_call one_action in
    create_chain_action mint_call r.1 ≡ (record { id = r.0.id; created = false }, r.1)
create_chain_action-again_example = create_chain_action-again mint_call one_action refl
