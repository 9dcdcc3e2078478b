-- ===== src/Chain/Actions.antt =====
-- lib/blockchain/relay/action-state-machine.ts: the states of an action that is relayed to the chain.
pub mod Lifecycle
pub mod Service
mod Tests
use you_fen.Base.{Bool, true, false, ◌||◌, List, [], ◌∷◌, any}

pub data ChainActionStatus : Type 0 where
  awaiting_signatures ready_to_submit submitting submitted confirming : ChainActionStatus
  verified reverted expired superseded : ChainActionStatus

abbrev pub same_action_status : ChainActionStatus → ChainActionStatus → Bool
same_action_status awaiting_signatures awaiting_signatures = true
same_action_status ready_to_submit ready_to_submit = true
same_action_status submitting submitting = true
same_action_status submitted submitted = true
same_action_status confirming confirming = true
same_action_status verified verified = true
same_action_status reverted reverted = true
same_action_status expired expired = true
same_action_status superseded superseded = true
same_action_status _ _ = false

-- `TRANSITIONS`, which `nextStates` hands out.
unfoldable pub next_states : ChainActionStatus → List ChainActionStatus
next_states awaiting_signatures = ready_to_submit ∷ (expired ∷ [])
next_states ready_to_submit = submitting ∷ (expired ∷ [])
next_states submitting = submitted ∷ (ready_to_submit ∷ (reverted ∷ (expired ∷ [])))
next_states submitted = confirming ∷ (verified ∷ (reverted ∷ []))
next_states confirming = verified ∷ (reverted ∷ (expired ∷ []))
next_states verified = superseded ∷ []
next_states reverted = []
next_states expired = []
next_states superseded = []

-- `TERMINAL_STATES`
abbrev pub terminal_states : List ChainActionStatus
terminal_states = reverted ∷ (expired ∷ (superseded ∷ []))

unfoldable pub is_terminal : ChainActionStatus → Bool
is_terminal status = any (same_action_status status) terminal_states

-- `canTransition`
unfoldable pub can_move : ChainActionStatus → ChainActionStatus → Bool
unfolding next_states
can_move from to = any (same_action_status to) (next_states from)

-- `isConfirmedMutation`
unfoldable pub is_confirmed_mutation : ChainActionStatus → Bool
is_confirmed_mutation to = same_action_status to verified

-- `rollsBackPending`
unfoldable pub rolls_back_pending : ChainActionStatus → Bool
rolls_back_pending to = same_action_status to reverted || same_action_status to expired
