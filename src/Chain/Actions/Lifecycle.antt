-- ===== src/Chain/Actions/Lifecycle.antt =====
-- What sequences of legal moves of a chain action reach.
use you_fen.Base.{◌≡◌, ◌↔◌, ◌⊎◌, inl, inr, true, false, [], arith}
use you_fen.Chain.Actions.{
  ChainActionStatus, verified, superseded, next_states, is_terminal, can_move,
  is_confirmed_mutation, rolls_back_pending,
}

-- A status of a chain action is terminal exactly if no move leads out of it.
pub is_terminal_iff : (s : ChainActionStatus) → (is_terminal s ≡ true) ↔ (next_states s ≡ [])
unfolding is_terminal next_states
is_terminal_iff s = ground arith

-- Sequences of legal moves.
pub data Moves (s : ChainActionStatus) : ChainActionStatus → Type 0 where
  stay : Moves s s
  then : {x y : ChainActionStatus} → Moves s x → can_move x y ≡ true → Moves s y

from_confirmed :
    (x y : ChainActionStatus)
    → (x ≡ verified) ⊎ (x ≡ superseded)
    → can_move x y ≡ true
    → y ≡ superseded
unfolding can_move
from_confirmed x y h edge = ground arith

confirmed_stays :
    (s x : ChainActionStatus)
    → is_confirmed_mutation s ≡ true
    → Moves s x
    → (x ≡ verified) ⊎ (x ≡ superseded)
unfolding is_confirmed_mutation
confirmed_stays s _ h Moves.stay = inl (ground arith)
confirmed_stays s x h (Moves.then {x = m} moves edge) =
    inr (from_confirmed m x (confirmed_stays s m h moves) edge)

-- Once an action's balances are confirmed, no sequence of legal moves rolls it back.
pub confirmed-Moves :
    (s x : ChainActionStatus)
    → is_confirmed_mutation s ≡ true
    → Moves s x
    → rolls_back_pending x ≡ false
unfolding rolls_back_pending
confirmed-Moves s x h moves = ground (arith, confirmed_stays s x h moves)
