-- ===== src/Chain/Actions/Tests.antt =====
-- An action that was confirmed and superseded.
use you_fen.Base.{◌≡◌, refl, false}
use you_fen.Chain.Actions.{
  verified, superseded, can_move, is_confirmed_mutation, rolls_back_pending,
}
use you_fen.Chain.Actions.Lifecycle.{Moves, confirmed-Moves}

confirmed-Moves_example : rolls_back_pending superseded ≡ false
unfolding can_move is_confirmed_mutation
confirmed-Moves_example =
    confirmed-Moves verified superseded refl (Moves.then {x = verified} Moves.stay refl)
