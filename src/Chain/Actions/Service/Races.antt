-- ===== src/Chain/Actions/Service/Races.antt =====
-- Two workers, or two calls of one, on the same action.
use you_fen.Base.{
  ℕ, ◌≡◌, refl, sym, subst, ap, ◌∙◌, Bool, true, false, ◌||◌, if◌then◌else◌, is_some, Option, none,
  some, List, [], ◌∷◌, ◌++◌, select, update_all, find-append_none, option_eq, Option-cases,
  Bool-cases, inl, inr, ==_refl, arith,
}
use you_fen.Chain.Actions.{ChainActionStatus, same_action_status, next_states, can_move}
use you_fen.Chain.Actions.Service.{
  CreateChainActionInput, ChainActionRow, ActionTable, action_row, find_by_key, create_unless,
  create_chain_action, is_at, move_action, transition_action,
}

-- No edge leads from a status to itself.
no_loop : (s t : ChainActionStatus) → can_move s t ≡ true → same_action_status t s ≡ false
unfolding can_move next_states
no_loop s t h = ground arith

moved_away :
    (id : ℕ) (from to : ChainActionStatus) (x : Option (Option ℕ)) (r : ChainActionRow)
    → same_action_status to from ≡ false
    → is_at id from (move_action to x r) ≡ false
moved_away id from to none r h = ground arith
moved_away id from to (some o) r h = ground arith

-- After a move, no row is left at the status that it moved from.
none_left :
    (id : ℕ) (from to : ChainActionStatus) (x : Option (Option ℕ)) (rows : List ChainActionRow)
    (g : ChainActionRow → ChainActionRow)
    → same_action_status to from ≡ false
    → let moved = update_all (is_at id from) (move_action to x) rows in
      (select (is_at id from) moved ≡ []) × (update_all (is_at id from) g moved ≡ moved)
none_left id from to x [] g h = (refl, refl)
none_left id from to x (r ∷ rows) g h =
    let (ih, stays) = none_left id from to x rows g h in
    elim (Bool-cases (is_at id from r)) [
      | inl hit ↦
          rw (hit, moved_away id from to x r h) (ih, ap (λ rs. move_action to x r ∷ rs) stays)
      | inr miss ↦ rw miss (rw miss (ih, ap (λ rs. r ∷ rs) stays))
    ]

transition_action-run :
    (id : ℕ) (from to : ChainActionStatus) (x : Option (Option ℕ)) (t u : ActionTable) (b : Bool)
    → transition_action id from to x t ≡ some (b, u)
    → (can_move from to ≡ true)
      × (u ≡ record t { rows = update_all (is_at id from) (move_action to x) t.rows })
unfolding transition_action
transition_action-run id from to x t u b run = ground arith

-- On tables where no row is at the status.
nothing_moves :
    (id : ℕ) (from to : ChainActionStatus) (y : Option (Option ℕ)) (u : ActionTable)
    → can_move from to ≡ true
    → select (is_at id from) u.rows ≡ []
    → update_all (is_at id from) (move_action to y) u.rows ≡ u.rows
    → transition_action id from to y u ≡ some (false, u)
unfolding transition_action
nothing_moves id from to y u legal none_there same = rw (legal, none_there, same) refl

-- After a transition of an action that did not throw, every other transition of it from the same
-- status, to whatever status the machine allows, reports that it moved nothing and changes nothing.
pub transition_action-race :
    (id : ℕ) (from to other : ChainActionStatus) (x y : Option (Option ℕ)) (t u : ActionTable)
    (b : Bool)
    → transition_action id from to x t ≡ some (b, u)
    → can_move from other ≡ true
    → transition_action id from other y u ≡ some (false, u)
transition_action-race id from to other x y t u b first legal =
    let (edge, eq) = transition_action-run id from to x t u b first in
    let (none_there, same) =
      none_left id from to x t.rows (move_action other y) (no_loop from to edge) in
    nothing_moves id from other y u legal (ap (λ w. select (is_at id from) w.rows) eq ∙ none_there)
      (subst (λ w. update_all (is_at id from) (move_action other y) w.rows ≡ w.rows) (sym eq) same)

-- An action is found again by a key that its row has.
found_last :
    (key_of : ChainActionRow → Option ℕ) (o : Option ℕ) (rows : List ChainActionRow)
    (r : ChainActionRow)
    → key_of r ≡ o
    → find_by_key key_of o rows ≡ none
    → find_by_key key_of o (rows ++ r ∷ []) ≡ (if is_some o then some r else none)
found_last key_of none rows r own missing = refl
found_last key_of (some k) rows r own missing =
    find-append_none (λ q. option_eq (key_of q) (some k)) rows (r ∷ []) missing
    ∙ rw own (ground (arith, ==_refl k))

answers_again :
    (input : CreateChainActionInput) (row : ChainActionRow) (t : ActionTable)
    → (is_some input.record_hash || is_some input.idempotency_key) ≡ true
    → create_unless input
        (if is_some input.record_hash then some row else none)
        (if is_some input.idempotency_key then some row else none)
        t
      ≡ (record { id = row.id; created = false }, t)
answers_again input row t keyed = elim (Bool-cases (is_some input.record_hash)) [
  | inl given ↦ rw given refl
  | inr missing ↦ elim (Bool-cases (is_some input.idempotency_key)) [
    | inl key ↦ rw (missing, key) refl
    | inr neither ↦ absurd (ground arith)
  ]
]

-- A creation with a record's hash or a key, whatever the table is: done again on the table that it
-- left, it answers with the same action, as one that was there, and changes nothing.
pub create_chain_action-again :
    (input : CreateChainActionInput) (t : ActionTable)
    → (is_some input.record_hash || is_some input.idempotency_key) ≡ true
    → let r = create_chain_action input t in
      create_chain_action input r.1 ≡ (record { id = r.0.id; created = false }, r.1)
unfolding create_chain_action
create_chain_action-again input t keyed =
    elim (Option-cases (find_by_key (λ r. r.record_hash) input.record_hash t.rows)) [
      | inr (a, by_hash) ↦ rw by_hash (rw by_hash refl)
      | inl no_hash ↦
          elim (Option-cases (find_by_key (λ r. r.idempotency_key) input.idempotency_key t.rows)) [
            | inr (a, by_key) ↦ rw (no_hash, by_key) (rw (no_hash, by_key) refl)
            | inl no_key ↦
                let row = action_row input t.next_id in
                rw (no_hash, no_key)
                  (rw
                    (
                      found_last (λ r. r.record_hash) input.record_hash t.rows row refl no_hash,
                      found_last (λ r. r.idempotency_key) input.idempotency_key t.rows row refl
                          no_key,
                    )
                    (answers_again input row _ keyed))
          ]
    ]
