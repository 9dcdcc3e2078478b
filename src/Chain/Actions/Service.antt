-- ===== src/Chain/Actions/Service.antt =====
-- lib/blockchain/relay/chain-action-service.ts: the table of chain actions, which the workers of the
-- relay move by conditional updates. A transition that is not legal throws, which is `none`.
pub mod Races
mod Tests
use you_fen.Base.{
  ℕ, suc, Bool, true, false, ◌&&◌, Option, none, some, List, [], ◌∷◌, ◌++◌, ◌==◌, find, length,
  select, update_all, option_eq, or_default, if◌then◌else◌,
}
use you_fen.Chain.Actions.{
  ChainActionStatus, awaiting_signatures, ready_to_submit, same_action_status, can_move,
}

pub record CreateChainActionInput : Type 0 where
  pub community_id : ℕ
  pub kind : ℕ
  pub signature_request_id : Option ℕ
  pub call_data : ℕ
  pub record_hash : Option ℕ
  pub contribution_id : Option ℕ
  pub proposal_id : Option ℕ
  pub member_id_hash : Option ℕ
  pub amount : Option ℕ
  pub idempotency_key : Option ℕ
  pub initial_status : Option ChainActionStatus

pub record ChainActionRow : Type 0 where
  pub id : ℕ
  pub community_id : ℕ
  pub kind : ℕ
  pub status : ChainActionStatus
  pub signature_request_id : Option ℕ
  pub call_data : ℕ
  pub record_hash : Option ℕ
  pub contribution_id : Option ℕ
  pub proposal_id : Option ℕ
  pub member_id_hash : Option ℕ
  pub amount : Option ℕ
  pub idempotency_key : Option ℕ
  pub last_error : Option ℕ

pub record ActionTable : Type 0 where
  pub rows : List ChainActionRow
  pub next_id : ℕ

pub record CreateActionResult : Type 0 where
  pub id : ℕ
  pub created : Bool

abbrev pub action_row : CreateChainActionInput → ℕ → ChainActionRow
action_row input id = record {
  id = id;
  community_id = input.community_id;
  kind = input.kind;
  status = or_default input.initial_status awaiting_signatures;
  signature_request_id = input.signature_request_id;
  call_data = input.call_data;
  record_hash = input.record_hash;
  contribution_id = input.contribution_id;
  proposal_id = input.proposal_id;
  member_id_hash = input.member_id_hash;
  amount = input.amount;
  idempotency_key = input.idempotency_key;
  last_error = none;
}

-- `findUnique` by a key that is null if it is not given.
abbrev pub find_by_key :
    (ChainActionRow → Option ℕ) → Option ℕ → List ChainActionRow → Option ChainActionRow
find_by_key key_of none rows = none
find_by_key key_of (some key) rows = find (λ r. option_eq (key_of r) (some key)) rows

abbrev pub insert_action : CreateChainActionInput → ActionTable → CreateActionResult × ActionTable
insert_action input t = (
  record { id = t.next_id; created = true },
  record { rows = t.rows ++ action_row input t.next_id ∷ []; next_id = suc t.next_id },
)

-- The action that has the record's hash, else the one that has the key, else a new one.
abbrev pub create_unless :
    CreateChainActionInput
    → Option ChainActionRow
    → Option ChainActionRow
    → ActionTable
    → CreateActionResult × ActionTable
create_unless input (some dup) by_key t = (record { id = dup.id; created = false }, t)
create_unless input none (some dup) t = (record { id = dup.id; created = false }, t)
create_unless input none none t = insert_action input t

-- `createChainAction`
unfoldable pub create_chain_action :
    CreateChainActionInput → ActionTable → CreateActionResult × ActionTable
create_chain_action input t =
    create_unless input (find_by_key (λ r. r.record_hash) input.record_hash t.rows)
      (find_by_key (λ r. r.idempotency_key) input.idempotency_key t.rows) t

abbrev pub is_at : ℕ → ChainActionStatus → ChainActionRow → Bool
is_at id from r = r.id == id && same_action_status r.status from

-- `extra.lastError`, where it is given.
abbrev pub with_error : Option (Option ℕ) → ChainActionRow → ChainActionRow
with_error none r = r
with_error (some last_error) r = record r { last_error = last_error }

abbrev pub move_action : ChainActionStatus → Option (Option ℕ) → ChainActionRow → ChainActionRow
move_action to extra r = with_error extra (record r { status = to })

-- `transitionAction`: whether exactly one row has moved.
unfoldable pub transition_action :
    ℕ
    → ChainActionStatus
    → ChainActionStatus
    → Option (Option ℕ)
    → ActionTable
    → Option (Bool × ActionTable)
transition_action id from to extra t =
    if can_move from to
    then some (
      length (select (is_at id from) t.rows) == 1,
      record t { rows = update_all (is_at id from) (move_action to extra) t.rows },
    )
    else none

-- `markReadyToSubmit`
unfoldable pub mark_ready_to_submit : ℕ → ActionTable → Option (Bool × ActionTable)
mark_ready_to_submit id t = transition_action id awaiting_signatures ready_to_submit none t
