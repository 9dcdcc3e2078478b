-- ===== src/Engine/Balances.antt =====
-- `lockOrCreateBalance` of lib/engine/mint-service.ts, which advance-service.ts writes out again.
use you_fen.Base.{ℕ, ◌+◌, Option, none, some, [], ◌∷◌, ◌++◌, any, update_first}
use you_fen.Engine.Errors.{not_found}
use you_fen.Engine.Tables.{BalanceRow, StateRow}
use you_fen.Engine.Db.{Tx, ◌>>=◌, ◌>>◌, pure, gets, require, modify, fresh_id, assert_found}
use you_fen.Engine.Db.Locks.{lock_balance, is_balance_of, is_state_of}

abbrev pub zero_balance : ℕ → ℕ → ℕ → BalanceRow
zero_balance id community_id member_id = record {
  id = id;
  community_id = community_id;
  member_id = member_id;
  total_balance = 0;
  active_governance_balance = 0;
  pending_governance_balance = 0;
  tokens_earned_current_epoch = 0;
  tokens_earned_lifetime = 0;
  tokens_reversed_lifetime = 0;
  last_mint_at = none;
}

-- The row is created only where none is found, so the unique key is free.
unfoldable pub create_balance : ℕ → ℕ → Tx BalanceRow
unfolding lock_balance
create_balance community_id member_id = do
  id ← fresh_id
  modify λ d. record d { balances = d.balances ++ zero_balance id community_id member_id ∷ [] }
  require (← lock_balance community_id member_id) not_found

abbrev pub create_if_missing : ℕ → ℕ → Option BalanceRow → Tx BalanceRow
create_if_missing community_id member_id none = create_balance community_id member_id
create_if_missing community_id member_id (some b) = pure b

unfoldable pub lock_or_create_balance : ℕ → ℕ → Tx BalanceRow
unfolding lock_balance create_balance
lock_or_create_balance community_id member_id = do
  existing ← lock_balance community_id member_id
  create_if_missing community_id member_id existing

-- `memberTokenBalance.update`
unfoldable pub credit_balance : ℕ → ℕ → (BalanceRow → BalanceRow) → Tx Unit
credit_balance community_id member_id change = do
  assert_found (← gets λ d. any (is_balance_of community_id member_id) d.balances)
  modify λ d. record d {
    balances = update_first (is_balance_of community_id member_id) change d.balances;
  }

abbrev pub grow : ℕ → StateRow → StateRow
grow amount s = record s { current_total_supply = s.current_total_supply + amount }

-- `communityTokenState.update`, which increments the supply.
unfoldable pub grow_supply : ℕ → ℕ → Tx Unit
grow_supply community_id amount = do
  assert_found (← gets λ d. any (is_state_of community_id) d.states)
  modify λ d. record d { states = update_first (is_state_of community_id) (grow amount) d.states }

-- The two writes of a mint: the balance of the member and the supply of the community.
unfoldable pub credit_member : ℕ → ℕ → (BalanceRow → BalanceRow) → ℕ → Tx Unit
unfolding credit_balance grow_supply
credit_member community_id member_id change amount = do
  credit_balance community_id member_id change
  grow_supply community_id amount
