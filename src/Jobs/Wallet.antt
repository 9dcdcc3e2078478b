-- ===== src/Jobs/Wallet.antt =====
-- lib/blockchain/injective/wallet.ts: the counter of nonces of the server wallet. The node's count of
-- transactions is a parameter.
pub mod Keeps
use you_fen.Base.{ℕ, suc, Bool, true, false, Option, none, some, ◌==◌}
use you_fen.Engine.Tables.{nonce_error}
use you_fen.Jobs.{returned, World, Job, Port, Others, pure, throw, call, try_or, ◌>>=◌, ◌>>◌}

module _ {E : Type 0} where
  -- `resyncSeq += 1`
  abbrev pub start_resync : Job E ℕ
  start_resync w = (returned (suc w.resync_seq), record w { resync_seq = suc w.resync_seq })

  abbrev pub adopt : Bool → ℕ → World E → World E
  adopt true n w = record w { local_nonce = some n }
  adopt false n w = w

  -- The answer is dropped where a newer resync has started.
  abbrev pub set_nonce : ℕ → ℕ → Job E Unit
  set_nonce seq n w = (returned tt, adopt (seq == w.resync_seq) n w)

  abbrev pub hand_out : ℕ → Job E ℕ
  hand_out n w = (returned n, record w { local_nonce = some (suc n) })

module _ {E : Type 0} (others : Others E) (get_transaction_count : Port E ℕ) where
  -- `resyncNonce`
  unfoldable pub resync_nonce : Job E Unit
  resync_nonce = do seq ← start_resync; next ← call others get_transaction_count; set_nonce seq next

  -- The background reseed of `startHealingResync`: the node is asked. Who calls `getNextNonce` starts a
  -- newer resync before the answer can come, so that the answer is dropped.
  abbrev pub start_healing_resync : Job E Unit
  start_healing_resync = do
    start_resync
    try_or (λ e. pure tt) (call others get_transaction_count) (λ n. pure tt)

  abbrev pub next_nonce : Option ℕ → Job E ℕ
  next_nonce none = start_healing_resync >> throw nonce_error
  next_nonce (some n) = hand_out n

  -- `getNextNonce`
  unfoldable pub get_next_nonce : Job E ℕ
  get_next_nonce w = next_nonce w.local_nonce w
