-- ===== src/Jobs/Submit/Nonce/Laws.antt =====
-- What is relied on for the nonce: how the node counts the transactions of the wallet.
use you_fen.Base.{ℕ, suc, ◌≡◌, Bool, true, Option, none, some}
use you_fen.Engine.Tables.{ChainError, PublicRecordRow}
use you_fen.Engine.Db.{Db}
use you_fen.Jobs.{returned, thrown}
use you_fen.Jobs.Build.{SubmittableRecord}
use you_fen.Jobs.Submit.{SubmitDeps, SubmitResult}

-- A step of the world outside that leaves the count alone and forgets no miss.
abbrev pub IsQuiet : {E : Type 0} → (E → ℕ) → (E → Bool) → (E → E) → Type 0
IsQuiet {E} count missed f =
    (e : E) → (count (f e) ≡ count e) × (missed e ≡ true → missed (f e) ≡ true)

-- The documented behaviour of the node: the transaction count that it answers is its own, a transaction
-- that is sent with that count as its nonce raises it by one, and nothing else changes it. `missed`
-- records that a call for the count has thrown, and is never taken back.
pub record CountLaws {E : Type 0} (deps : SubmitDeps E) (count : E → ℕ) (missed : E → Bool)
    : Type 0 where
  pub answers : (e : E) (n : ℕ) → (deps.get_transaction_count e).0 ≡ returned n → n ≡ count e
  pub misses :
      (e : E) (x : ChainError)
      → (deps.get_transaction_count e).0 ≡ thrown x
      → missed (deps.get_transaction_count e).1 ≡ true
  pub submits :
      (s : SubmittableRecord) (e : E) (r : SubmitResult)
      → (deps.submit_record s (count e) e).0 ≡ returned r
      → count (deps.submit_record s (count e) e).1 ≡ suc (count e)
  pub missed-submit :
      (s : SubmittableRecord) (n : ℕ) (e : E)
      → missed e ≡ true
      → missed (deps.submit_record s n e).1 ≡ true
  pub quiet-count : IsQuiet count missed (λ e. (deps.get_transaction_count e).1)
  pub quiet-rebuild :
      (row : PublicRecordRow) (d : Db) → IsQuiet count missed (λ e. (deps.rebuild row d e).1)
  pub quiet-read : (h : ℕ) → IsQuiet count missed (λ e. (deps.read_chain_record h e).1)
  pub quiet-find : (h : ℕ) → IsQuiet count missed (λ e. (deps.find_tx_by_record_hash h e).1)
  pub quiet-enqueue : (id t : ℕ) → IsQuiet count missed (λ e. (deps.enqueue_confirm id t e).1)
  pub quiet-discard : IsQuiet count missed deps.discard

-- A counter that is there is that of the chain.
abbrev pub IsSynced : Option ℕ → ℕ → Type 0
IsSynced none n = Unit
IsSynced (some m) n = m ≡ n
