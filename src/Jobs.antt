-- ===== src/Jobs.antt =====
-- What the workers of lib/blockchain/queue share: jobs, which run statement by statement on the tables
-- and on a world outside, while other workers change the tables. What was written before a throw stays
-- written, so that the world comes back beside the error too.
pub mod Wallet
pub mod Build
pub mod Submit
pub mod Keeps
pub mod Confirm
pub mod Reconcile
pub mod Backed
pub mod Fixture
pub mod Live
pub mod Queue
use you_fen.Base.{ℕ, suc, Option, none, some}
use you_fen.Engine.Errors.{Result, ok, err}
use you_fen.Engine.Tables.{ChainError, terminal_error}
use you_fen.Engine.Db.{Db, Tx}

pub data Outcome (A : Type 0) : Type 0 where
  returned : A → Outcome A
  thrown : ChainError → Outcome A

-- `E` is the state of what lies outside: the chain, the queues, the clock. `local_nonce` is the counter
-- of the server wallet and `resync_seq` numbers its resyncs.
pub record World (E : Type 0) : Type 0 where
  pub db : Db
  pub local_nonce : Option ℕ
  pub resync_seq : ℕ
  pub env : E

-- What other workers do to the tables before a statement, or during a call that is awaited.
abbrev pub Others : Type 0 → Type 0
Others E = E → Db → Db

abbrev pub Job : Type 0 → Type 0 → Type 0
Job E A = World E → Outcome A × World E

-- A function of what lies outside.
abbrev pub Port : Type 0 → Type 0 → Type 0
Port E A = E → Outcome A × E

module _ {E A : Type 0} where
  unfoldable pub pure : A → Job E A
  pure a w = (returned a, w)

  unfoldable pub throw : ChainError → Job E A
  throw e w = (thrown e, w)

  -- A call that is awaited.
  unfoldable pub call : Others E → Port E A → Job E A
  call others port w = let (r, e) = port w.env in (r, record w { db = others e w.db; env = e })

  abbrev pub committed : World E → Result (A × Db) → Outcome A × World E
  committed w (ok (a, d)) = (returned a, record w { db = d })
  committed w (err f) = (thrown terminal_error, w)

  -- One statement on the tables; what the record service throws is terminal.
  unfoldable pub statement : Others E → Tx A → Job E A
  statement others m w = let v = record w { db = others w.env w.db } in committed v (m v.db)

module _ {E A B : Type 0} where
  abbrev pub handled :
      (ChainError → Job E B) → (A → Job E B) → Outcome A × World E → Outcome B × World E
  handled handler next (returned a, w) = next a w
  handled handler next (thrown e, w) = handler e w

  -- `try { a = await m } catch (e) { return handler(e) }`, and the rest of the block.
  unfoldable pub try_or : (ChainError → Job E B) → Job E A → (A → Job E B) → Job E B
  try_or handler m next w = handled handler next (m w)

  infixl 5 ◌>>=◌ ◌>>◌
  unfoldable pub ◌>>=◌ : Job E A → (A → Job E B) → Job E B
  unfolding throw try_or
  m >>= next = try_or throw m next

  abbrev pub ◌>>◌ : Job E A → Job E B → Job E B
  m >> n = m >>= λ _. n
