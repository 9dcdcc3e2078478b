-- ===== src/Engine/Ledger.antt =====
-- The contract of the engine: the ledger of a community as its members see it. Tokens are issued or
-- retired, and nothing else happens to the three numbers.
use you_fen.Base.{ℕ, ◌+◌, ◌-◌, ◌≤◌}

pub record Ledger : Type 0 where
  pub supply : ℕ
  pub minted : ℕ
  pub reversed : ℕ

abbrev pub issue : ℕ → Ledger → Ledger
issue x l = record l { supply = l.supply + x; minted = l.minted + x }

abbrev pub retire : ℕ → Ledger → Ledger
retire x l = record l { supply = l.supply - x; reversed = l.reversed + x }

-- No more is retired than there is.
pub data LedgerStep (l : Ledger) : Ledger → Type 0 where
  idle : LedgerStep l l
  issuing : (x : ℕ) → LedgerStep l (issue x l)
  retiring : (x : ℕ) → x ≤ l.supply → LedgerStep l (retire x l)

pub data LedgerReach (l : Ledger) : Ledger → Type 0 where
  start : LedgerReach l l
  next : {m n : Ledger} → LedgerReach l m → LedgerStep m n → LedgerReach l n
