-- ===== src/Engine/System/Refinement.antt =====
-- The services implement the ledger of Engine/Ledger.
use you_fen.Base.{ℕ}
use you_fen.Engine.Db.{Db}
use you_fen.Engine.Books.{supply, minted, reversed, Balanced}
use you_fen.Engine.Books.Acts.{Acts}
use you_fen.Engine.Ledger.{Ledger, LedgerStep, LedgerReach}
use you_fen.Engine.System.{Reach, Step-Acts, Reach-Balanced}

-- What the ledger of a community shows of the tables.
abbrev pub ledger_of : ℕ → Db → Ledger
ledger_of c d = record { supply = supply c d; minted = minted c d; reversed = reversed c d }

ledger-Acts : (c : ℕ) (d e : Db) → Acts c d e → LedgerStep (ledger_of c d) (ledger_of c e)
ledger-Acts c d e (Acts.rests t) = rw (t.supply_eq, t.minted_eq, t.reversed_eq) LedgerStep.idle
ledger-Acts c d e (Acts.issues x t) =
    rw (t.supply_eq, t.minted_eq, t.reversed_eq) (LedgerStep.issuing x)
ledger-Acts c d e (Acts.retires x lh ls t) =
    rw (t.supply_eq, t.minted_eq, t.reversed_eq) (LedgerStep.retiring x ls)

-- From books that balance, every sequence of committed calls of the services shows, in the ledger of
-- each community, as a sequence of issues, of retirements within the supply, and of calls that leave
-- it alone.
pub Reach-LedgerReach :
    (c : ℕ) (d e : Db) → Reach d e → Balanced c d → LedgerReach (ledger_of c d) (ledger_of c e)
Reach-LedgerReach c d _ Reach.start b = LedgerReach.start
Reach-LedgerReach c d e (Reach.next {e = m} r s) b =
    LedgerReach.next (Reach-LedgerReach c d m r b)
      (ledger-Acts c m e (Step-Acts c m e s (Reach-Balanced c d m r b)))
