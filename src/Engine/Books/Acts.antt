-- ===== src/Engine/Books/Acts.antt =====
-- What one call does to the totals of a community: nothing, an issue or a retirement.
use you_fen.Base.{ℕ, ◌+◌, ◌-◌, ◌≤◌, ap, arith}
use you_fen.Engine.Db.{Db, Tx}
use you_fen.Engine.Db.Keeps.{Commits, Keeps}
use you_fen.Engine.Books.{held, supply, minted, reversed, Totals, Balanced}
use you_fen.Engine.Books.Updates.{books_open, books_close}

pub data Acts (c : ℕ) (d e : Db) : Type 0 where
  rests : Totals c (held c d) (supply c d) (minted c d) (reversed c d) e → Acts c d e
  issues :
      (x : ℕ)
      → Totals c (held c d + x) (supply c d + x) (minted c d + x) (reversed c d) e
      → Acts c d e
  retires :
      (x : ℕ)
      → x ≤ held c d
      → x ≤ supply c d
      → Totals c (held c d - x) (supply c d - x) (minted c d) (reversed c d + x) e
      → Acts c d e

-- Either way the books stay in balance.
pub Acts-Balanced : (c : ℕ) (d e : Db) → Acts c d e → Balanced c d → Balanced c e
Acts-Balanced c d e (Acts.rests t) b = books_close c _ _ _ _ e b.conserved b.ledgered t
Acts-Balanced c d e (Acts.issues x t) b =
    books_close c _ _ _ _ e (ap (λ n. n + x) b.conserved) (omega (arith, b.ledgered)) t
Acts-Balanced c d e (Acts.retires x lh ls t) b =
    books_close c _ _ _ _ e (ap (λ n. n - x) b.conserved) (omega (arith, b.ledgered, lh)) t

-- A call that keeps the totals rests.
pub Keeps-Acts :
    {A : Type 0} (c : ℕ) (m : Tx A) (d : Db) (a : A) (e : Db)
    → ((h s n r : ℕ) → Keeps (Totals c h s n r) m)
    → Commits m d a e
    → Balanced c d
    → Acts c d e
Keeps-Acts c m d a e k run books = Acts.rests ((k _ _ _ _).at d a e run (books_open c d books))
