-- ===== src/Jobs/Keeps.antt =====
-- Reasoning about jobs: what holds after a job, whether it returns or throws, with a rule for each way
-- to build one.
use you_fen.Engine.Tables.{ChainError}
use you_fen.Engine.Db.{Tx}
use you_fen.Jobs.{
  Outcome, returned, thrown, World, Job, Port, Others, handled, committed, pure, throw, call,
  statement, try_or, ◌>>=◌,
}

abbrev pub Post :
    {E A : Type 0} → (A → World E → Type 0) → (World E → Type 0) → Outcome A × World E → Type 0
Post Q R (returned a, w) = Q a w
Post Q R (thrown e, w) = R w

-- From a world with `P`, the job returns with `Q` or throws with `R`.
pub record Triple {E A : Type 0} (P : World E → Type 0) (m : Job E A) (Q : A → World E → Type 0)
    (R : World E → Type 0) : Type 0 where
  pub at : (w : World E) → P w → Post Q R (m w)

module _ {E A : Type 0} {P : World E → Type 0} where
  pub Triple-pure :
      {Q : A → World E → Type 0} {R : World E → Type 0} (a : A)
      → ((w : World E) → P w → Q a w)
      → Triple P (pure a) Q R
  unfolding pure
  Triple-pure a h = record { at = h }

  pub Triple-throw :
      {Q : A → World E → Type 0} {R : World E → Type 0} (e : ChainError)
      → ((w : World E) → P w → R w)
      → Triple P (throw e) Q R
  unfolding throw
  Triple-throw e h = record { at = h }

module _ {E A B : Type 0} {Q : A → World E → Type 0} {R : World E → Type 0}
    {Q' : B → World E → Type 0} {R' : World E → Type 0} where
  handled-Post :
      (h : ChainError → Job E B) (next : A → Job E B) (r : Outcome A × World E)
      → Post Q R r
      → ((e : ChainError) → Triple R (h e) Q' R')
      → ((a : A) → Triple (Q a) (next a) Q' R')
      → Post Q' R' (handled h next r)
  handled-Post h next (returned a, w) p th tn = (tn a).at w p
  handled-Post h next (thrown e, w) p th tn = (th e).at w p

  pub Triple-try_or :
      {P : World E → Type 0} (h : ChainError → Job E B) (m : Job E A) (next : A → Job E B)
      → Triple P m Q R
      → ((e : ChainError) → Triple R (h e) Q' R')
      → ((a : A) → Triple (Q a) (next a) Q' R')
      → Triple P (try_or h m next) Q' R'
  unfolding try_or
  Triple-try_or h m next tm th tn = record {
    at = λ w p. handled-Post h next (m w) (tm.at w p) th tn;
  }

module _ {E A B : Type 0} {P : World E → Type 0} {Q : A → World E → Type 0} {R : World E → Type 0}
    {Q' : B → World E → Type 0} where
  pub Triple-bind :
      (m : Job E A) (next : A → Job E B)
      → Triple P m Q R
      → ((a : A) → Triple (Q a) (next a) Q' R)
      → Triple P (m >>= next) Q' R
  unfolding ◌>>=◌
  Triple-bind m next tm tn = Triple-try_or throw m next tm (λ e. Triple-throw e (λ w r. r)) tn

module _ {E A : Type 0} {P : World E → Type 0} {Q : A → World E → Type 0}
    {R : World E → Type 0} where
  -- A call, by what the world outside answers.
  pub Triple-call :
      (others : Others E) (port : Port E A)
      → ((w : World E)
          → P w
          → Post Q R
              ((port w.env).0, record w { db = others (port w.env).1 w.db; env = (port w.env).1 }))
      → Triple P (call others port) Q R
  unfolding call
  Triple-call others port h = record { at = h }

  -- A statement, by what it does to the tables that the other workers have left.
  pub Triple-statement :
      (others : Others E) (m : Tx A)
      → ((w : World E)
          → P w
          → Post Q R (committed (record w { db = others w.env w.db }) (m (others w.env w.db))))
      → Triple P (statement others m) Q R
  unfolding statement
  Triple-statement others m h = record { at = h }

-- What holds whichever way a job ends.
pub Post-kept :
    {E A : Type 0} (P : World E → Type 0) (r : Outcome A) (w : World E)
    → P w
    → Post (λ a. P) P (r, w)
Post-kept P (returned a) w h = h
Post-kept P (thrown e) w h = h

weaker :
    {E A : Type 0} (Q : A → World E → Type 0) {R R' : World E → Type 0}
    → ((w : World E) → R w → R' w)
    → (r : Outcome A × World E) → Post Q R r
    → Post Q R' r
weaker Q weak (returned a, w) p = p
weaker Q weak (thrown e, w) p = weak w p

-- A weaker claim of the worlds in which the job throws.
pub Triple-weaken :
    {E A : Type 0} {P : World E → Type 0} {Q : A → World E → Type 0} {R R' : World E → Type 0}
    (m : Job E A)
    → ((w : World E) → R w → R' w)
    → Triple P m Q R
    → Triple P m Q R'
Triple-weaken {Q} {R} {R'} m weak t = record { at = λ w p. weaker Q weak (m w) (t.at w p) }

-- What the precondition tells may be used to prove the triple.
pub Triple-given :
    {E A : Type 0} {P : World E → Type 0} {Q : A → World E → Type 0} {R : World E → Type 0}
    (m : Job E A)
    → ((w : World E) → P w → Triple P m Q R)
    → Triple P m Q R
Triple-given m h = record { at = λ w p. (h w p).at w p }

mapped :
    {E A : Type 0} {Q Q' : A → World E → Type 0} (R : World E → Type 0)
    → ((a : A) (w : World E) → Q a w → Q' a w)
    → (r : Outcome A × World E) → Post Q R r
    → Post Q' R r
mapped R k (returned a, w) p = k a w p
mapped R k (thrown e, w) p = p

-- A stronger precondition and a weaker claim of what is returned.
pub Triple-mono :
    {E A : Type 0} {P P' : World E → Type 0} {Q Q' : A → World E → Type 0} {R : World E → Type 0}
    (m : Job E A)
    → ((w : World E) → P' w → P w)
    → ((a : A) (w : World E) → Q a w → Q' a w)
    → Triple P m Q R
    → Triple P' m Q' R
Triple-mono {R} m before after t = record { at = λ w p. mapped R after (m w) (t.at w (before w p)) }
