-- ===== src/Engine/Db/Keeps.antt =====
-- Reasoning about transactions: what a successful run preserves, with a rule for each way to build
-- a transaction, and the inversion of a run into its steps.
use you_fen.Base.{suc, ◌≡◌, refl, subst, Bool, true, false, Option, none, some, if◌then◌else◌}
use you_fen.Engine.Errors.{EngineErrorCode, Result, ok, err}
use you_fen.Engine.Db.{
  Db, Tx, continue, pure, gets, lift, throw, require, throw_if, modify, fresh_id, assert_found,
  ◌>>=◌,
}

-- The transaction ends with `a`, and leaves the tables `e`.
abbrev pub Commits : {A : Type 0} → Tx A → Db → A → Db → Type 0
Commits {A} m d a e = ◌≡◌ {A = Result (A × Db)} (m d) (ok (a, e))

-- A run of `m` that commits takes a database with `P` to one with `P`.
pub record Keeps {A : Type 0} (P : Db → Type 0) (m : Tx A) : Type 0 where
  pub at : (d : Db) (a : A) (e : Db) → Commits m d a e → P d → P e

continue-inv :
    {A B : Type 0} (r : Result (A × Db)) (f : A → Tx B) {s : B × Db}
    → continue r f ≡ ok s
    → (a : A) × (e : Db) × (r ≡ ok (a, e)) × (f a e ≡ ok s)
continue-inv (ok (a, e)) f h = (a, e, refl, h)
continue-inv (err x) f h = cc

-- A run that commits, step by step.
pub >>=-inv :
    {A B : Type 0} (m : Tx A) (f : A → Tx B) (d : Db) (b : B) (e : Db)
    → Commits (m >>= f) d b e
    → (a : A) × (d' : Db) × Commits m d a d' × Commits (f a) d' b e
unfolding ◌>>=◌
>>=-inv m f d b e h = continue-inv (m d) f h

module _ {A : Type 0} where
  -- Two results of one run agree.
  pub ok-value : (a b : A) (d e : Db) → Commits (pure a) d b e → a ≡ b
  unfolding pure
  ok-value a b d e h = cc

  pub ok-db : (a b : A) (d e : Db) → Commits (pure a) d b e → d ≡ e
  unfolding pure
  ok-db a b d e h = cc

  pub gets-run : (f : Db → A) (a : A) (d e : Db) → Commits (gets f) d a e → (a ≡ f d) × (e ≡ d)
  unfolding gets
  gets-run f a d e h = (cc, cc)

same_db : {A : Type 0} (P : Db → Type 0) (a b : A) (d e : Db) → Commits (pure a) d b e → P d → P e
unfolding pure
same_db P a b d e h p = subst P (ok-db a b d e h) p

module _ {A : Type 0} {P : Db → Type 0} where
  pub Keeps-pure : (a : A) → Keeps P (pure a)
  unfolding pure
  Keeps-pure a = record { at = λ d b e h p. same_db P a b d e h p }

  pub Keeps-gets : (f : Db → A) → Keeps P (gets f)
  unfolding gets pure
  Keeps-gets f = record { at = λ d b e h p. same_db P (f d) b d e h p }

  pub Keeps-lift : (r : Result A) → Keeps P (lift r)
  unfolding lift pure
  Keeps-lift (ok a) = record { at = λ d b e h p. same_db P a b d e h p }
  Keeps-lift (err x) = record { at = λ d b e h p. cc }

  pub Keeps-throw : (c : EngineErrorCode) → Keeps P (throw {A = A} c)
  unfolding throw
  Keeps-throw c = record { at = λ d b e h p. cc }

  pub Keeps-require : (o : Option A) (c : EngineErrorCode) → Keeps P (require o c)
  unfolding require pure
  Keeps-require none c = record { at = λ d b e h p. cc }
  Keeps-require (some a) c = record { at = λ d b e h p. same_db P a b d e h p }

  pub Keeps-if : (b : Bool) (m n : Tx A) → Keeps P m → Keeps P n → Keeps P (if b then m else n)
  Keeps-if true m n km kn = km
  Keeps-if false m n km kn = kn

  -- A statement that always commits.
  pub Keeps-update :
      (v : Db → A) (f : Db → Db) → ((d : Db) → P d → P (f d)) → Keeps P (λ d. ok (v d, f d))
  Keeps-update v f k = record {
    at = λ d b e h p. same_db P (v d) b (f d) e (unfold pure in h) (k d p);
  }

module _ {P : Db → Type 0} where
  pub Keeps-throw_if : (b : Bool) (c : EngineErrorCode) → Keeps P (throw_if b c)
  unfolding throw_if pure
  Keeps-throw_if true c = record { at = λ d b e h p. cc }
  Keeps-throw_if false c = record { at = λ d b e h p. same_db P tt b d e h p }

  pub Keeps-assert_found : (b : Bool) → Keeps P (assert_found b)
  unfolding assert_found pure
  Keeps-assert_found true = record { at = λ d b e h p. same_db P tt b d e h p }
  Keeps-assert_found false = record { at = λ d b e h p. cc }

  pub Keeps-modify : (f : Db → Db) → ((d : Db) → P d → P (f d)) → Keeps P (modify f)
  unfolding modify pure
  Keeps-modify f k = record { at = λ d b e h p. same_db P tt b (f d) e h (k d p) }

  pub Keeps-fresh_id :
      ((d : Db) → P d → P (record d { next_id = suc d.next_id })) → Keeps P fresh_id
  unfolding fresh_id pure
  Keeps-fresh_id k = record {
    at = λ d b e h p. same_db P d.next_id b (record d { next_id = suc d.next_id }) e h (k d p);
  }

module _ {A B : Type 0} {P : Db → Type 0} where
  pub Keeps-bind :
      (m : Tx A) (f : A → Tx B) → Keeps P m → ((a : A) → Keeps P (f a)) → Keeps P (m >>= f)
  Keeps-bind m f km kf = record {
    at = λ d b e h p.
        let (a, d', first, second) = >>=-inv m f d b e h in
        (kf a).at d' b e second (km.at d a d' first p);
  }

-- Two properties, each kept for itself.
pub Keeps-both :
    {A : Type 0} {P Q : Db → Type 0} (m : Tx A) → Keeps P m → Keeps Q m → Keeps (λ d. P d × Q d) m
Keeps-both m kp kq = record { at = λ d a e h p. (kp.at d a e h p.0, kq.at d a e h p.1) }

pub ruleset reads = (
  Keeps-pure, Keeps-gets, Keeps-lift, Keeps-throw, Keeps-require, Keeps-if, Keeps-throw_if,
  Keeps-assert_found, Keeps-bind,
)

-- A run of `m` that commits takes `P` to `Q`, which may speak of the value.
pub record Triple {A : Type 0} (P : Db → Type 0) (m : Tx A) (Q : A → Db → Type 0) : Type 0 where
  pub at : (d : Db) (a : A) (e : Db) → Commits m d a e → P d → Q a e

module _ {A : Type 0} {P : Db → Type 0} where
  pub Triple-keeps : {m : Tx A} → Keeps P m → Triple P m (λ a. P)
  Triple-keeps k = record { at = k.at }

  pub Triple-pure : {Q : A → Db → Type 0} (a : A) → ((d : Db) → P d → Q a d) → Triple P (pure a) Q
  Triple-pure {Q} a k = record {
    at = λ d b e h p. rw (← ok-value a b d e h) (same_db (Q a) a b d e h (k d p));
  }

module _ {A B : Type 0} {P : Db → Type 0} {R : A → Db → Type 0} {Q : B → Db → Type 0} where
  pub Triple-bind :
      {m : Tx A} {f : A → Tx B}
      → Triple P m R
      → ((a : A) → Triple (R a) (f a) Q)
      → Triple P (m >>= f) Q
  Triple-bind {m} {f} tm tf = record {
    at = λ d b e h p.
        let (a, d', first, second) = >>=-inv m f d b e h in
        (tf a).at d' b e second (tm.at d a d' first p);
  }

module _ {A : Type 0} {P : Db → Type 0} {Q : A → Db → Type 0} where
  pub Triple-lift :
      (x : Result A) → ((a : A) → x ≡ ok a → (d : Db) → P d → Q a d) → Triple P (lift x) Q
  unfolding lift pure
  Triple-lift (ok a) k = record {
    at = λ d b e h p. rw (← ok-value a b d e h) (same_db (Q a) a b d e h (k a refl d p));
  }
  Triple-lift (err x) k = record { at = λ d b e h p. cc }

  -- A fact that does not speak of the tables may be taken out of the precondition.
  pub Triple-have : {F : Type 0} {m : Tx A} → (F → Triple P m Q) → Triple (λ d. F × P d) m Q
  Triple-have k = record { at = λ d a e h p. (k p.0).at d a e h p.1 }

-- Every value that `m` commits with has `Q`.
pub record Yields {A : Type 0} (Q : A → Type 0) (m : Tx A) : Type 0 where
  pub at : (d : Db) (a : A) (e : Db) → Commits m d a e → Q a

module _ {A : Type 0} {Q : A → Type 0} where
  pub Yields-pure : (a : A) → Q a → Yields Q (pure a)
  Yields-pure a q = record { at = λ d b e h. rw (← ok-value a b d e h) q }

  pub Yields-then :
      {B : Type 0} (m : Tx B) (f : B → Tx A) → ((b : B) → Yields Q (f b)) → Yields Q (m >>= f)
  Yields-then m f k = record {
    at = λ d a e h. let (b, d', first, second) = >>=-inv m f d a e h in (k b).at d' a e second;
  }

  pub Yields-with :
      {B : Type 0} {R : B → Type 0} (m : Tx B) (f : B → Tx A)
      → Yields R m
      → ((b : B) → R b → Yields Q (f b))
      → Yields Q (m >>= f)
  Yields-with m f ym k = record {
    at = λ d a e h.
        let (b, d', first, second) = >>=-inv m f d a e h in
        (k b (ym.at d b d' first)).at d' a e second;
  }

-- The tables after a transaction: those before it, if it throws.
abbrev pub db_of : {A : Type 0} → Result (A × Db) → Db → Db
db_of (ok (a, e)) d = e
db_of (err x) d = d

abbrev pub is_committed : {A : Type 0} → Result (A × Db) → Bool
is_committed (ok r) = true
is_committed (err x) = false

-- A run that does not throw commits with some value.
pub committed-run :
    {A : Type 0} (m : Tx A) (d : Db)
    → is_committed (m d) ≡ true
    → (a : A) × Commits m d a (db_of (m d) d)
committed-run m d h = committed (m d) d h
  where
    committed :
        {A : Type 0} (r : Result (A × Db)) (d : Db)
        → is_committed r ≡ true
        → (a : A) × ◌≡◌ {A = Result (A × Db)} r (ok (a, db_of r d))
    committed (ok (a, e)) d h = (a, refl)
    committed (err x) d h = cc
