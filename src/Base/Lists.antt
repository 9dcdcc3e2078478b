-- ===== src/Base/Lists.antt =====
-- Lists over native numbers under the library's names, and lists read as the rows of a table.
use Prim.Native.Nat.{ℕ, zero, suc, ◌+◌, ◌≤◌}
use mathlib.Core.Path.{◌≡◌, refl, subst}
use mathlib.Core.Logic.{inl, inr}
use mathlib.Core.Bool.{Bool, true, false, ◌&&◌, ◌||◌}
use mathlib.Core.Option.{Option, none, some, some-injective}
use mathlib.Core.List.{List, [], ◌∷◌, ◌++◌}
use native.Mathlib.Omega.{arith}
use you_fen.Base.Tests.{if◌then◌else◌, Bool-cases, is_some}

module _ {ℓ} {A : Type ℓ} where
  abbrev pub length : List A → ℕ
  length [] = 0
  length (x ∷ xs) = suc (length xs)

  abbrev pub get_elem? : List A → ℕ → Option A
  get_elem? [] i = none
  get_elem? (x ∷ xs) zero = some x
  get_elem? (x ∷ xs) (suc i) = get_elem? xs i

  -- The first row that passes the test.
  abbrev pub find : (A → Bool) → List A → Option A
  find p [] = none
  find p (x ∷ xs) = if p x then some x else find p xs

  abbrev pub any : (A → Bool) → List A → Bool
  any p [] = false
  any p (x ∷ xs) = p x || any p xs

  abbrev pub all : (A → Bool) → List A → Bool
  all p [] = true
  all p (x ∷ xs) = p x && all p xs

  abbrev pub select : (A → Bool) → List A → List A
  select p [] = []
  select p (x ∷ xs) = let rest = select p xs in if p x then x ∷ rest else rest

  -- An update that addresses one row by a unique key: the first that passes the test.
  abbrev pub update_first : (A → Bool) → (A → A) → List A → List A
  update_first p f [] = []
  update_first p f (x ∷ xs) = let rest = update_first p f xs in if p x then f x ∷ xs else x ∷ rest

  -- An update of every row that passes the test.
  abbrev pub update_all : (A → Bool) → (A → A) → List A → List A
  update_all p f [] = []
  update_all p f (x ∷ xs) = (if p x then f x else x) ∷ update_all p f xs

  abbrev pub sum_of : (A → ℕ) → List A → ℕ
  sum_of f [] = 0
  sum_of f (x ∷ xs) = f x + sum_of f xs

  -- Every row has the property.
  abbrev pub All {κ} : (A → Type κ) → List A → Type κ
  All P [] = Unit
  All P (x ∷ xs) = P x × All P xs

module _ {ℓ} {A : Type ℓ} where
  pub length-append : (xs ys : List A) → length (xs ++ ys) ≡ length xs + length ys
  length-append [] ys = omega arith
  length-append (x ∷ xs) ys = omega (arith, length-append xs ys)

  pub sum_of-append : (f : A → ℕ) (xs ys : List A) → sum_of f (xs ++ ys) ≡ sum_of f xs + sum_of f ys
  sum_of-append f [] ys = omega arith
  sum_of-append f (x ∷ xs) ys = omega (arith, sum_of-append f xs ys)

  -- What an update of one row does to a sum over the table.
  pub sum_of-update_first :
      (f : A → ℕ) (p : A → Bool) (g : A → A) (xs : List A) (x : A)
      → find p xs ≡ some x
      → sum_of f (update_first p g xs) + f x ≡ sum_of f xs + f (g x)
  sum_of-update_first f p g [] x e = cc
  sum_of-update_first f p g (y ∷ xs) x e = ground (arith, sum_of-update_first f p g xs x)

  pub sum_of-find :
      (f : A → ℕ) (p : A → Bool) (xs : List A) (x : A) → find p xs ≡ some x → f x ≤ sum_of f xs
  sum_of-find f p [] x e = cc
  sum_of-find f p (y ∷ xs) x e = ground (arith, sum_of-find f p xs x)

  pub sum_of-update_all :
      (f : A → ℕ) (p : A → Bool) (g : A → A) (xs : List A)
      → ((x : A) → f (g x) ≡ f x)
      → sum_of f (update_all p g xs) ≡ sum_of f xs
  sum_of-update_all f p g [] e = refl
  sum_of-update_all f p g (x ∷ xs) e = ground (arith, e x, sum_of-update_all f p g xs e)

  pub sum_of-update_first_same :
      (f : A → ℕ) (p : A → Bool) (g : A → A) (xs : List A)
      → ((x : A) → f (g x) ≡ f x)
      → sum_of f (update_first p g xs) ≡ sum_of f xs
  sum_of-update_first_same f p g [] e = refl
  sum_of-update_first_same f p g (x ∷ xs) e =
      ground (arith, e x, sum_of-update_first_same f p g xs e)

  -- The row that an update addressed is found again, as the update left it.
  pub find-update_first :
      (p : A → Bool) (g : A → A) (xs : List A) (x : A)
      → find p xs ≡ some x
      → p (g x) ≡ true
      → find p (update_first p g xs) ≡ some (g x)
  find-update_first p g [] x e k = cc
  find-update_first p g (y ∷ xs) x e k = ground (arith, find-update_first p g xs x)

  -- A row of another key is found as before, if the update changes no key.
  pub find-update_first_ne :
      (p q : A → Bool) (g : A → A) (xs : List A)
      → ((x : A) → p x ≡ true → q x ≡ false)
      → ((x : A) → q (g x) ≡ q x)
      → find q (update_first p g xs) ≡ find q xs
  find-update_first_ne p q g [] d k = refl
  find-update_first_ne p q g (x ∷ xs) d k =
      ground (arith, d x, k x, find-update_first_ne p q g xs d k)

  pub find_sound : (p : A → Bool) (xs : List A) (x : A) → find p xs ≡ some x → p x ≡ true
  find_sound p [] x e = cc
  find_sound p (y ∷ xs) x e = ground (arith, find_sound p xs x)

  pub find-append_none :
      (p : A → Bool) (xs ys : List A) → find p xs ≡ none → find p (xs ++ ys) ≡ find p ys
  find-append_none p [] ys e = refl
  find-append_none p (x ∷ xs) ys e = ground (arith, find-append_none p xs ys)

  pub find-append_some :
      (p : A → Bool) (xs ys : List A) (x : A) → find p xs ≡ some x → find p (xs ++ ys) ≡ some x
  find-append_some p [] ys x e = cc
  find-append_some p (y ∷ xs) ys x e = ground (arith, find-append_some p xs ys x)

  pub any-append : (p : A → Bool) (xs ys : List A) → any p (xs ++ ys) ≡ (any p xs || any p ys)
  any-append p [] ys = refl
  any-append p (x ∷ xs) ys = ground (arith, any-append p xs ys)

  pub any-update_first :
      (p q : A → Bool) (g : A → A) (xs : List A)
      → ((x : A) → p (g x) ≡ p x)
      → any p (update_first q g xs) ≡ any p xs
  any-update_first p q g [] same = refl
  any-update_first p q g (x ∷ xs) same = ground (arith, same x, any-update_first p q g xs same)

  pub any-find : (p : A → Bool) (xs : List A) → any p xs ≡ is_some (find p xs)
  any-find p [] = refl
  any-find p (x ∷ xs) = ground (arith, any-find p xs)

module _ {ℓ κ} {A : Type ℓ} (P : A → Type κ) where
  pub All-append : (xs ys : List A) → All P xs → All P ys → All P (xs ++ ys)
  All-append [] ys hx hy = hy
  All-append (x ∷ xs) ys hx hy = (hx.0, All-append xs ys hx.1 hy)

  pub All-update_first :
      (p : A → Bool) (g : A → A) (xs : List A)
      → ((x : A) → find p xs ≡ some x → P x → P (g x))
      → All P xs
      → All P (update_first p g xs)
  All-update_first p g [] k h = tt
  All-update_first p g (x ∷ xs) k h = elim (Bool-cases (p x)) [
    | inl e ↦ rw e (k x (rw e) h.0, h.1)
    | inr e ↦ rw e (h.0, All-update_first p g xs (λ y f. k y (rw e f)) h.1)
  ]

  pub All-update_all :
      (p : A → Bool) (g : A → A) (xs : List A)
      → ((x : A) → p x ≡ true → P x → P (g x))
      → All P xs
      → All P (update_all p g xs)
  All-update_all p g [] k h = tt
  All-update_all p g (x ∷ xs) k h = elim (Bool-cases (p x)) [
    | inl e ↦ rw e (k x e h.0, All-update_all p g xs k h.1)
    | inr e ↦ rw e (h.0, All-update_all p g xs k h.1)
  ]

  pub All-find : (p : A → Bool) (xs : List A) (x : A) → find p xs ≡ some x → All P xs → P x
  All-find p [] x e h = cc
  All-find p (y ∷ xs) x e h = elim (Bool-cases (p y)) [
    | inl t ↦ subst P (some-injective y x (rw t at e)) h.0
    | inr f ↦ All-find p xs x (rw f at e) h.1
  ]
