-- ===== src/Api/RateLimit/Bounds.antt =====
-- What the limiter of lib/api/public-records/rate-limit.ts keeps in memory.
use you_fen.Base.{
  ℕ, suc, zero, ◌+◌, ◌-◌, ◌≤◌, ◌<◌, ◌≡◌, ◌∙◌, Option, is_some, not, Option-cases, any-find, refl,
  Bool, true, false, none, some, List, [], ◌∷◌, ◌++◌, leb, any, ◌&&◌, find, select, length,
  length-append, Bool-cases, inl, inr, All, All-append, All-update_first, All-find, update_first,
  arith,
}
use you_fen.Api.RateLimit.{
  RateLimiterOptions, Hits, RateLimiter, holds_key, evict_oldest, is_live, last_is_live,
  timestamps_of, set_hits, sweep, live_hits, make_room, decide, allow, create_rate_limiter,
  allow_all,
}

module _ {ℓ} {A : Type ℓ} where
  length-select : (p : A → Bool) (xs : List A) → length (select p xs) ≤ length xs
  length-select p [] = omega arith
  length-select p (x ∷ xs) = ground (arith, length-select p xs)

  length-update_first :
      (p : A → Bool) (g : A → A) (xs : List A) → length (update_first p g xs) ≡ length xs
  length-update_first p g [] = refl
  length-update_first p g (x ∷ xs) = ground (arith, length-update_first p g xs)

  All-select : (P : A → Type 0) (p : A → Bool) (xs : List A) → All P xs → All P (select p xs)
  All-select P p [] h = tt
  All-select P p (x ∷ xs) h = elim (Bool-cases (p x)) [
    | inl e ↦ rw e (h.0, All-select P p xs h.1)
    | inr e ↦ rw e (All-select P p xs h.1)
  ]

length-evict_oldest : (hits : List Hits) (n : ℕ) → length (evict_oldest hits n) ≡ length hits - n
length-evict_oldest [] n = omega arith
length-evict_oldest (h ∷ hits) zero = omega arith
length-evict_oldest (h ∷ hits) (suc n) = omega (arith, length-evict_oldest hits n)

All-evict_oldest :
    (P : Hits → Type 0) (hits : List Hits) (n : ℕ) → All P hits → All P (evict_oldest hits n)
All-evict_oldest P [] n h = tt
All-evict_oldest P (x ∷ hits) zero h = h
All-evict_oldest P (x ∷ hits) (suc n) h = All-evict_oldest P hits n h.1

-- No key has more timestamps than the limit.
abbrev pub IsWithin : RateLimiterOptions → List Hits → Type 0
IsWithin options hits = All (λ h. length h.timestamps ≤ options.limit) hits

-- The map has at most `maxKeys` keys, and none has more timestamps than the limit.
abbrev pub IsBounded : RateLimiterOptions → List Hits → Type 0
IsBounded options hits = (length hits ≤ options.max_keys) × IsWithin options hits

module _ (options : RateLimiterOptions) where
  set_hits-IsWithin :
      (key : ℕ) (ts : List ℕ) (hits : List Hits)
      → length ts ≤ options.limit
      → IsWithin options hits
      → IsWithin options (set_hits key ts hits)
  set_hits-IsWithin key ts hits k h = elim (Bool-cases (any (holds_key key) hits)) [
    | inl e ↦ rw e (
        All-update_first (λ h. length h.timestamps ≤ options.limit) (holds_key key)
          (λ h. record h { timestamps = ts }) hits (λ x f l. k) h)
    | inr e ↦ rw e (All-append (λ h. length h.timestamps ≤ options.limit) hits _ h (k, tt))
  ]

  sweep-IsBounded :
      (current : ℕ) (s : RateLimiter)
      → IsBounded options s.hits
      → IsBounded options (sweep options current s).hits
  sweep-IsBounded current s h =
      elim (Bool-cases (leb (s.last_sweep_at + options.window_ms) current)) [
        | inl e ↦ rw e (
          omega (
            arith,
            h.0,
            length-select (λ x. last_is_live options.window_ms current x.timestamps) s.hits,
          ),
          All-select (λ x. length x.timestamps ≤ options.limit)
              (λ x. last_is_live options.window_ms current x.timestamps) s.hits h.1,
        )
        | inr e ↦ rw e h
      ]

  make_room-IsWithin :
      (key : ℕ) (hits : List Hits)
      → IsWithin options hits
      → IsWithin options (make_room options key hits)
  make_room-IsWithin key hits h =
      elim (Bool-cases (not (any (holds_key key) hits) && leb options.max_keys (length hits))) [
        | inl e ↦ rw e (
            All-evict_oldest (λ x. length x.timestamps ≤ options.limit) hits
              (length hits - options.max_keys + 1) h)
        | inr e ↦ rw e h
      ]

  -- A key that is there keeps the number of keys, a new one adds one at most.
  length-set_hits :
      (key : ℕ) (ts : List ℕ) (hits : List Hits) → length (set_hits key ts hits) ≤ length hits + 1
  length-set_hits key ts hits = elim (Bool-cases (any (holds_key key) hits)) [
    | inl e ↦ rw e (
        omega (arith, length-update_first (holds_key key) (λ h. record h { timestamps = ts }) hits))
    | inr e ↦ rw e (omega (arith, length-append hits (record { key = key; timestamps = ts } ∷ [])))
  ]

  length-set_hits_old :
      (key : ℕ) (ts : List ℕ) (hits : List Hits)
      → any (holds_key key) hits ≡ true
      → length (set_hits key ts hits) ≡ length hits
  length-set_hits_old key ts hits e =
      rw e (length-update_first (holds_key key) (λ h. record h { timestamps = ts }) hits)

  not_full :
      (hits : List Hits)
      → leb options.max_keys (length hits) ≡ false
      → length hits < options.max_keys
  not_full hits e = ground arith

  -- A new key finds room.
  length-make_room :
      (key : ℕ) (ts : List ℕ) (hits : List Hits)
      → 0 < options.max_keys
      → length hits ≤ options.max_keys
      → length (set_hits key ts (make_room options key hits)) ≤ options.max_keys
  length-make_room key ts hits positive h = elim (Bool-cases (any (holds_key key) hits)) [
    | inl e ↦ rw e (omega (arith, h, length-set_hits_old key ts hits e))
    | inr e ↦ elim (Bool-cases (leb options.max_keys (length hits))) [
      | inl full ↦
          rw (e, full)
            (omega (
              arith,
              h,
              positive,
              length-evict_oldest hits (length hits - options.max_keys + 1),
              length-set_hits key ts (evict_oldest hits (length hits - options.max_keys + 1)),
            ))
      | inr free ↦ rw (e, free) (omega (arith, not_full hits free, length-set_hits key ts hits))
    ]
  ]

  live-is_some :
      (p : ℕ → Bool) (o : Option Hits) → 0 < length (select p (timestamps_of o)) → is_some o ≡ true
  live-is_some p none h = ground arith
  live-is_some p (some x) h = refl

  -- A key with a live hit is in the map.
  live_hits-present :
      (current key : ℕ) (hits : List Hits)
      → 0 < length (live_hits options current key hits)
      → any (holds_key key) hits ≡ true
  live_hits-present current key hits h =
      any-find (holds_key key) hits
      ∙ live-is_some (is_live options.window_ms current) (find (holds_key key) hits) h

  live_hits-IsWithin :
      (current key : ℕ) (hits : List Hits)
      → IsWithin options hits
      → length (live_hits options current key hits) ≤ options.limit
  live_hits-IsWithin current key hits h = elim (Option-cases (find (holds_key key) hits)) [
    | inl e ↦ rw e (omega arith)
    | inr (x, e) ↦ rw e (
        omega (
          arith,
          length-select (is_live options.window_ms current) x.timestamps,
          All-find (λ y. length y.timestamps ≤ options.limit) (holds_key key) hits x e h,
        ))
  ]

  below_limit :
      (live : List ℕ) → leb options.limit (length live) ≡ false → length live < options.limit
  below_limit live e = ground arith

  -- A refusal writes no new key, and an answer that lets in makes room first.
  decide-IsBounded :
      (key current : ℕ) (hits : List Hits)
      → 0 < options.limit
      → 0 < options.max_keys
      → IsBounded options hits
      → IsBounded options (decide options key current hits (live_hits options current key hits)).1
  decide-IsBounded key current hits hl hm h =
      let live = live_hits options current key hits in
      elim (Bool-cases (leb options.limit (length (live_hits options current key hits)))) [
        | inl e ↦ rw e (
          omega (
            arith,
            h.0,
            length-set_hits_old key live hits (live_hits-present current key hits (ground arith)),
          ),
          set_hits-IsWithin key live hits (live_hits-IsWithin current key hits h.1) h.1,
        )
        | inr e ↦ rw e (
          length-make_room key (live ++ (current ∷ [])) hits hm h.0,
          set_hits-IsWithin key (live ++ (current ∷ [])) (make_room options key hits)
              (omega (arith, length-append live (current ∷ []), below_limit live e))
              (make_room-IsWithin key hits h.1),
        )
      ]

  allow_all-from :
      (calls : List (ℕ × ℕ)) (s : RateLimiter)
      → 0 < options.limit
      → 0 < options.max_keys
      → IsBounded options s.hits
      → IsBounded options (allow_all options calls s).hits
  unfolding allow
  allow_all-from [] s hl hm h = h
  allow_all-from (c ∷ calls) s hl hm h =
      allow_all-from calls (allow options c.0 c.1 s).1 hl hm
        (decide-IsBounded c.0 c.1 (sweep options c.1 s).hits hl hm (sweep-IsBounded c.1 s h))

-- With a limit and a cap of keys that are at least one, whatever calls are made, of whatever keys
-- and at whatever times, a new limiter never holds more keys than the cap, nor for a key more
-- timestamps than the limit.
pub allow_all-IsBounded :
    (options : RateLimiterOptions) (calls : List (ℕ × ℕ)) (now : ℕ)
    → 0 < options.limit
    → 0 < options.max_keys
    → IsBounded options (allow_all options calls (create_rate_limiter now)).hits
allow_all-IsBounded options calls now hl hm =
    allow_all-from options calls (create_rate_limiter now) hl hm (omega arith, tt)
