-- ===== src/Api/RateLimit.antt =====
-- lib/api/public-records/rate-limit.ts: hits within a sliding window, with two bounds on the memory.
-- Keys are numbers, times are milliseconds; a map is a list in the order of insertion.
pub mod Bounds
mod Tests
use you_fen.Base.{
  ℕ, suc, zero, ◌+◌, ◌-◌, Bool, true, false, not, ◌&&◌, Option, none, some, List, [], ◌∷◌, ◌++◌,
  ◌==◌, leb, ltb, any, find, select, update_first, length, if◌then◌else◌,
}

pub record RateLimiterOptions : Type 0 where
  pub limit : ℕ
  pub window_ms : ℕ
  pub max_keys : ℕ

-- An entry of the map `hits`.
pub record Hits : Type 0 where
  pub key : ℕ
  pub timestamps : List ℕ

pub record RateLimiter : Type 0 where
  pub hits : List Hits
  pub last_sweep_at : ℕ

abbrev pub holds_key : ℕ → Hits → Bool
holds_key key h = h.key == key

-- `evictOldest`
abbrev pub evict_oldest : List Hits → ℕ → List Hits
evict_oldest [] count = []
evict_oldest (h ∷ hits) zero = h ∷ hits
evict_oldest (h ∷ hits) (suc count) = evict_oldest hits count

-- `t > windowStart`, with the window on the other side.
abbrev pub is_live : ℕ → ℕ → ℕ → Bool
is_live window_ms current t = ltb current (t + window_ms)

abbrev pub last_is_live : ℕ → ℕ → List ℕ → Bool
last_is_live window_ms current [] = false
last_is_live window_ms current (t ∷ []) = is_live window_ms current t
last_is_live window_ms current (t ∷ (u ∷ ts)) = last_is_live window_ms current (u ∷ ts)

-- `sweepExpired`
abbrev pub sweep_expired : ℕ → ℕ → List Hits → List Hits
sweep_expired window_ms current hits =
    select (λ h. last_is_live window_ms current h.timestamps) hits

-- `hits.get(key) ?? []`
abbrev pub timestamps_of : Option Hits → List ℕ
timestamps_of none = []
timestamps_of (some h) = h.timestamps

-- `hits.set`: a key that is there keeps its place.
abbrev pub set_hits : ℕ → List ℕ → List Hits → List Hits
set_hits key ts hits =
    if any (holds_key key) hits
    then update_first (holds_key key) (λ h. record h { timestamps = ts }) hits
    else hits ++ (record { key = key; timestamps = ts } ∷ [])

-- The sweep, at most once in a window.
abbrev pub sweep : RateLimiterOptions → ℕ → RateLimiter → RateLimiter
sweep options current s =
    if leb (s.last_sweep_at + options.window_ms) current
    then record { hits = sweep_expired options.window_ms current s.hits; last_sweep_at = current }
    else s

abbrev pub live_hits : RateLimiterOptions → ℕ → ℕ → List Hits → List ℕ
live_hits options current key hits =
    select (is_live options.window_ms current) (timestamps_of (find (holds_key key) hits))

-- The eviction, where a new key meets a full map.
abbrev pub make_room : RateLimiterOptions → ℕ → List Hits → List Hits
make_room options key hits =
    if not (any (holds_key key) hits) && leb options.max_keys (length hits)
    then evict_oldest hits (length hits - options.max_keys + 1)
    else hits

abbrev pub decide : RateLimiterOptions → ℕ → ℕ → List Hits → List ℕ → Bool × List Hits
decide options key current hits live =
    if leb options.limit (length live)
    then (false, set_hits key live hits)
    else (true, set_hits key (live ++ (current ∷ [])) (make_room options key hits))

-- `allow`, at a time that the clock has given.
unfoldable pub allow : RateLimiterOptions → ℕ → ℕ → RateLimiter → Bool × RateLimiter
allow options key current s =
    let swept = sweep options current s in
    let answer = decide options key current swept.hits (live_hits options current key swept.hits) in
    (answer.0, record { hits = answer.1; last_sweep_at = swept.last_sweep_at })

-- `createRateLimiter`
abbrev pub create_rate_limiter : ℕ → RateLimiter
create_rate_limiter now = record { hits = []; last_sweep_at = now }

-- Calls of `allow`, each with its key and its time.
abbrev pub allow_all : RateLimiterOptions → List (ℕ × ℕ) → RateLimiter → RateLimiter
allow_all options [] s = s
allow_all options (c ∷ calls) s = allow_all options calls (allow options c.0 c.1 s).1
