-- ===== src/Api/RateLimit/Tests.antt =====
-- The limiter of lib/api/public-records/rate-limit.ts at work.
use you_fen.Base.{ℕ, ◌≡◌, refl, true, false, List, [], ◌∷◌, arith}
use you_fen.Api.RateLimit.{RateLimiterOptions, allow, allow_all, create_rate_limiter}
use you_fen.Api.RateLimit.Bounds.{IsBounded, allow_all-IsBounded}

abbrev small : RateLimiterOptions
small = record { limit = 2; window_ms = 10; max_keys = 2 }

abbrev calls : List (ℕ × ℕ)
calls = (1, 5) ∷ ((1, 6) ∷ ((1, 7) ∷ ((2, 8) ∷ ((3, 9) ∷ []))))

-- A third hit within the window is turned away.
allow_third :
    (allow small 1 7 (allow_all small ((1, 5) ∷ ((1, 6) ∷ [])) (create_rate_limiter 0))).0 ≡ false
unfolding allow
allow_third = refl

-- It is let in once the first has aged.
allow_later :
    (allow small 1 15 (allow_all small ((1, 5) ∷ ((1, 6) ∷ [])) (create_rate_limiter 0))).0 ≡ true
unfolding allow
allow_later = refl

-- Key 1 is turned away once, and key 3 takes the place of key 1.
allow_all-IsBounded_example : IsBounded small (allow_all small calls (create_rate_limiter 0)).hits
allow_all-IsBounded_example = allow_all-IsBounded small calls 0 (omega arith) (omega arith)
