-- ===== src/Tests/Guards.antt =====
-- Request limits at concrete inputs.
use booking_system.Base.{ℕ, ◌≡◌, refl, List, [], ◌∷◌, min, All, ◌<◌, ◌+◌, none, arith}
use booking_system.Guards.RateLimit.{
  check_redis, retry_after, refuse, get, RateLimitOptions, Limiter,
}
use booking_system.Guards.RateLimit.Window.{passes, asked, window_count}

-- Two requests in a minute, for each route.
abbrev twice : ℕ → RateLimitOptions
twice k = record { limit = 2; window_ms = 60000 }

abbrev idle : Limiter
idle = record { hits = []; last_sweep = 0 }

abbrev burst : List (ℕ × ℕ)
burst = (1010, 5) ∷ (1020, 6) ∷ (1030, 5) ∷ (1040, 5) ∷ []

idle-get : get 5 idle.hits ≡ none
unfolding get
idle-get = refl

burst-early : All (λ (r : ℕ × ℕ). r.0 < 1000 + (twice 5).window_ms) burst
burst-early = (omega arith, (omega arith, (omega arith, (omega arith, tt))))

window_count_example :
    passes twice 5 idle ((1000, 5) ∷ burst) ≡ min (asked twice 5 ((1000, 5) ∷ burst)) 2
window_count_example = window_count twice 5 idle 1000 burst idle-get (omega arith) burst-early

refused : check_redis (twice 5) (3, 4000) ≡ refuse 4
unfolding check_redis retry_after
refused = refl
