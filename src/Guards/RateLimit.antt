-- ===== src/Guards/RateLimit.antt =====
-- common/guards/rate-limit.guard.ts: a fixed window for each client and route.
-- A key is a number; the clock is the argument `now`, in milliseconds. The reply of Redis to the
-- script is an argument, `none` where the call fails or Redis is off.
pub mod Window
use booking_system.Base.{
  ℕ, suc, ◌+◌, ◌-◌, ◌/◌, Bool, true, false, not, ◌&&◌, Option, none, some, List, [], ◌∷◌,
  if◌then◌else◌, ◌==◌, ltb, leb, max,
}

pub record RateLimitOptions : Type 0 where
  pub limit : ℕ
  pub window_ms : ℕ

pub record Counter : Type 0 where
  pub count : ℕ
  pub reset_at : ℕ

abbrev pub Hits : Type 0
Hits = List (ℕ × Counter)

pub record Limiter : Type 0 where
  pub hits : Hits
  pub last_sweep : ℕ

-- The request goes on, or is refused with `Retry-After` in seconds.
pub data Verdict : Type 0 where
  pass : Verdict
  refuse : ℕ → Verdict

unfoldable pub get : ℕ → Hits → Option Counter
get k [] = none
get k ((j, c) ∷ m) = if j == k then some c else get k m

unfoldable pub put : ℕ → Counter → Hits → Hits
put k c [] = (k, c) ∷ []
put k c ((j, d) ∷ m) = if j == k then (j, c) ∷ m else (j, d) ∷ put k c m

unfoldable pub drop_expired : ℕ → Hits → Hits
drop_expired now [] = []
drop_expired now ((k, c) ∷ m) =
    if leb c.reset_at now then drop_expired now m else (k, c) ∷ drop_expired now m

-- At most once a minute.
unfoldable pub sweep : ℕ → Limiter → Limiter
unfolding drop_expired
sweep now l =
    if ltb now (l.last_sweep + 60000)
    then l
    else record { hits = drop_expired now l.hits; last_sweep = now }

-- `Math.max(1, Math.ceil(remainingMs / 1000))`
unfoldable pub retry_after : ℕ → ℕ
retry_after remaining = max 1 ((remaining + 999) / 1000)

abbrev fresh : ℕ → RateLimitOptions → Counter
fresh now o = record { count = 1; reset_at = now + o.window_ms }

abbrev count_hit : ℕ → RateLimitOptions → ℕ → Limiter → Option Counter → Limiter × Verdict
count_hit now o k l none = (record l { hits = put k (fresh now o) l.hits }, pass)
count_hit now o k l (some c) =
    if leb c.reset_at now
    then (record l { hits = put k (fresh now o) l.hits }, pass)
    else if leb o.limit c.count
    then (l, refuse (retry_after (c.reset_at - now)))
    else (record l { hits = put k (record c { count = c.count + 1 }) l.hits }, pass)

unfoldable pub check_memory : ℕ → RateLimitOptions → ℕ → Limiter → Limiter × Verdict
check_memory now o k l = count_hit now o k (sweep now l) (get k (sweep now l).hits)

-- The reply is the running count and the milliseconds left.
unfoldable pub check_redis : RateLimitOptions → ℕ × ℕ → Verdict
check_redis o (count, ttl) = if ltb o.limit count then refuse (retry_after ttl) else pass

-- The `catch` round the call of Redis takes the refusal too.
abbrev or_memory : ℕ → RateLimitOptions → ℕ → Limiter → Verdict → Limiter × Verdict
or_memory now o k l pass = (l, pass)
or_memory now o k l (refuse n) = check_memory now o k l

-- A route without options is not limited; where Redis fails the memory window decides.
unfoldable pub can_activate :
    ℕ → Option RateLimitOptions → Option (ℕ × ℕ) → ℕ → Limiter → Limiter × Verdict
can_activate now none reply k l = (l, pass)
can_activate now (some o) none k l = check_memory now o k l
can_activate now (some o) (some r) k l = or_memory now o k l (check_redis o r)
