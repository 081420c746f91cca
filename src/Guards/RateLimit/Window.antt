-- ===== src/Guards/RateLimit/Window.antt =====
-- How many requests of a key pass in one window, whatever other keys do.
use booking_system.Base.{
  ℕ, ◌+◌, ◌-◌, ◌≤◌, ◌<◌, ◌≡◌, refl, inl, inr, Bool, true, false, not, ◌&&◌, none, some, List, [],
  ◌∷◌, if◌then◌else◌, ◌==◌, leb, ltb, min, All, arith, Bool-cases, Option-cases,
}
use booking_system.Guards.RateLimit.{
  RateLimitOptions, Counter, Hits, Limiter, Verdict, pass, refuse, get, put, drop_expired, sweep,
  check_memory, check_redis, can_activate,
}

get-put :
    (k j : ℕ) (c : Counter) (m : Hits) → get j (put k c m) ≡ (if k == j then some c else get j m)
unfolding get put
get-put k j c [] = refl
get-put k j c ((i, d) ∷ m) = ground (arith, get-put k j c m)

-- A live counter outlives the sweep.
get-drop_expired :
    (now k : ℕ) (m : Hits) {c : Counter}
    → get k m ≡ some c
    → now < c.reset_at
    → get k (drop_expired now m) ≡ some c
unfolding get drop_expired
get-drop_expired now k [] e h = cc
get-drop_expired now k ((j, d) ∷ m) {c} e h = elim (Bool-cases (j == k)) [
  | inl q ↦ let s : d ≡ c = ground arith in ground arith
  | inr q ↦ let r = get-drop_expired now k m {c = c} (ground arith) h in ground arith
]

get-sweep :
    (now k : ℕ) (l : Limiter) {c : Counter}
    → get k l.hits ≡ some c
    → now < c.reset_at
    → get k (sweep now l).hits ≡ some c
unfolding sweep
get-sweep now k l {c} e h = elim (Bool-cases (ltb now (l.last_sweep + 60000))) [
  | inl q ↦ rw q e
  | inr q ↦ rw q (get-drop_expired now k l.hits e h)
]

abbrev bump : Counter → Counter
bump c = record c { count = c.count + 1 }

abbrev pub is_pass : Verdict → Bool
is_pass pass = true
is_pass (refuse n) = false

-- A live counter below the limit lets the request pass and counts it; at the limit it refuses.
check_live :
    (now : ℕ) (o : RateLimitOptions) (k : ℕ) (l : Limiter) (c : Counter)
    → get k l.hits ≡ some c
    → now < c.reset_at
    → (is_pass (check_memory now o k l).1 ≡ not (leb o.limit c.count))
      × (get k (check_memory now o k l).0.hits ≡ some (if leb o.limit c.count then c else bump c))
unfolding check_memory
check_live now o k l c e h =
    let s = get-sweep now k l e h in
    elim (Bool-cases (leb o.limit c.count)) [
      | inl q ↦ (ground arith, ground arith)
      | inr q ↦ (ground arith, ground (arith, get-put k k (bump c) (sweep now l).hits))
    ]

get-drop_expired-none : (now k : ℕ) (m : Hits) → get k m ≡ none → get k (drop_expired now m) ≡ none
unfolding get drop_expired
get-drop_expired-none now k [] e = refl
get-drop_expired-none now k ((j, d) ∷ m) e = ground (arith, get-drop_expired-none now k m)

check_fresh :
    (now : ℕ) (o : RateLimitOptions) (k : ℕ) (l : Limiter)
    → get k l.hits ≡ none
    → (is_pass (check_memory now o k l).1 ≡ true)
      × (get k (check_memory now o k l).0.hits
          ≡ some (record { count = 1; reset_at = now + o.window_ms }))
unfolding check_memory sweep
check_fresh now o k l e =
    let s = get-drop_expired-none now k l.hits e in
    ground
      (arith, get-put k k (record { count = 1; reset_at = now + o.window_ms }) (sweep now l).hits)

-- A request that the shared window of Redis refuses goes on all the same where the key has no
-- counter in this process.
pub can_activate-redis_refused :
    (now : ℕ) (o : RateLimitOptions) (r : ℕ × ℕ) (k : ℕ) (l : Limiter) (n : ℕ)
    → check_redis o r ≡ refuse n
    → get k l.hits ≡ none
    → is_pass (can_activate now (some o) (some r) k l).1 ≡ true
unfolding can_activate
can_activate-redis_refused now o r k l n h e = rw h ((check_fresh now o k l e).0)

check_other :
    (now : ℕ) (o : RateLimitOptions) (j k : ℕ) (l : Limiter) (c : Counter)
    → (j == k) ≡ false
    → get k l.hits ≡ some c
    → now < c.reset_at
    → get k (check_memory now o j l).0.hits ≡ some c
unfolding check_memory
check_other now o j k l c n e h =
    let s = get-sweep now k l e h in
    elim (Option-cases (get j (sweep now l).hits)) [
      | inl q ↦ ground (
        arith,
        get-put j k (record { count = 1; reset_at = now + o.window_ms }) (sweep now l).hits,
      )
      | inr (d, q) ↦ ground (
        arith,
        get-put j k (record { count = 1; reset_at = now + o.window_ms }) (sweep now l).hits,
        get-put j k (bump d) (sweep now l).hits,
      )
    ]

-- The requests of `k` that pass, in a run of requests of any keys at the given times.
module _ (options : ℕ → RateLimitOptions) (k : ℕ) where
  unfoldable pub passes : Limiter → List (ℕ × ℕ) → ℕ
  passes l [] = 0
  passes l ((now, j) ∷ rs) =
      (if j == k && is_pass (check_memory now (options j) j l).1 then 1 else 0)
      + passes (check_memory now (options j) j l).0 rs

  unfoldable pub asked : List (ℕ × ℕ) → ℕ
  asked [] = 0
  asked ((now, j) ∷ rs) = (if j == k then 1 else 0) + asked rs

  passes-live :
      (l : Limiter) (c : Counter) (rs : List (ℕ × ℕ))
      → get k l.hits ≡ some c
      → All (λ (r : ℕ × ℕ). r.0 < c.reset_at) rs
      → passes l rs ≡ min (asked rs) ((options k).limit - c.count)
  unfolding passes asked
  passes-live l c [] e a = ground arith
  passes-live l c ((now, j) ∷ rs) e a = elim (Bool-cases (j == k)) [
    | inr n ↦
        let r =
          passes-live (check_memory now (options j) j l).0 c rs
            (check_other now (options j) j k l c n e a.0) a.1 in
        ground arith
    | inl q ↦
        let p : j ≡ k = ground arith in
        let e' : get j l.hits ≡ some c = cc in
        let (v, w) = check_live now (options j) j l c e' a.0 in
        let l' = (check_memory now (options j) j l).0 in
        elim (Bool-cases (leb (options j).limit c.count)) [
          | inl full ↦
              let w' : get k l'.hits ≡ some c = ground arith in
              let r = passes-live l' c rs w' a.1 in ground arith
          | inr free ↦
              let w' : get k l'.hits ≡ some (bump c) = ground arith in
              let r = passes-live l' (bump c) rs w' a.1 in
              let b : c.count < (options k).limit = ground arith in ground arith
        ]
  ]

  -- Where a request of `k` finds no counter and opens a window, and the limit is at least one, of the
  -- requests of `k` in this window exactly the first `limit` pass, or all if they are fewer, whatever
  -- the requests of other keys between them.
  pub window_count :
      (l : Limiter) (now : ℕ) (rs : List (ℕ × ℕ))
      → get k l.hits ≡ none
      → 1 ≤ (options k).limit
      → All (λ (r : ℕ × ℕ). r.0 < now + (options k).window_ms) rs
      → passes l ((now, k) ∷ rs) ≡ min (asked ((now, k) ∷ rs)) (options k).limit
  unfolding passes asked
  window_count l now rs e n a =
      let (v, w) = check_fresh now (options k) k l e in
      let r =
        passes-live (check_memory now (options k) k l).0
          (record { count = 1; reset_at = now + (options k).window_ms }) rs w a in
      ground arith
