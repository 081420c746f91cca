-- ===== src/Common/Calendar.antt =====
-- What recurrence.service.ts uses of JavaScript's `Date`: days, weekdays and months of an instant.
-- The process runs in UTC, since neither the images nor the compose files set a zone, so the local
-- getters and setters are those of UTC. A month is counted from January 1970; dates past the year
-- 275760, where `Date` ends, are not told apart.
use booking_system.Base.{
  ℕ, zero, suc, ◌+◌, ◌-◌, ◌*◌, ◌/◌, ◌%◌, Bool, true, false, ◌&&◌, ◌||◌, not, if◌then◌else◌, ◌==◌,
  ltb, leb, ◌≡◌, ◌<◌, ◌≤◌, subst, inl, inr, arith, Bool-cases,
}

unfoldable pub is_leap : ℕ → Bool
is_leap y = y % 4 == 0 && (not (y % 100 == 0) || y % 400 == 0)

abbrev length_in : Bool → ℕ → ℕ
length_in leap m =
    if m == 1
    then (if leap then 29 else 28)
    else if m == 3 || m == 5 || m == 8 || m == 10
    then 30
    else 31

-- `new Date(year, month + 1, 0).getDate()`
unfoldable pub month_length : ℕ → ℕ
month_length m = length_in (is_leap (1970 + m / 12)) (m % 12)

-- The day on which a month begins.
unfoldable pub month_start : ℕ → ℕ
month_start zero = 0
month_start (suc m) = month_start m + month_length m

month_from : ℕ → ℕ → ℕ → ℕ
month_from zero m d = m
month_from (suc fuel) m d = elim (ltb d (month_length m)) [
  | true ↦ m
  | false ↦ month_from fuel (suc m) (d - month_length m)
]

-- The month of a day. A month has at least 28 days, which bounds the steps.
unfoldable pub month_of : ℕ → ℕ
unfolding month_from
month_of d = month_from (d / 28 + 1) 0 d

pub month_length-bounds : (m : ℕ) → (28 ≤ month_length m) × (month_length m ≤ 31)
unfolding month_length
month_length-bounds m = (ground arith, ground arith)

-- The steps reach the month that the day is before the end of.
month_from-ends :
    (fuel m d : ℕ) → d < fuel * 28 → month_start m + d < month_start (suc (month_from fuel m d))
unfolding month_from month_start
month_from-ends zero m d h = absurd (omega arith)
month_from-ends (suc fuel) m d h = elim (Bool-cases (ltb d (month_length m))) [
  | inl e ↦ rw e (ground arith)
  | inr e ↦
      let r =
        month_from-ends fuel (suc m) (d - month_length m)
          (let b = month_length-bounds m in ground arith) in
      rw e (ground arith)
]

pub month_of-ends : (d : ℕ) → d < month_start (suc (month_of d))
unfolding month_of month_start
month_of-ends d =
    let r = month_from-ends (d / 28 + 1) 0 d (omega arith) in
    subst (λ x. x < month_start (suc (month_of d))) (omega arith) r

-- A later month begins later, by at least 28 days for each month between.
pub month_start_mono : (m n : ℕ) → m ≤ n → month_start m + 28 * (n - m) ≤ month_start n
unfolding month_start
month_start_mono m zero h = let e : m ≡ 0 = omega arith in rw e (omega arith)
month_start_mono m (suc n) h = elim (Bool-cases (leb m n)) [
  | inl e ↦
      let r = month_start_mono m n (ground arith) in let b = month_length-bounds n in omega arith
  | inr e ↦ let f : m ≡ suc n = ground arith in rw f (omega arith)
]
