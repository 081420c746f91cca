-- ===== src/Common/OperatingHours/Normal.antt =====
-- What normalizeOperatingHours of common/operating-hours.ts stores, as the readers see it.
use booking_system.Base.{
  ℕ, zero, suc, ◌-◌, ◌<◌, ◌≡◌, sym, subst, inl, inr, Option, none, some, [], ◌∷◌, Text, ◌==◌,
  trim_five, ok, arith, Bool-cases, Option-cases, Result-cases,
}
use booking_system.Common.Tz.{hhmm_to_minutes, match_minutes}
use booking_system.Common.OperatingHours.{
  DayWindow, Days, OperatingHours, hhmm_to_min, day_entry, window_for_weekday, validate_window,
  canonical_entry, canonical_days, source_days, of_days, normalize_operating_hours,
}

-- The reader of bookings takes each time that the validator of the schedule takes, as the same minute.
hhmm_to_min-hhmm_to_minutes :
    (v : Text) (m : ℕ) → hhmm_to_min v ≡ some m → hhmm_to_minutes v ≡ some m
unfolding hhmm_to_min hhmm_to_minutes match_minutes
hhmm_to_min-hhmm_to_minutes [] m h = cc
hhmm_to_min-hhmm_to_minutes (a ∷ []) m h = cc
hhmm_to_min-hhmm_to_minutes (a ∷ b ∷ []) m h = cc
hhmm_to_min-hhmm_to_minutes (a ∷ b ∷ c ∷ []) m h = cc
hhmm_to_min-hhmm_to_minutes (a ∷ b ∷ c ∷ d ∷ []) m h = cc
hhmm_to_min-hhmm_to_minutes (a ∷ b ∷ c ∷ d ∷ e ∷ []) m h =
    let t = trim_five a b c d e (ground arith) (ground arith) (ground arith) (ground arith) in
    rw t (ground arith)
hhmm_to_min-hhmm_to_minutes (a ∷ b ∷ c ∷ d ∷ e ∷ f ∷ v) m h = cc

-- Both times are read, and the room closes after it opens.
abbrev pub IsReadable : DayWindow → Type 0
IsReadable w =
    (o : ℕ) × (c : ℕ) × (hhmm_to_minutes w.opens ≡ some o)
    × (hhmm_to_minutes w.closes ≡ some c)
    × (o < c)

validate_window-IsReadable : (w v : DayWindow) → validate_window w ≡ ok v → IsReadable v
unfolding validate_window
validate_window-IsReadable w v h = elim (Option-cases (hhmm_to_min w.opens)) [
  | inl e ↦ absurd (ground arith)
  | inr (o, e) ↦ elim (Option-cases (hhmm_to_min w.closes)) [
    | inl f ↦ absurd (ground arith)
    | inr (c, f) ↦
        let q : w ≡ v = ground arith in
        let l : o < c = ground arith in
        subst IsReadable q (
          o,
          c,
          hhmm_to_min-hhmm_to_minutes w.opens o e,
          hhmm_to_min-hhmm_to_minutes w.closes c f,
          l,
        )
  ]
]

canonical_entry-IsReadable :
    (entry : Option (Option DayWindow)) (w : DayWindow)
    → canonical_entry entry ≡ ok (some w)
    → IsReadable w
canonical_entry-IsReadable none w h = cc
canonical_entry-IsReadable (some none) w h = cc
canonical_entry-IsReadable (some (some v)) w h = elim (Result-cases (validate_window v)) [
  | inl (x, e) ↦
      let q : x ≡ w = ground arith in
      validate_window-IsReadable v w (subst (λ y. validate_window v ≡ ok y) q e)
  | inr (x, e) ↦ absurd (ground arith)
]

canonical_days-IsReadable :
    (n : ℕ) (source days : Days) (k : ℕ) (w : DayWindow)
    → canonical_days n source ≡ ok days
    → day_entry days k ≡ some (some w)
    → IsReadable w
unfolding canonical_days day_entry
canonical_days-IsReadable zero source days k w h e =
    let q : [] ≡ days = ground arith in
    absurd (nothing (subst (λ d. day_entry d k ≡ some (some w)) (sym q) e))
  where
    nothing : day_entry [] k ≡ some (some w) → ⊥
    nothing f = cc
canonical_days-IsReadable (suc n) source days k w h e =
    elim (Result-cases (canonical_entry (day_entry source (6 - n)))) [
      | inr (x, f) ↦ absurd (ground arith)
      | inl (x, f) ↦ elim (Result-cases (canonical_days n source)) [
        | inr (y, g) ↦ absurd (ground arith)
        | inl (y, g) ↦
            let q : ((6 - n, x) ∷ y) ≡ days = ground arith in
            let e' : day_entry ((6 - n, x) ∷ y) k ≡ some (some w) =
              subst (λ d. day_entry d k ≡ some (some w)) (sym q) e in
            elim (Bool-cases ((6 - n) == k)) [
              | inl z ↦
                  let r : x ≡ some w = ground arith in
                  canonical_entry-IsReadable (day_entry source (6 - n)) w
                    (subst (λ t. canonical_entry (day_entry source (6 - n)) ≡ ok t) r f)
              | inr z ↦ canonical_days-IsReadable n source y k w g (ground arith)
            ]
      ]
    ]

of_days-IsReadable :
    (source : Option Days) (oh : OperatingHours) (k : ℕ) (w : DayWindow)
    → of_days source ≡ ok (some oh)
    → window_for_weekday oh k ≡ some w
    → IsReadable w
unfolding window_for_weekday
of_days-IsReadable none oh k w h e = cc
of_days-IsReadable (some source) oh k w h e = elim (Result-cases (canonical_days 7 source)) [
  | inr (x, f) ↦ absurd (ground arith)
  | inl (x, f) ↦
      let q : oh.days ≡ some x = ground arith in
      canonical_days-IsReadable 7 source x k w f (ground arith)
]

-- Each window that the bookings read off a stored schedule, one that was normalised, is readable and
-- closes after it opens: the branch that lets a booking through for misconfigured hours is not taken.
pub normalize_operating_hours-IsReadable :
    (input oh : OperatingHours) (weekday : ℕ) (w : DayWindow)
    → normalize_operating_hours (some input) ≡ ok (some oh)
    → window_for_weekday oh weekday ≡ some w
    → IsReadable w
unfolding normalize_operating_hours
normalize_operating_hours-IsReadable input oh weekday w h e =
    elim (Result-cases (source_days input)) [
      | inr (x, f) ↦ absurd (ground arith)
      | inl (x, f) ↦ of_days-IsReadable x oh weekday w (ground arith) e
    ]
