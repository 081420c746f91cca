-- ===== src/Tests/Common.antt =====
-- Operating hours at concrete inputs.
use booking_system.Base.{◌≡◌, refl, none, some, [], ◌∷◌, codes, ok}
use booking_system.Common.OperatingHours.{
  DayWindow, OperatingHours, hhmm_to_min, day_entry, window_for_weekday, validate_window,
  canonical_days, normalize_operating_hours,
}
use booking_system.Common.OperatingHours.Normal.{IsReadable, normalize_operating_hours-IsReadable}

abbrev nine_to_six : DayWindow
nine_to_six = record { opens = codes "09:00"; closes = codes "18:00" }

-- Open on Monday and on Saturday, whose entries come in another order.
abbrev posted : OperatingHours
posted = record {
  days = some ((6, some nine_to_six) ∷ (1, some nine_to_six) ∷ (3, none) ∷ []);
  opens = none;
  closes = none;
}

abbrev stored : OperatingHours
stored = record {
  days = some (
      (0, none)
      ∷ (1, some nine_to_six)
      ∷ (2, none)
      ∷ (3, none)
      ∷ (4, none)
      ∷ (5, none)
      ∷ (6, some nine_to_six)
      ∷ []);
  opens = none;
  closes = none;
}

posted-stored : normalize_operating_hours (some posted) ≡ ok (some stored)
unfolding normalize_operating_hours canonical_days day_entry validate_window hhmm_to_min
posted-stored = refl

stored-monday : window_for_weekday stored 1 ≡ some nine_to_six
unfolding window_for_weekday day_entry
stored-monday = refl

normalize_operating_hours-IsReadable_example : IsReadable nine_to_six
normalize_operating_hours-IsReadable_example =
    normalize_operating_hours-IsReadable posted stored 1 nine_to_six posted-stored stored-monday
