-- ===== src/Tests/Visitors.antt =====
-- Visits at concrete inputs.
use booking_system.Base.{ℕ, refl, none, List, [], ◌∷◌, codes, All, arith}
use booking_system.Visitors.{Visit, VisitDto, cancelled, new_visit}
use booking_system.Visitors.Lifecycle.{Op, creates, updates, checks_in, checks_out, cancels, run}
use booking_system.Visitors.Stamps.{
  HasStamps, InOrder, ends_at, run-HasStamps, IsStill, run-IsStill,
}

abbrev guest : VisitDto
guest = record {
  visitor_name = codes "Ada";
  host_user_id = 7;
  expected_at = 5000;
  expected_until = none;
  booking_id = none;
  visitor_email = none;
  visitor_phone = none;
  visitor_company = none;
  purpose = none;
  nda_accepted = none;
  notes = none;
}

-- Two guests, one of whom comes, comes in again and leaves, after which no call but the deletion works.
abbrev calls : List (ℕ × Op)
calls =
    (1000, creates 1 9 7 guest)
    ∷ (1000, creates 2 9 7 guest)
    ∷ (5000, checks_in 9 1)
    ∷ (5100, cancels 9 2)
    ∷ (5200, checks_in 9 1)
    ∷ (6000, checks_out 9 1)
    ∷ (6100, cancels 9 1)
    ∷ (6200, checks_in 9 2)
    ∷ (6300, updates 9 2 guest)
    ∷ []

calls-InOrder : InOrder 0 calls
unfolding InOrder
calls-InOrder = (
  omega arith,
  (
    omega arith,
    (
      omega arith,
      (omega arith, (omega arith, (omega arith, (omega arith, (omega arith, (omega arith, tt)))))),
    ),
  ),
)

run-HasStamps_example : All (HasStamps (ends_at 0 calls)) (run calls [])
run-HasStamps_example = run-HasStamps 0 calls [] calls-InOrder tt

abbrev called_off : Visit
called_off = record (new_visit 2 9 7 guest) { status = cancelled }

called_off-IsStill : IsStill 2 cancelled none none called_off
unfolding new_visit
called_off-IsStill = λ e. (refl, refl, refl)

abbrev later_calls : List (ℕ × Op)
later_calls = (7000, checks_in 9 2) ∷ (7100, updates 9 2 guest) ∷ (7200, cancels 9 2) ∷ []

run-IsStill_example : All (IsStill 2 cancelled none none) (run later_calls (called_off ∷ []))
run-IsStill_example =
    run-IsStill 2 cancelled none none later_calls (called_off ∷ []) refl (tt, (tt, (tt, tt)))
      (called_off-IsStill, tt)
