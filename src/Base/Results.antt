-- ===== src/Base/Results.antt =====
-- The exceptions that the services throw, as values, with `do` over them.
use mathlib.Core.Path.{◌≡◌, refl}
use mathlib.Core.Bool.{Bool, true, false}
use mathlib.Core.Logic.{◌⊎◌, inl, inr}
use mathlib.Core.Option.{Option, none, some}

-- One constructor for each reason, grouped by the HTTP class that NestJS gives it.
pub data BadRequest : Type 0 where
  invalid_window start_in_past beyond_horizon too_short too_long blackout_day closed_holiday :
      BadRequest
  field_required cost_center_missing cost_center_unknown : BadRequest
  not_an_object open_not_hhmm close_not_hhmm close_not_after_open : BadRequest
  missing_token token_invalid not_checkinable not_attendable : BadRequest
  bad_decision reason_required not_pending already_decided : BadRequest
  no_delegate delegate_inactive delegate_ineligible : BadRequest
  not_iso_dates too_restrictive no_occurrences end_not_after_start : BadRequest
  cannot_check_in cannot_check_out already_checked_out : BadRequest
  unsafe_target role_required role_too_long quick_book_not_configured slot_occupied : BadRequest

pub data Conflict : Type 0 where
  end_before_start slot_taken pods_full closed_day runs_overnight outside_hours : Conflict
  settled none_booked : Conflict
  role_changed built_in_role role_exists role_in_use : Conflict

pub data HttpError : Type 0 where
  bad_request : BadRequest → HttpError
  conflict : Conflict → HttpError
  forbidden not_found : HttpError
  too_many_requests unauthorized internal : HttpError

-- What a service method returns, or the exception that it throws.
pub data Result {κ} (R : Type κ) : Type κ where
  err : (thrown : HttpError) → Result R
  ok : (value : R) → Result R

module _ {κ} {R : Type κ} where
  infixl 5 ◌>>=◌
  abbrev pub ◌>>=◌ {μ} : {S : Type μ} → Result R → (R → Result S) → Result S
  (err thrown) >>= next = err thrown
  (ok value) >>= next = next value

  -- The call is made for its exception only.
  infixl 5 ◌>>◌
  abbrev pub ◌>>◌ : Result (Unit {0}) → Result R → Result R
  (err thrown) >> rest = err thrown
  (ok done) >> rest = rest

-- `if (b) throw e;`
abbrev pub throw_if : Bool → HttpError → Result (Unit {0})
throw_if true e = err e
throw_if false e = ok tt

-- `if (!o) throw e;`
abbrev pub or_throw {ℓ} : {A : Type ℓ} → Option A → HttpError → Result A
or_throw none e = err e
or_throw (some a) e = ok a

-- Where the whole call returned, its first part did.
pub >>=-eq-ok {κ μ} :
    {R : Type κ} {S : Type μ} (call : Result R) (next : R → Result S) {value : S}
    → (call >>= next) ≡ ok value
    → (r : R) × (call ≡ ok r) × (next r ≡ ok value)
>>=-eq-ok (err thrown) next returned = cc
>>=-eq-ok (ok r) next returned = (r, refl, returned)

pub throw_if-eq-ok : (b : Bool) (e : HttpError) {u : Unit {0}} → throw_if b e ≡ ok u → b ≡ false
throw_if-eq-ok false e h = refl
throw_if-eq-ok true e h = cc

pub Result-cases {ℓ} :
    {A : Type ℓ} (m : Result A) → ((a : A) × (m ≡ ok a)) ⊎ ((e : HttpError) × (m ≡ err e))
Result-cases (ok a) = inl (a, refl)
Result-cases (err e) = inr (e, refl)

pub or_throw-eq-ok {ℓ} :
    {A : Type ℓ} (o : Option A) (e : HttpError) {a : A} → or_throw o e ≡ ok a → o ≡ some a
or_throw-eq-ok none e h = cc
or_throw-eq-ok (some x) e h = cc
