-- ===== src/Bookings/Rules.antt =====
-- bookings.service.ts: who may book, custom fields and cost centers.
use booking_system.Base.{
  ℕ, Bool, false, not, Option, none, some, List, [], ◌∷◌, Text, text_eq, trim, if◌then◌else◌,
  includes, includes_text, is_empty, keep, or_opt, or_else, Result, ok, ◌>>=◌, ◌>>◌, throw_if,
  or_throw, bad_request, forbidden, field_required, cost_center_missing, cost_center_unknown,
}
use booking_system.Common.Roles.{is_admin}
use booking_system.Store.Booking.{Answer, Answers, null, text, items, other}
use booking_system.Store.Resource.{CustomField, Resource}
use booking_system.Store.Tenant.{User}
use booking_system.Store.Db.{Db, find_user}

abbrev in_department : Option ℕ → List ℕ → Bool
in_department none ds = false
in_department (some d) ds = includes ds d

unfoldable pub assert_can_book : Db → ℕ → ℕ → Resource → Result (Unit {0})
assert_can_book db tenant user r =
    if r.is_restricted
    then (or_throw (find_user db tenant user) forbidden >>= λ (u : User).
        if is_admin u.role
        then ok tt
        else throw_if (not (in_department r.department_id u.departments)) forbidden)
    else ok tt

unfoldable pub answer_of : Text → Answers → Option Answer
answer_of k [] = none
answer_of k ((j, v) ∷ m) = if text_eq j k then some v else answer_of k m

-- `cleaned[key] = value`
unfoldable pub put_answer : Text → Answer → Answers → Answers
put_answer k v [] = (k, v) ∷ []
put_answer k v ((j, w) ∷ m) = if text_eq j k then (j, v) ∷ m else (j, w) ∷ put_answer k v m

-- `{ ...a, ...b }`
unfoldable pub merge_answers : Answers → Answers → Answers
unfolding put_answer
merge_answers a [] = a
merge_answers a ((k, v) ∷ b) = merge_answers (put_answer k v a) b

-- undefined, null, '' or []; otherwise the answer itself.
abbrev pub given : Option Answer → Option Answer
given none = none
given (some null) = none
given (some (text [])) = none
given (some (text (c ∷ s))) = some (text (c ∷ s))
given (some (items [])) = none
given (some (items (i ∷ is))) = some (items (i ∷ is))
given (some (other n)) = some (other n)

abbrev store_answer : CustomField → Option Answer → Answers → Result Answers
store_answer f none cleaned = throw_if f.required (bad_request field_required) >> ok cleaned
store_answer f (some v) cleaned = ok (put_answer f.key v cleaned)

unfoldable pub clean_fields : Answers → List CustomField → Answers → Result Answers
unfolding answer_of put_answer
clean_fields values [] cleaned = ok cleaned
clean_fields values (f ∷ defs) cleaned =
    store_answer f (given (answer_of f.key values)) cleaned >>= λ c. clean_fields values defs c

unfoldable pub validate_custom_fields : Resource → Answers → Result Answers
unfolding clean_fields
validate_custom_fields r incoming = clean_fields incoming r.custom_fields []

-- `code || null`
abbrev pub non_empty {ℓ} : {A : Type ℓ} → List A → Option (List A)
non_empty [] = none
non_empty (c ∷ s) = some (c ∷ s)

abbrev allowed_codes : Db → ℕ → List Text
allowed_codes db tenant = keep (λ s. not (is_empty (trim s))) (db.customization tenant).cost_centers

abbrev choose_code : Text → List Text → Result (Option Text)
choose_code code [] = ok (non_empty code)
choose_code code (a ∷ more) = do
  throw_if (is_empty code) (bad_request cost_center_missing)
  throw_if (not (includes_text (a ∷ more) code)) (bad_request cost_center_unknown)
  ok (some code)

unfoldable pub resolve_cost_center : Db → ℕ → Option Text → Resource → Result (Option Text)
resolve_cost_center db tenant requested r =
    choose_code (trim (or_else (or_opt requested r.cost_center_code) [])) (allowed_codes db tenant)
