-- ===== src/Visitors.antt =====
-- modules/visitors/visitors.service.ts and visit.entity.ts: guest visits and their lifecycle, with the VisitDto of
-- visitors.controller.ts, whose fields the validation pipe keeps. A date is in milliseconds, read by the controller.
pub mod Lifecycle
pub mod Stamps
use booking_system.Base.{
  ℕ, ◌≡◌, Bool, true, false, not, ◌&&◌, ◌||◌, Option, none, some, or_else, or_opt, List, [], ◌∷◌,
  ◌++◌, Text, any, find, keep, change, if◌then◌else◌, ◌==◌, ltb, leb, Result, ok, err, ◌>>=◌, ◌>>◌,
  throw_if, or_throw, bad_request, not_found, cannot_check_in, cannot_check_out,
  already_checked_out,
}

pub data VisitStatus : Type 0 where
  expected checked_in checked_out no_show cancelled : VisitStatus

abbrev pub is_checked_in : VisitStatus → Bool
is_checked_in checked_in = true
is_checked_in _ = false

abbrev pub is_checked_out : VisitStatus → Bool
is_checked_out checked_out = true
is_checked_out _ = false

abbrev pub is_cancelled : VisitStatus → Bool
is_cancelled cancelled = true
is_cancelled _ = false

abbrev pub same_status : VisitStatus → VisitStatus → Bool
same_status expected expected = true
same_status checked_in checked_in = true
same_status checked_out checked_out = true
same_status no_show no_show = true
same_status cancelled cancelled = true
same_status _ _ = false

pub record Visit : Type 0 where
  pub id : ℕ
  pub tenant_id : ℕ
  pub booking_id : Option ℕ
  pub host_user_id : ℕ
  pub visitor_name : Text
  pub visitor_email : Text
  pub visitor_phone : Text
  pub visitor_company : Text
  pub purpose : Text
  pub expected_at : ℕ
  pub expected_until : Option ℕ
  pub status : VisitStatus
  pub checked_in_at : Option ℕ
  pub checked_out_at : Option ℕ
  pub nda_accepted : Bool
  pub notes : Text
  pub created_by : Option ℕ

pub record VisitDto : Type 0 where
  pub visitor_name : Text
  pub host_user_id : ℕ
  pub expected_at : ℕ
  pub expected_until : Option ℕ
  pub booking_id : Option ℕ
  pub visitor_email : Option Text
  pub visitor_phone : Option Text
  pub visitor_company : Option Text
  pub purpose : Option Text
  pub nda_accepted : Option Bool
  pub notes : Option Text

-- `Between(from, to)` takes both ends; the bounds count only where both are given.
unfoldable pub within : Option ℕ → Option ℕ → Visit → Bool
within (some from) (some to) v = leb from v.expected_at && leb v.expected_at to
within _ _ v = true

abbrev pub has_status : Option VisitStatus → Visit → Bool
has_status none v = true
has_status (some s) v = same_status v.status s

unfoldable pub insert_latest : Visit → List Visit → List Visit
insert_latest v [] = v ∷ []
insert_latest v (w ∷ ws) =
    if ltb v.expected_at w.expected_at then w ∷ insert_latest v ws else v ∷ w ∷ ws

unfoldable pub latest_first : List Visit → List Visit
latest_first [] = []
latest_first (v ∷ vs) = insert_latest v (latest_first vs)

unfoldable pub list : ℕ → Option ℕ → Option ℕ → Option VisitStatus → List Visit → List Visit
list tenant from to status visits = latest_first (
    keep (λ (v : Visit). (v.tenant_id == tenant) && within from to v && has_status status v) visits)

-- `{ id, tenantId }`
abbrev pub is_visit : ℕ → ℕ → Visit → Bool
is_visit tenant id v = (v.id == id) && (v.tenant_id == tenant)

unfoldable pub get : ℕ → ℕ → List Visit → Result Visit
get tenant id visits = or_throw (find (is_visit tenant id) visits) not_found

-- `save` of a row that was read writes it back under its id.
unfoldable pub save : Visit → List Visit → List Visit
save r visits = change (λ (v : Visit). v.id == r.id) (λ _. r) visits

-- Columns that the request leaves out take their defaults; the database gives the id.
unfoldable pub new_visit : (id tenant created_by : ℕ) → VisitDto → Visit
new_visit id tenant created_by dto = record {
  id = id;
  tenant_id = tenant;
  booking_id = dto.booking_id;
  host_user_id = dto.host_user_id;
  visitor_name = dto.visitor_name;
  visitor_email = or_else dto.visitor_email [];
  visitor_phone = or_else dto.visitor_phone [];
  visitor_company = or_else dto.visitor_company [];
  purpose = or_else dto.purpose [];
  expected_at = dto.expected_at;
  expected_until = dto.expected_until;
  status = expected;
  checked_in_at = none;
  checked_out_at = none;
  nda_accepted = or_else dto.nda_accepted false;
  notes = or_else dto.notes [];
  created_by = some created_by;
}

unfoldable pub create : (id tenant created_by : ℕ) → VisitDto → List Visit → List Visit
create id tenant created_by dto visits = visits ++ (new_visit id tenant created_by dto ∷ [])

-- `Object.assign(r, dto, { id: r.id, tenantId: r.tenantId })`; a field that is absent, or undefined at the `save`,
-- leaves its column.
unfoldable pub assigned : VisitDto → Visit → Visit
assigned dto v = record v {
  booking_id = or_opt dto.booking_id v.booking_id;
  host_user_id = dto.host_user_id;
  visitor_name = dto.visitor_name;
  visitor_email = or_else dto.visitor_email v.visitor_email;
  visitor_phone = or_else dto.visitor_phone v.visitor_phone;
  visitor_company = or_else dto.visitor_company v.visitor_company;
  purpose = or_else dto.purpose v.purpose;
  expected_at = dto.expected_at;
  expected_until = or_opt dto.expected_until v.expected_until;
  nda_accepted = or_else dto.nda_accepted v.nda_accepted;
  notes = or_else dto.notes v.notes;
}

unfoldable pub update : (tenant id : ℕ) → VisitDto → List Visit → Result (List Visit)
update tenant id dto visits = do v ← get tenant id visits; ok (save (assigned dto v) visits)

unfoldable pub remove : (tenant id : ℕ) → List Visit → Result (List Visit)
remove tenant id visits = do
  throw_if (not (any (is_visit tenant id) visits)) not_found
  ok (keep (λ v. not (is_visit tenant id v)) visits)

unfoldable pub check_in : (now tenant id : ℕ) → List Visit → Result (List Visit)
check_in now tenant id visits = do
  v ← get tenant id visits
  throw_if (is_checked_out v.status || is_cancelled v.status) (bad_request cannot_check_in)
  ok (save (record v { status = checked_in; checked_in_at = some now }) visits)

unfoldable pub check_out : (now tenant id : ℕ) → List Visit → Result (List Visit)
check_out now tenant id visits = do
  v ← get tenant id visits
  throw_if (not (is_checked_in v.status)) (bad_request cannot_check_out)
  ok (save (record v { status = checked_out; checked_out_at = some now }) visits)

unfoldable pub cancel : (tenant id : ℕ) → List Visit → Result (List Visit)
cancel tenant id visits = do
  v ← get tenant id visits
  throw_if (is_checked_out v.status) (bad_request already_checked_out)
  ok (save (record v { status = cancelled }) visits)
