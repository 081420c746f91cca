-- ===== src/Tests/Webhooks.antt =====
-- Webhooks at concrete inputs.
use booking_system.Base.{
  ◌≡◌, refl, true, Bool, none, List, [], ◌∷◌, ◌++◌, Text, codes, arith, ok, Result, All, In,
  to_lower_case, not, ◌==◌,
}
use booking_system.Store.Outbox.{pending}
use booking_system.Leases.{claim_due}
use booking_system.Webhooks.Url.{assert_safe_ip, assert_safe_ip-mapped, mapped_prefix}
use booking_system.Webhooks.Service.{
  Webhook, WebhookDelivery, Hooks, Response, attempted, rejected, drain, delivery_lease,
}
use booking_system.Webhooks.Deliveries.{Ends, attempted-Ends, IsSafe, drain-IsSafe}

abbrev target : Webhook
target = record {
  id = 1;
  tenant_id = 9;
  target_url = codes "https://hooks.example.org/";
  secret = codes "whsec_1";
  events = codes "booking.created" ∷ [];
  is_active = true;
}

abbrev delivery : WebhookDelivery
delivery = record {
  id = 7;
  tenant_id = 9;
  subscription_id = 1;
  event = codes "booking.created";
  payload = 100;
  status = pending;
  attempt_count = 5;
  last_status = none;
  last_error = [];
  next_attempt_at = 1000;
  delivered_at = none;
  updated_at = 1000;
}

abbrev hooks : Hooks
hooks = record { subs = target ∷ []; deliveries = delivery ∷ []; posted = []; next_id = 8 }

-- A target that is down.
abbrev down : Response
down = record { status = 503; error = codes "down" }

attempted-Ends_example :
    Ends 2000 (attempted 2000 down delivery)
    × Ends 2000 (rejected 2000 delivery)
    × ((attempted 2000 down delivery).attempt_count ≡ 6)
    × ((rejected 2000 delivery).attempt_count ≡ 6)
attempted-Ends_example = attempted-Ends 2000 down delivery (omega arith)

abbrev accepts : Text → Result (Unit {0})
accepts url = ok tt

drain-IsSafe_example :
    (new : List WebhookDelivery) × ((drain accepts (λ w d. down) 2000 hooks).posted ≡ new ++ [])
    × All
        (λ d.
          IsSafe accepts (λ w d. down) hooks.subs d
          × In d (claim_due delivery_lease 2000 hooks.deliveries).0)
        new
drain-IsSafe_example = drain-IsSafe accepts (λ w d. down) 2000 hooks

-- The one address, and the same mapped.
abbrev loopback : Text
loopback = codes "127.0.0.1"

abbrev short : Text → Bool
short [] = true
short (c ∷ s) = c == 49

abbrev long : Text → Bool
long s = not (short s)

lower_loopback : to_lower_case loopback ≡ loopback
unfolding to_lower_case
lower_loopback = refl

assert_safe_ip-mapped_example :
    assert_safe_ip short long (mapped_prefix ++ loopback) ≡ assert_safe_ip short long loopback
assert_safe_ip-mapped_example =
    assert_safe_ip-mapped short long loopback refl refl refl lower_loopback
