-- ===== src/Webhooks/Deliveries.antt =====
-- webhooks.service.ts: what a tick posts, and what becomes of a delivery.
use booking_system.Base.{
  ℕ, suc, ◌+◌, ◌-◌, ◌^◌, ◌<◌, ◌≤◌, ◌≡◌, refl, sym, ap, subst, ◌∙◌, inl, inr, true, ◌&&◌, Option,
  none, some, List, [], ◌∷◌, ◌++◌, Text, find, find-In, In, ◌==◌, leb, ltb, Result, ok, All,
  All-append, All-imp, arith, Bool-cases, Result-cases,
}
use native.Mathlib.Nat.{one-le-pow}
use mathlib.Core.List.{append_assoc}
use booking_system.Store.Outbox.{pending, sent, failed}
use booking_system.SyncOutbox.{backoff_ms, max_attempts}
use booking_system.Leases.{claim_due}
use booking_system.Webhooks.Service.{
  Webhook, WebhookDelivery, Hooks, Response, rejected, attempted, deliver_to, deliver_one,
  deliver_all, drain, delivery_lease,
}

-- How an attempt may end: sent; failed with no attempt left; or pending again, not before half a minute.
pub data Ends (now : ℕ) (d : WebhookDelivery) : Type 0 where
  is_sent : d.status ≡ sent → Ends now d
  is_failed : d.status ≡ failed → d.attempt_count ≡ max_attempts → Ends now d
  is_pending :
      d.status ≡ pending
      → d.attempt_count < max_attempts
      → now + 30000 ≤ d.next_attempt_at
      → Ends now d

pow-positive : (n : ℕ) → 1 ≤ 4 ^ n
pow-positive n = one-le-pow n 4 (omega arith)

backoff_ms-bound : (n : ℕ) → 30000 ≤ backoff_ms n
unfolding backoff_ms
backoff_ms-bound n = let p = pow-positive (n - 1) in omega arith

-- An attempt on a delivery with attempts left, answered or refused by the check of its target, counts once and ends
-- with the delivery sent, failed after exactly six attempts, or pending with attempts left and half a minute
-- of rest at least.
pub attempted-Ends :
    (now : ℕ) (r : Response) (d : WebhookDelivery)
    → d.attempt_count < max_attempts
    → Ends now (attempted now r d)
      × Ends now (rejected now d)
      × ((attempted now r d).attempt_count ≡ suc d.attempt_count)
      × ((rejected now d).attempt_count ≡ suc d.attempt_count)
unfolding attempted rejected
attempted-Ends now r d h = elim (Bool-cases (leb max_attempts (d.attempt_count + 1))) [
  | inl e ↦ elim (Bool-cases (leb 200 r.status && ltb r.status 300)) [
    | inl f ↦ rw (e, f) (is_sent refl, is_failed refl (ground arith), omega arith, omega arith)
    | inr f ↦
        rw (e, f)
          (is_failed refl (ground arith), is_failed refl (ground arith), omega arith, omega arith)
  ]
  | inr e ↦ elim (Bool-cases (leb 200 r.status && ltb r.status 300)) [
    | inl f ↦
        rw (e, f)
          (is_sent refl, is_pending refl (ground arith) (omega arith), omega arith, omega arith)
    | inr f ↦
        let b = backoff_ms-bound (d.attempt_count + 1) in
        rw (e, f)
          (
            is_pending refl (ground arith) (omega arith),
            is_pending refl (ground arith) (omega arith),
            omega arith,
            omega arith,
          )
  ]
]

module _ (validate : Text → Result (Unit {0})) (post : Webhook → WebhookDelivery → Response) where
  -- The delivery has an active subscription, whose target passes the check.
  pub record IsSafe (subs : List Webhook) (d : WebhookDelivery) : Type 0 where
    pub sub : Webhook
    pub registered : In sub subs
    pub of_sub : (sub.id == d.subscription_id) ≡ true
    pub active : sub.is_active ≡ true
    pub passes : validate sub.target_url ≡ ok tt

  -- The posts of a tick so far, and that the subscriptions stay.
  record Posts (h : Hooks) (ds : List WebhookDelivery) (h' : Hooks) : Type 0 where
    new : List WebhookDelivery
    posted : h'.posted ≡ new ++ h.posted
    safe : All (λ d. IsSafe h.subs d × In d ds) new
    subs : h'.subs ≡ h.subs

  no_post :
      (h h' : Hooks) (ds : List WebhookDelivery)
      → h'.posted ≡ h.posted
      → h'.subs ≡ h.subs
      → Posts h ds h'
  no_post h h' ds p s = record { new = []; posted = p; safe = tt; subs = s }

  deliver_to-Posts :
      (now : ℕ) (d : WebhookDelivery) (h : Hooks) (o : Option Webhook)
      → find (λ (w : Webhook). w.id == d.subscription_id) h.subs ≡ o
      → Posts h (d ∷ []) (deliver_to validate post now d o h)
  deliver_to-Posts now d h none e = no_post h _ (d ∷ []) refl refl
  deliver_to-Posts now d h (some w) e = elim (Bool-cases w.is_active) [
    | inr f ↦ rw f (no_post h _ (d ∷ []) refl refl)
    | inl f ↦ elim (Result-cases (validate w.target_url)) [
      | inr (x, g) ↦ rw (f, g) (no_post h _ (d ∷ []) refl refl)
      | inl (u, g) ↦
          let i = find-In (λ (w : Webhook). w.id == d.subscription_id) h.subs e in
          rw (f, g)
            (record {
              new = d ∷ [];
              posted = refl;
              safe = (
                (
                  record { sub = w; registered = i.0; of_sub = i.1; active = f; passes = g },
                  inl refl,
                ),
                tt,
              );
              subs = refl;
            })
    ]
  ]

  deliver_all-Posts :
      (now : ℕ) (ds : List WebhookDelivery) (h : Hooks)
      → Posts h ds (deliver_all validate post now ds h)
  unfolding deliver_all deliver_one
  deliver_all-Posts now [] h = no_post h h [] refl refl
  deliver_all-Posts now (d ∷ ds) h =
      let h1 = deliver_one validate post now d h in
      let p =
        deliver_to-Posts now d h (find (λ (w : Webhook). w.id == d.subscription_id) h.subs) refl in
      let q = deliver_all-Posts now ds h1 in
      record {
        new = q.new ++ p.new;
        posted =
            q.posted ∙ ap (λ ps. q.new ++ ps) p.posted ∙ sym (append_assoc q.new p.new h.posted);
        safe =
            All-append (λ x. IsSafe h.subs x × In x (d ∷ ds)) q.new p.new
              (All-imp (λ x. IsSafe h1.subs x × In x ds) (λ x. IsSafe h.subs x × In x (d ∷ ds))
                q.new (λ x i. (subst (λ s. IsSafe s x) p.subs i.0, inr i.1)) q.safe)
              (All-imp (λ x. IsSafe h.subs x × In x (d ∷ [])) (λ x. IsSafe h.subs x × In x (d ∷ ds))
                p.new (λ x i. (i.0, first i.1)) p.safe);
        subs = q.subs ∙ p.subs;
      }
    where
      first : {x : WebhookDelivery} → In x (d ∷ []) → In x (d ∷ ds)
      first (inl e) = inl e
      first (inr n) = elim n [ ]

  -- A tick posts only deliveries that it claimed, and each one only for an active subscription whose target passes
  -- the check when it is sent.
  pub drain-IsSafe :
      (now : ℕ) (h : Hooks)
      → (new : List WebhookDelivery) × ((drain validate post now h).posted ≡ new ++ h.posted)
        × All (λ d. IsSafe h.subs d × In d (claim_due delivery_lease now h.deliveries).0) new
  unfolding drain
  drain-IsSafe now h =
      let (claimed, rows) = claim_due delivery_lease now h.deliveries in
      let p = deliver_all-Posts now claimed (record h { deliveries = rows }) in
      (p.new, p.posted, p.safe)
