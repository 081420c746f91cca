-- ===== src/Notifications/Counts.antt =====
-- How many rows of the mail outbox a tick claims.
use booking_system.Base.{
  ℕ, suc, ◌+◌, ◌≤◌, ◌≡◌, refl, Bool, true, false, List, [], ◌∷◌, ◌++◌, change, keep, take, tally,
  All, arith, zero,
}
use booking_system.Leases.{claimable, due_rows, by_due, insert_due}
use booking_system.Notifications.{NotificationOutbox, mail_lease}

module _ {A : Type 0} (p : A → Bool) where
  pub tally-keep_le : (q : A → Bool) (xs : List A) → tally p (keep q xs) ≤ tally p xs
  tally-keep_le q [] = omega arith
  tally-keep_le q (x ∷ xs) = ground (arith, tally-keep_le q xs)

  pub tally-take_le : (n : ℕ) (xs : List A) → tally p (take n xs) ≤ tally p xs
  tally-take_le zero xs = omega arith
  tally-take_le (suc n) [] = omega arith
  tally-take_le (suc n) (x ∷ xs) = ground (arith, tally-take_le n xs)

  pub tally-snoc : (xs : List A) (a : A) → tally p (xs ++ (a ∷ [])) ≡ tally p (a ∷ []) + tally p xs
  tally-snoc [] a = ground arith
  tally-snoc (x ∷ xs) a = ground (arith, tally-snoc xs a)

  pub tally-change :
      (q : A → Bool) (f : A → A) (xs : List A)
      → ((a : A) → q a ≡ true → p (f a) ≡ p a)
      → tally p (change q f xs) ≡ tally p xs
  tally-change q f [] h = refl
  tally-change q f (x ∷ xs) h = ground (arith, h x, tally-change q f xs h)

  pub tally-none : (xs : List A) → All (λ a. p a ≡ false) xs → tally p xs ≡ 0
  tally-none [] h = refl
  tally-none (x ∷ xs) h = let k = tally-none xs h.1 in let m = h.0 in ground arith

pub tally-insert_due :
    (p : NotificationOutbox → Bool) (r : NotificationOutbox) (rs : List NotificationOutbox)
    → tally p (insert_due mail_lease r rs) ≡ tally p (r ∷ rs)
unfolding insert_due
tally-insert_due p r [] = refl
tally-insert_due p r (x ∷ xs) = ground (arith, tally-insert_due p r xs)

pub tally-by_due :
    (p : NotificationOutbox → Bool) (rs : List NotificationOutbox)
    → tally p (by_due mail_lease rs) ≡ tally p rs
unfolding by_due
tally-by_due p [] = refl
tally-by_due p (r ∷ rs) =
    let i = tally-insert_due p r (by_due mail_lease rs) in let k = tally-by_due p rs in ground arith

pub tally-due_rows :
    (p : NotificationOutbox → Bool) (now : ℕ) (rs : List NotificationOutbox)
    → tally p (due_rows mail_lease now rs) ≤ tally p rs
unfolding due_rows
tally-due_rows p now rs =
    let k = tally-keep_le p (claimable mail_lease now) rs in
    let b = tally-by_due p (keep (claimable mail_lease now) rs) in
    let t = tally-take_le p 50 (by_due mail_lease (keep (claimable mail_lease now) rs)) in
    omega arith
