-- ===== src/Base/Members.antt =====
-- Membership as a type by recursion, and what the list searches say of it.
use mathlib.Core.Path.{◌≡◌, refl, sym, ap, subst}
use mathlib.Core.Logic.{◌⊎◌, inl, inr}
use mathlib.Core.Bool.{Bool, true, false}
use mathlib.Core.List.{List, [], ◌∷◌, ◌++◌}
use mathlib.Core.Option.{some}
use Prim.Native.Nat.{ℕ, zero, suc, ◌≤◌}
use native.Mathlib.Omega.{arith}
use booking_system.Base.Tests.{Bool-cases}
use booking_system.Base.Lists.{any, all, find, keep, take, length, change, includes}

abbrev pub In : {A : Type 0} → A → List A → Type 0
In a [] = ⊥
In a (x ∷ xs) = (a ≡ x) ⊎ In a xs

module _ {A : Type 0} where
  pub any-false : (p : A → Bool) {a : A} (xs : List A) → any p xs ≡ false → In a xs → p a ≡ false
  any-false p [] h i = elim i [ ]
  any-false p (x ∷ xs) h (inl e) = rw e (ground arith)
  any-false p (x ∷ xs) h (inr i) = any-false p xs (ground arith) i

  pub any-true : (p : A → Bool) {a : A} (xs : List A) → In a xs → p a ≡ true → any p xs ≡ true
  any-true p [] i h = elim i [ ]
  any-true p (x ∷ xs) (inl e) h = let g : p x ≡ true = subst (λ y. p y ≡ true) e h in ground arith
  any-true p (x ∷ xs) (inr i) h = ground (arith, any-true p xs i h)

  pub all-true : (p : A → Bool) {a : A} (xs : List A) → all p xs ≡ true → In a xs → p a ≡ true
  all-true p [] h i = elim i [ ]
  all-true p (x ∷ xs) h (inl e) = rw e (ground arith)
  all-true p (x ∷ xs) h (inr i) = all-true p xs (ground arith) i

  pub In-all : (p : A → Bool) (xs : List A) → ((a : A) → In a xs → p a ≡ true) → all p xs ≡ true
  In-all p [] h = refl
  In-all p (x ∷ xs) h = ground (arith, h x (inl refl), In-all p xs (λ a i. h a (inr i)))

  pub find-In : (p : A → Bool) {a : A} (xs : List A) → find p xs ≡ some a → In a xs × (p a ≡ true)
  find-In p [] h = cc
  find-In p {a} (x ∷ xs) h = elim (Bool-cases (p x)) [
    | inl e ↦ let q : x ≡ a = ground arith in (inl (sym q), subst (λ y. p y ≡ true) q e)
    | inr e ↦ let r = find-In p {a = a} xs (ground arith) in (inr r.0, r.1)
  ]

  -- A row after an update was there before, changed or not.
  pub In-change :
      (p : A → Bool) (f : A → A) {a : A} (xs : List A)
      → In a (change p f xs)
      → (c : A) × In c xs × (((p c ≡ true) × (a ≡ f c)) ⊎ ((p c ≡ false) × (a ≡ c)))
  In-change p f [] i = elim i [ ]
  In-change p f (x ∷ xs) (inl e) = elim (Bool-cases (p x)) [
    | inl h ↦ (x, inl refl, inl (h, rw h at e))
    | inr h ↦ (x, inl refl, inr (h, rw h at e))
  ]
  In-change p f (x ∷ xs) (inr i) = let r = In-change p f xs i in (r.0, inr r.1, r.2)

pub includes-append_left :
    (xs ys : List ℕ) (a : ℕ) → includes xs a ≡ true → includes (xs ++ ys) a ≡ true
includes-append_left [] ys a h = cc
includes-append_left (x ∷ xs) ys a h = ground (arith, includes-append_left xs ys a)

pub includes-append_last : (xs : List ℕ) (a : ℕ) → includes (xs ++ a ∷ []) a ≡ true
includes-append_last [] a = ground arith
includes-append_last (x ∷ xs) a = ground (arith, includes-append_last xs a)

module _ {A : Type 0} where
  pub In-take : (a : A) (n : ℕ) (xs : List A) → In a (take n xs) → In a xs
  In-take a zero xs i = elim i [ ]
  In-take a (suc n) [] i = elim i [ ]
  In-take a (suc n) (x ∷ xs) (inl e) = inl e
  In-take a (suc n) (x ∷ xs) (inr i) = inr (In-take a n xs i)

  pub take-all : (n : ℕ) (xs : List A) → length xs ≤ n → take n xs ≡ xs
  take-all zero [] h = refl
  take-all zero (x ∷ xs) h = absurd (omega arith)
  take-all (suc n) [] h = refl
  take-all (suc n) (x ∷ xs) h = ap (λ t. x ∷ t) (take-all n xs (omega arith))

  pub In-keep : (p : A → Bool) {a : A} (xs : List A) → In a (keep p xs) → In a xs × (p a ≡ true)
  In-keep p [] i = elim i [ ]
  In-keep p {a} (x ∷ xs) i = elim (Bool-cases (p x)) [
    | inl e ↦ elim (rw e at i) [
      | inl q ↦ (inl q, subst (λ y. p y ≡ true) (sym q) e)
      | inr j ↦ let r = In-keep p {a = a} xs j in (inr r.0, r.1)
    ]
    | inr e ↦ let r = In-keep p {a = a} xs (rw e at i) in (inr r.0, r.1)
  ]

  pub keep-In : (p : A → Bool) {a : A} (xs : List A) → In a xs → p a ≡ true → In a (keep p xs)
  keep-In p [] i h = elim i [ ]
  keep-In p {a} (x ∷ xs) (inl q) h =
      let e : p x ≡ true = subst (λ y. p y ≡ true) q h in rw e (inl q)
  keep-In p {a} (x ∷ xs) (inr i) h = elim (Bool-cases (p x)) [
    | inl e ↦ rw e (inr (keep-In p xs i h))
    | inr e ↦ rw e (keep-In p xs i h)
  ]

  pub change-In :
      (p : A → Bool) (f : A → A) {a : A} (xs : List A)
      → In a xs
      → p a ≡ true
      → In (f a) (change p f xs)
  change-In p f [] i h = elim i [ ]
  change-In p f (x ∷ xs) (inl e) h =
      let t : p x ≡ true = subst (λ y. p y ≡ true) e h in rw t (inl (ap f e))
  change-In p f (x ∷ xs) (inr i) h = inr (change-In p f xs i h)
