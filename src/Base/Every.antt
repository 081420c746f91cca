-- ===== src/Base/Every.antt =====
-- A property of every entry of a list, through the list operations.
use mathlib.Core.Path.{◌≡◌, refl, sym, ap, subst}
use mathlib.Core.Logic.{inl, inr}
use mathlib.Core.Bool.{Bool, true}
use mathlib.Core.List.{List, [], ◌∷◌, ◌++◌}
use Prim.Native.Nat.{ℕ, zero, suc}
use booking_system.Base.Tests.{Bool-cases}
use booking_system.Base.Lists.{All, take, keep, change, length}
use booking_system.Base.Members.{In}

module _ {ℓ κ} {A : Type ℓ} (P : A → Type κ) where
  pub All-take : (n : ℕ) (xs : List A) → All P xs → All P (take n xs)
  All-take zero xs h = tt
  All-take (suc n) [] h = tt
  All-take (suc n) (x ∷ xs) h = (h.0, All-take n xs h.1)

  pub All-append : (xs ys : List A) → All P xs → All P ys → All P (xs ++ ys)
  All-append [] ys h k = k
  All-append (x ∷ xs) ys h k = (h.0, All-append xs ys h.1 k)

  pub All-snoc : (xs : List A) (a : A) → All P xs → P a → All P (xs ++ (a ∷ []))
  All-snoc [] a h p = (p, tt)
  All-snoc (x ∷ xs) a h p = (h.0, All-snoc xs a h.1 p)

  pub All-change :
      (p : A → Bool) (f : A → A) (xs : List A)
      → ((a : A) → p a ≡ true → P a → P (f a))
      → All P xs
      → All P (change p f xs)
  All-change p f [] s h = tt
  All-change p f (x ∷ xs) s h = elim (Bool-cases (p x)) [
    | inl e ↦ rw e (s x e h.0, All-change p f xs s h.1)
    | inr e ↦ rw e (h.0, All-change p f xs s h.1)
  ]

module _ {ℓ κ κ'} {A : Type ℓ} (P : A → Type κ) (Q : A → Type κ') where
  pub All-keep :
      (p : A → Bool) (xs : List A)
      → ((a : A) → p a ≡ true → P a → Q a)
      → All P xs
      → All Q (keep p xs)
  All-keep p [] s h = tt
  All-keep p (x ∷ xs) s h = elim (Bool-cases (p x)) [
    | inl e ↦ rw e (s x e h.0, All-keep p xs s h.1)
    | inr e ↦ rw e (All-keep p xs s h.1)
  ]

  pub All-imp : (xs : List A) → ((a : A) → P a → Q a) → All P xs → All Q xs
  All-imp [] s h = tt
  All-imp (x ∷ xs) s h = (s x h.0, All-imp xs s h.1)

module _ {κ} {A : Type 0} (P : A → Type κ) where
  pub All-tabulate : (xs : List A) → ((a : A) → In a xs → P a) → All P xs
  All-tabulate [] s = tt
  All-tabulate (x ∷ xs) s = (s x (inl refl), All-tabulate xs (λ a i. s a (inr i)))

  pub All-lookup : {a : A} (xs : List A) → All P xs → In a xs → P a
  All-lookup [] h i = elim i [ ]
  All-lookup (x ∷ xs) h (inl e) = subst P (sym e) h.0
  All-lookup (x ∷ xs) h (inr i) = All-lookup xs h.1 i

module _ {ℓ} {A : Type ℓ} where
  pub length-snoc : (xs : List A) (a : A) → length (xs ++ (a ∷ [])) ≡ suc (length xs)
  length-snoc [] a = refl
  length-snoc (x ∷ xs) a = ap suc (length-snoc xs a)
