-- ===== src/Permissions/Sets.antt =====
-- Lists of keys as the sets that permissions.service.ts builds of them.
use booking_system.Base.{
  ◌≡◌, refl, subst, inl, inr, Bool, true, false, not, ◌&&◌, ◌||◌, List, [], ◌∷◌, ◌++◌, Text,
  text_eq, text_eq_iff, includes_text, trim, is_empty, any, arith, Bool-cases,
}
use booking_system.Permissions.Service.{add_once, add_all, to_set, add_clean, clean_keys}

includes_text-snoc :
    (xs : List Text) (x p : Text)
    → includes_text (xs ++ (x ∷ [])) p ≡ (includes_text xs p || text_eq x p)
includes_text-snoc [] x p = ground arith
includes_text-snoc (y ∷ xs) x p = ground (arith, includes_text-snoc xs x p)

-- A key that is there is there under each equal key.
text_eq-true : (x p : Text) → text_eq x p ≡ true → x ≡ p
text_eq-true x p h = (text_eq_iff x p).0 h

includes_text-add_once :
    (xs : List Text) (x p : Text)
    → includes_text (add_once xs x) p ≡ (includes_text xs p || text_eq x p)
includes_text-add_once xs x p = elim (Bool-cases (includes_text xs x)) [
  | inr e ↦ rw e (includes_text-snoc xs x p)
  | inl e ↦ elim (Bool-cases (text_eq x p)) [
    | inr f ↦ ground arith
    | inl f ↦
        let g : includes_text xs p ≡ true =
          subst (λ y. includes_text xs y ≡ true) (text_eq-true x p f) e in
        ground arith
  ]
]

includes_text-add_all :
    (xs ys : List Text) (p : Text)
    → includes_text (add_all xs ys) p ≡ (includes_text xs p || includes_text ys p)
unfolding add_all
includes_text-add_all xs [] p = ground arith
includes_text-add_all xs (y ∷ ys) p =
    ground (arith, includes_text-add_all (add_once xs y) ys p, includes_text-add_once xs y p)

-- `new Set(list).has(p)` is `list.includes(p)`.
pub includes_text-to_set :
    (ys : List Text) (p : Text) → includes_text (to_set ys) p ≡ includes_text ys p
includes_text-to_set ys p = ground (arith, includes_text-add_all [] ys p)

-- No key occurs twice.
abbrev pub HasNoRepeats : List Text → Type 0
HasNoRepeats [] = Unit
HasNoRepeats (x ∷ xs) = (includes_text xs x ≡ false) × HasNoRepeats xs

text_eq_refl : (x : Text) → text_eq x x ≡ true
text_eq_refl x = (text_eq_iff x x).1 refl

snoc-HasNoRepeats :
    (xs : List Text) (t : Text)
    → includes_text xs t ≡ false
    → HasNoRepeats xs
    → HasNoRepeats (xs ++ (t ∷ []))
snoc-HasNoRepeats [] t h n = (refl, tt)
snoc-HasNoRepeats (x ∷ xs) t h n =
    let s = includes_text-snoc xs t x in
    (
      (elim (Bool-cases (text_eq t x)) [
        | inl e ↦
            let q = text_eq-true t x e in
            let r = text_eq_refl x in
            absurd (let k = subst (λ y. includes_text (x ∷ xs) y ≡ false) q h in ground arith)
        | inr e ↦ (let m = n.0 in ground arith)
      ]),
      snoc-HasNoRepeats xs t (ground arith) n.1,
    )

clean_keys-HasNoRepeats :
    (seen ps : List Text) → HasNoRepeats seen → HasNoRepeats (clean_keys seen ps)
unfolding clean_keys
clean_keys-HasNoRepeats seen [] n = n
clean_keys-HasNoRepeats seen (p ∷ ps) n =
    clean_keys-HasNoRepeats (add_clean seen (trim p)) ps
      (elim (Bool-cases (is_empty (trim p) || includes_text seen (trim p))) [
        | inl e ↦ rw e n
        | inr e ↦ rw e (snoc-HasNoRepeats seen (trim p) (ground arith) n)
      ])

-- A key that some entry of the request is, once trimmed.
abbrev pub asked : List Text → Text → Bool
asked ps k = any (λ p. text_eq (trim p) k) ps

includes_text-add_clean :
    (seen : List Text) (t k : Text)
    → is_empty k ≡ false
    → includes_text (add_clean seen t) k ≡ (includes_text seen k || text_eq t k)
includes_text-add_clean seen t k ne = elim (Bool-cases (text_eq t k)) [
  | inl e ↦
      let q = text_eq-true t k e in
      let s = includes_text-snoc seen k k in let f = text_eq_refl k in rw q (ground arith)
  | inr e ↦ elim (Bool-cases (is_empty t || includes_text seen t)) [
    | inl f ↦ rw (f, e) (ground arith)
    | inr f ↦ let s = includes_text-snoc seen t k in rw (f, e) (ground arith)
  ]
]

text_eq-nil : (t : Text) → is_empty t ≡ false → text_eq t [] ≡ false
unfolding text_eq
text_eq-nil [] h = cc
text_eq-nil (c ∷ t) h = refl

empty-add_clean :
    (seen : List Text) (t : Text)
    → includes_text seen [] ≡ false
    → includes_text (add_clean seen t) [] ≡ false
empty-add_clean seen t h = elim (Bool-cases (is_empty t || includes_text seen t)) [
  | inl e ↦ rw e h
  | inr e ↦
      let n = text_eq-nil t (ground arith) in
      let s = includes_text-snoc seen t [] in rw e (ground arith)
]

clean_keys-asked :
    (seen ps : List Text) (k : Text)
    → is_empty k ≡ false
    → includes_text (clean_keys seen ps) k ≡ (includes_text seen k || asked ps k)
unfolding clean_keys
clean_keys-asked seen [] k ne = ground arith
clean_keys-asked seen (p ∷ ps) k ne = ground (
  arith,
  clean_keys-asked (add_clean seen (trim p)) ps k ne,
  includes_text-add_clean seen (trim p) k ne,
)

clean_keys-blank :
    (seen ps : List Text)
    → includes_text seen [] ≡ false
    → includes_text (clean_keys seen ps) [] ≡ false
unfolding clean_keys
clean_keys-blank seen [] h = h
clean_keys-blank seen (p ∷ ps) h =
    clean_keys-blank (add_clean seen (trim p)) ps (empty-add_clean seen (trim p) h)

-- The keys that an edit stores are without repeats, and are exactly the trimmed keys of the request that are
-- not blank.
pub clean_keys-asked_once :
    (ps : List Text)
    → HasNoRepeats (clean_keys [] ps)
      × ((k : Text) → includes_text (clean_keys [] ps) k ≡ (not (is_empty k) && asked ps k))
clean_keys-asked_once ps = (clean_keys-HasNoRepeats [] ps tt, exact)
  where
    exact : (k : Text) → includes_text (clean_keys [] ps) k ≡ (not (is_empty k) && asked ps k)
    exact [] = clean_keys-blank [] ps refl
    exact (c ∷ k) = clean_keys-asked [] ps (c ∷ k) refl
