-- ===== src/Prelude/Members.antt =====
-- An entry of a list with a property, and how the searches over lists find one.
use mathlib.Core.Logic.{◌⊎◌, inl, inr}
use mathlib.Core.Path.{◌≡◌, refl, sym, ◌∙◌}
use mathlib.Core.Bool.{Bool, true, false}
use mathlib.Core.List.{List, [], ◌∷◌, ◌++◌, map}
use native.Mathlib.Omega.{arith}
use land_record_digitalizati.Prelude.Tests.{Bool-cases}
use land_record_digitalizati.Prelude.Lists.{any, filter, All, All-map}

module _ {A : Type 0} where
  -- Some entry has the property.
  abbrev pub Any : (A → Type 0) → List A → Type 0
  Any P [] = ⊥
  Any P (x ∷ xs) = P x ⊎ Any P xs

module _ {A : Type 0} where
  pub Any-map : (P Q : A → Type 0) (xs : List A) → ((x : A) → P x → Q x) → Any P xs → Any Q xs
  Any-map P Q [] f h = h
  Any-map P Q (x ∷ xs) f (inl p) = inl (f x p)
  Any-map P Q (x ∷ xs) f (inr h) = inr (Any-map P Q xs f h)

  -- Every entry is one of the list.
  pub Any-self : (xs : List A) → All (λ x. Any (λ y. y ≡ x) xs) xs
  Any-self [] = tt
  Any-self (x ∷ xs) = (inl refl, All-map _ _ xs (λ y h. inr h) (Any-self xs))

  -- What holds of every entry holds of the one that is found.
  pub All-Any : (P Q : A → Type 0) (xs : List A) → All P xs → Any Q xs → Any (λ x. P x × Q x) xs
  All-Any P Q [] a h = h
  All-Any P Q (x ∷ xs) a (inl q) = inl (a.0, q)
  All-Any P Q (x ∷ xs) a (inr h) = inr (All-Any P Q xs a.1 h)

  pub Any-out : (C : Type 0) (P : A → Type 0) (xs : List A) → ((x : A) → P x → C) → Any P xs → C
  Any-out C P [] f h = elim h [ ]
  Any-out C P (x ∷ xs) f (inl p) = f x p
  Any-out C P (x ∷ xs) f (inr h) = Any-out C P xs f h

  pub Any-left : (P : A → Type 0) (xs ys : List A) → Any P xs → Any P (xs ++ ys)
  Any-left P [] ys h = elim h [ ]
  Any-left P (x ∷ xs) ys (inl p) = inl p
  Any-left P (x ∷ xs) ys (inr h) = inr (Any-left P xs ys h)

  pub Any-right : (P : A → Type 0) (xs ys : List A) → Any P ys → Any P (xs ++ ys)
  Any-right P [] ys h = h
  Any-right P (x ∷ xs) ys h = inr (Any-right P xs ys h)

  pub any-Any : (p : A → Bool) (xs : List A) → any p xs ≡ true → Any (λ x. p x ≡ true) xs
  any-Any p [] h = absurd (ground arith)
  any-Any p (x ∷ xs) h = elim (Bool-cases (p x)) [
    | inl here ↦ inl here
    | inr other ↦ inr (any-Any p xs (ground arith))
  ]

  pub Any-any : (p : A → Bool) (xs : List A) → Any (λ x. p x ≡ true) xs → any p xs ≡ true
  Any-any p [] h = elim h [ ]
  Any-any p (x ∷ xs) (inl h) = ground arith
  Any-any p (x ∷ xs) (inr h) = let later = Any-any p xs h in ground arith

  pub any-none : (p : A → Bool) (xs : List A) → any p xs ≡ false → All (λ x. p x ≡ false) xs
  any-none p [] h = tt
  any-none p (x ∷ xs) h = (ground arith, any-none p xs (ground arith))

  pub Any-mapped :
      {B : Type 0} (f : A → B) (Q : B → Type 0) (xs : List A)
      → Any (λ x. Q (f x)) xs
      → Any Q (map f xs)
  Any-mapped f Q [] h = h
  Any-mapped f Q (x ∷ xs) (inl q) = inl q
  Any-mapped f Q (x ∷ xs) (inr h) = inr (Any-mapped f Q xs h)

  -- The entry that a filter keeps is one of the list with the test passed.
  pub filter-Any :
      (P : A → Type 0) (p : A → Bool) (xs : List A)
      → Any P (filter p xs)
      → Any (λ x. (p x ≡ true) × P x) xs
  filter-Any P p [] h = h
  filter-Any P p (x ∷ xs) h = elim (Bool-cases (p x)) [
    | inr left ↦ inr (filter-Any P p xs (rw left at h))
    | inl kept ↦
        let found : P x ⊎ Any P (filter p xs) = rw kept at h in
        elim found [ inl q ↦ inl (kept, q) | inr later ↦ inr (filter-Any P p xs later) ]
  ]

  pub Any-filter :
      (P : A → Type 0) (p : A → Bool) (xs : List A)
      → Any (λ x. (p x ≡ true) × P x) xs
      → Any P (filter p xs)
  Any-filter P p [] h = h
  Any-filter P p (x ∷ xs) (inl h) = rw h.0 (inl h.1)
  Any-filter P p (x ∷ xs) (inr h) = elim (Bool-cases (p x)) [
    | inl kept ↦ rw kept (inr (Any-filter P p xs h))
    | inr left ↦ rw left (Any-filter P p xs h)
  ]

pub All-filter : {A : Type 0} (p : A → Bool) (xs : List A) → All (λ x. p x ≡ true) (filter p xs)
All-filter p [] = tt
All-filter p (x ∷ xs) = elim (Bool-cases (p x)) [
  | inl e ↦ rw e (e, All-filter p xs)
  | inr e ↦ rw e (All-filter p xs)
]

from_filter-cons :
    {A : Type 0} (P : A → Type 0) (p : A → Bool) (x : A) (xs : List A)
    → All P (filter p (x ∷ xs))
    → (p x ≡ true → P x) × All P (filter p xs)
from_filter-cons P p x xs h = elim (Bool-cases (p x)) [
  | inl e ↦ let both : P x × All P (filter p xs) = rw e at h in (λ _. both.0, both.1)
  | inr e ↦
      let rest : All P (filter p xs) = rw e at h in (λ f. absurd (ground (arith, sym e ∙ f)), rest)
]

pub from_filter :
    {A : Type 0} (P : A → Type 0) (p : A → Bool) (xs : List A)
    → All P (filter p xs)
    → All (λ x. p x ≡ true → P x) xs
from_filter P p [] h = tt
from_filter P p (x ∷ xs) h =
    let (first, rest) = from_filter-cons P p x xs h in (first, from_filter P p xs rest)

pub All-filtered :
    {A : Type 0} (P : A → Type 0) (p : A → Bool) (xs : List A) → All P xs → All P (filter p xs)
All-filtered P p [] h = tt
All-filtered P p (x ∷ xs) h = elim (Bool-cases (p x)) [
  | inl e ↦ rw e (h.0, All-filtered P p xs h.1)
  | inr e ↦ rw e (All-filtered P p xs h.1)
]
