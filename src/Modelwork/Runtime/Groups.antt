-- ===== src/Modelwork/Runtime/Groups.antt =====
-- `groups.setdefault(key(x), []).append(x)` for every x of a list, and what a group then holds.
use land_record_digitalizati.Prelude.{
  String, false, Option, none, some, List, [], ◌∷◌, ◌++◌, filter, ◌≡◌, ◌≢◌, refl, sym, ap, ◌∙◌, inl,
  inr, ◌==◌, eq_iff, eq_refl, arith, Bool-cases, if◌then◌else◌,
}
use land_record_digitalizati.Modelwork.Runtime.{get, put}

-- `d.setdefault(key, [])`, the list of a key
unfoldable pub or_nil : {A : Type 0} → Option (List A) → List A
or_nil none = []
or_nil (some xs) = xs

module _ {A : Type 0} (key : A → String) where
  unfoldable pub group_by : List (String × List A) → List A → List (String × List A)
  unfolding get put or_nil
  group_by groups [] = groups
  group_by groups (x ∷ xs) =
      group_by (put (key x) (or_nil (get (key x) groups) ++ x ∷ []) groups) xs

pub differs_sym : (j k : String) → (j == k) ≡ false → (k == j) ≡ false
differs_sym j k h = elim (Bool-cases (k == j)) [
  | inl same ↦ absurd (ground (arith, eq_iff k j, eq_iff j k))
  | inr other ↦ other
]

module _ {A : Type 0} where
  pub get-put : (k : String) (a : A) (d : List (String × A)) → get k (put k a d) ≡ some a
  unfolding get put
  get-put k a [] = rw (eq_refl k) refl
  get-put k a ((j, b) ∷ d) = elim (Bool-cases (j == k)) [
    | inl h ↦ rw (h, h) refl
    | inr h ↦ rw (h, h) (get-put k a d)
  ]

  pub get-put_other :
      (k j : String) (a : A) (d : List (String × A))
      → (j == k) ≡ false
      → get k (put j a d) ≡ get k d
  unfolding get put
  get-put_other k j a [] other = rw other refl
  get-put_other k j a ((i, b) ∷ d) other = elim (Bool-cases (i == j)) [
    | inl same ↦
        let elsewhere : (i == k) ≡ false = rw ((eq_iff i j).0 same) other in
        rw (same, elsewhere) refl
    | inr h ↦
        rw h (ap (λ (r : Option A). if i == k then some b else r) (get-put_other k j a d other))
  ]

  -- Every key stands once, and has a value with the property.
  unfoldable pub IsKeyed : (A → Type 0) → List (String × A) → Type 0
  IsKeyed P [] = Unit
  IsKeyed P ((k, a) ∷ d) = (get k d ≡ none) × P a × IsKeyed P d

  pub put-IsKeyed :
      (P : A → Type 0) (k : String) (a : A) (d : List (String × A))
      → P a
      → IsKeyed P d
      → IsKeyed P (put k a d)
  unfolding put IsKeyed get
  put-IsKeyed P k a [] p h = (refl, p, tt)
  put-IsKeyed P k a ((j, b) ∷ d) p h = elim (Bool-cases (j == k)) [
    | inl same ↦ rw same (h.0, p, h.2)
    | inr other ↦
        rw other
          (get-put_other j k a d (differs_sym j k other) ∙ h.0, h.1, put-IsKeyed P k a d p h.2)
  ]

-- A list with an entry.
abbrev pub NonEmpty : {A : Type 0} → List A → Type 0
NonEmpty xs = xs ≢ []

snoc-NonEmpty : {A : Type 0} (xs : List A) (x : A) → NonEmpty (xs ++ x ∷ [])
snoc-NonEmpty [] x e = ground arith
snoc-NonEmpty (y ∷ xs) x e = ground arith

append-nil : {A : Type 0} (xs : List A) → xs ++ [] ≡ xs
append-nil [] = refl
append-nil (x ∷ xs) = ap (◌∷◌ x) (append-nil xs)

snoc-append : {A : Type 0} (xs : List A) (x : A) (ys : List A) → (xs ++ x ∷ []) ++ ys ≡ xs ++ x ∷ ys
snoc-append [] x ys = refl
snoc-append (z ∷ xs) x ys = ap (◌∷◌ z) (snoc-append xs x ys)

module _ {A : Type 0} (key : A → String) where
  pub group_by-IsKeyed :
      (xs : List A) (groups : List (String × List A))
      → IsKeyed NonEmpty groups
      → IsKeyed NonEmpty (group_by key groups xs)
  unfolding group_by
  group_by-IsKeyed [] groups h = h
  group_by-IsKeyed (x ∷ xs) groups h =
      let members = or_nil (get (key x) groups) in
      group_by-IsKeyed xs (put (key x) (members ++ x ∷ []) groups)
        (put-IsKeyed NonEmpty (key x) _ groups (snoc-NonEmpty members x) h)

  -- A group holds the entries of the list with its key, in their order, behind those it had.
  pub members-group_by :
      (k : String) (xs : List A) (groups : List (String × List A))
      → or_nil (get k (group_by key groups xs))
        ≡ or_nil (get k groups) ++ filter (λ (x : A). key x == k) xs
  unfolding group_by or_nil
  members-group_by k [] groups = sym (append-nil (or_nil (get k groups)))
  members-group_by k (x ∷ xs) groups = elim (Bool-cases (key x == k)) [
    | inl here ↦
        let members = or_nil (get (key x) groups) in
        let later = members-group_by k xs (put (key x) (members ++ x ∷ []) groups) in
        let same = (eq_iff (key x) k).0 here in
        let rest = filter (λ (y : A). key y == k) xs in
        let grown : get k (put (key x) (members ++ x ∷ []) groups)
            ≡ some (or_nil (get k groups) ++ x ∷ []) =
          rw same (get-put k (or_nil (get k groups) ++ x ∷ []) groups) in
        rw here (
          later
          ∙ ap (λ (r : Option (List A)). or_nil r ++ rest) grown
          ∙ snoc-append (or_nil (get k groups)) x rest)
    | inr there ↦
        let members = or_nil (get (key x) groups) in
        let later = members-group_by k xs (put (key x) (members ++ x ∷ []) groups) in
        let old = get-put_other k (key x) (members ++ x ∷ []) groups there in
        let rest = filter (λ (y : A). key y == k) xs in
        rw there (later ∙ ap (λ (r : Option (List A)). or_nil r ++ rest) old)
  ]
