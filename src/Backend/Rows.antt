-- ===== src/Backend/Rows.antt =====
-- Rows of a table under their ids: finding one, and finding it again once it was updated in place.
use mathlib.Core.Option.{some-injective}
use land_record_digitalizati.Prelude.{
  String, Bool, false, ◌≡◌, sym, ap, ◌∙◌, subst, true, Option, some, List, [], ◌∷◌, map, find, All,
  arith, Bool-cases, inl, inr, ◌==◌, eq_iff, if◌then◌else◌,
}

module _ {A : Type 0} (id_of : A → String) where
  abbrev pub row : String → List A → Option A
  row id = find (λ (a : A). id_of a == id)

  abbrev pub update : String → (A → A) → List A → List A
  update id f = map (λ (a : A). if id_of a == id then f a else a)

  pub row-id : (id : String) (a : A) (rows : List A) → row id rows ≡ some a → id_of a ≡ id
  row-id id a [] h = absurd (ground arith)
  row-id id a (b ∷ rows) h = elim (Bool-cases (id_of b == id)) [
    | inl here ↦
        let same : ◌≡◌ {A = Option A} (some b) (some a) = rw here at h in
        ap id_of (sym (some-injective _ _ same)) ∙ (eq_iff (id_of b) id).0 here
    | inr later ↦ row-id id a rows (rw later at h)
  ]

  module _ (f : A → A) (keeps : (a : A) → id_of (f a) ≡ id_of a) where
    updated_here :
        (id : String) (a : A) (rows : List A)
        → row id rows ≡ some a
        → row id (update id f rows) ≡ some (f a)
    updated_here id a [] h = absurd (ground arith)
    updated_here id a (b ∷ rows) h = elim (Bool-cases (id_of b == id)) [
      | inl here ↦
          let same : ◌≡◌ {A = Option A} (some b) (some a) = rw here at h in
          let again : (id_of (f b) == id) ≡ true = rw (keeps b) here in
          rw (here, again) (ap (λ (r : A). some (f r)) (some-injective _ _ same))
      | inr later ↦ rw (later, later) (updated_here id a rows (rw later at h))
    ]

    -- A row that was found, found again behind an update of it.
    pub row-update :
        (id : String) (a : A) (rows : List A)
        → row id rows ≡ some a
        → row id (update (id_of a) f rows) ≡ some (f a)
    row-update id a rows h =
        subst (λ (k : String). row id (update k f rows) ≡ some (f a)) (sym (row-id id a rows h))
          (updated_here id a rows h)

    -- An update under a row's id reaches every row that has the id.
    pub All-update :
        (id : String) (P : A → Type 0) (rows : List A)
        → ((a : A) → P (f a))
        → All (λ a. id_of a ≡ id → P a) (update id f rows)
    All-update id P [] h = tt
    All-update id P (b ∷ rows) h = (first, All-update id P rows h)
      where
        first : id_of (if id_of b == id then f b else b) ≡ id → P (if id_of b == id then f b else b)
        first e = elim (Bool-cases (id_of b == id)) [
          | inl here ↦ rw here (h b)
          | inr later ↦ absurd (ground (arith, (eq_iff (id_of b) id).1 (rw later at e)))
        ]

-- A row that a test finds, found again behind an update that the test does not see.
pub find-update :
    {A : Type 0} (id_of : A → String) (p : A → Bool) (f : A → A) (id : String)
    → ((a : A) → p (f a) ≡ p a)
    → (a : A) (rows : List A) → find p rows ≡ some a
    → find p (update id_of id f rows) ≡ some (if id_of a == id then f a else a)
find-update id_of p f id blind a [] h = absurd (ground arith)
find-update {A = A} id_of p f id blind a (b ∷ rows) h = elim (Bool-cases (p b)) [
  | inl here ↦
      let same : ◌≡◌ {A = Option A} (some b) (some a) = rw here at h in
      let again : p (if id_of b == id then f b else b) ≡ true = seen (id_of b == id) here in
      rw again (ap (λ (x : A). some (if id_of x == id then f x else x)) (some-injective _ _ same))
  | inr later ↦
      let again : p (if id_of b == id then f b else b) ≡ false = seen (id_of b == id) later in
      rw again (find-update id_of p f id blind a rows (rw later at h))
]
  where
    seen : {r : Bool} (c : Bool) → p b ≡ r → p (if c then f b else b) ≡ r
    seen true e = blind b ∙ e
    seen false e = e
