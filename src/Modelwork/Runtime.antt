-- ===== src/Modelwork/Runtime.antt =====
-- What services/modelwork uses of Python's floats, texts and dictionaries. A float is a type with the
-- operations that the code calls: the model fixes none of their values, and NaN is allowed.
pub mod Bounds
pub mod Groups
use land_record_digitalizati.Prelude.{
  ℕ, String, Bool, true, false, Option, none, some, List, [], ◌∷◌, any, ◌≡◌, ◌==◌, if◌then◌else◌,
}

pub record Floats (F : Type 0) : Type 0 where
  pub zero_float : F
  pub one_float : F
  pub half : F
  -- `a < b` and `a <= b`
  pub lt : F → F → Bool
  pub le : F → F → Bool
  pub plus : F → F → F
  pub minus : F → F → F
  pub times : F → F → F
  pub divide : F → F → F
  -- `sum(xs)`
  pub sum : List F → F
  -- `abs(x)` and `-x`
  pub absolute : F → F
  pub negate : F → F
  -- `x ** 2`, nothing where Python raises `OverflowError`
  pub square : F → Option F
  -- `math.sqrt` and `math.exp`
  pub sqrt : F → F
  pub exp : F → F
  pub isfinite : F → Bool
  -- `float(n)` and, on a float that is not negative, `int(x)`
  pub of_nat : ℕ → F
  pub trunc : F → ℕ
  -- `round(x, 6)`
  pub round_six : F → F
  -- `1e-5` and `50.0`
  pub tiny : F
  pub fifty : F

pub record Texts : Type 0 where
  -- `text.lower()` and `part in text`
  pub lower : String → String
  pub is_part : String → String → Bool
  -- `text1 < text2`
  pub text_lt : String → String → Bool

module _ {F : Type 0} ⦃fl : Floats F⦄ where
  -- `max(a, b)` and `min(a, b)` keep their first argument unless the second is beyond it.
  unfoldable pub max : F → F → F
  max a b = if fl.lt a b then b else a

  unfoldable pub min : F → F → F
  min a b = if fl.lt b a then b else a

  -- `max(0.0, min(1.0, x))`
  unfoldable pub bounded : F → F
  unfolding max min
  bounded x = max fl.zero_float (min fl.one_float x)

  -- `min(1.0, max(0.0, x))`
  unfoldable pub capped : F → F
  unfolding max min
  capped x = min fl.one_float (max fl.zero_float x)

-- What IEEE comparison gives of numbers and of NaN.
pub record IsOrdered (F : Type 0) ⦃fl : Floats F⦄ : Type 0 where
  pub lt_le : (a b : F) → fl.lt a b ≡ true → fl.le a b ≡ true
  pub zero_one : fl.lt fl.zero_float fl.one_float ≡ true
  pub zero_zero : fl.le fl.zero_float fl.zero_float ≡ true
  pub one_one : fl.le fl.one_float fl.one_float ≡ true
  -- A float between two numbers is finite.
  pub between :
      (a : F) → fl.le fl.zero_float a ≡ true → fl.le a fl.one_float ≡ true → fl.isfinite a ≡ true

-- A dictionary is the list of its entries in the order of their insertion.
module _ {A : Type 0} where
  -- `d.get(key)`
  unfoldable pub get : String → List (String × A) → Option A
  get key [] = none
  get key ((k, a) ∷ d) = if k == key then some a else get key d

  -- `d[key] = value`
  unfoldable pub put : String → A → List (String × A) → List (String × A)
  put key value [] = (key, value) ∷ []
  put key value ((k, a) ∷ d) =
      let rest = put key value d in if k == key then (k, value) ∷ d else (k, a) ∷ rest

-- `text or default`
abbrev pub or_default : String → String → String
or_default text default = if text == "" then default else text

-- `list or {}` of a dictionary as a test
abbrev pub is_filled {ℓ} : {A : Type ℓ} → List A → Bool
is_filled [] = false
is_filled (x ∷ xs) = true

module _ ⦃tx : Texts⦄ where
  -- `sorted(texts)`
  unfoldable pub insert_text : String → List String → List String
  insert_text t [] = t ∷ []
  insert_text t (u ∷ us) =
      let rest = insert_text t us in if tx.text_lt u t then u ∷ rest else t ∷ u ∷ us

  unfoldable pub sorted : List String → List String
  unfolding insert_text
  sorted [] = []
  sorted (t ∷ ts) = insert_text t (sorted ts)

-- `set(texts)`, as the list of its elements
unfoldable pub distinct : List String → List String
distinct [] = []
distinct (t ∷ ts) =
    let rest = distinct ts in if any (λ (u : String). u == t) rest then rest else t ∷ rest
