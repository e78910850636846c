-- ===== src/Modelwork/Runtime/Bounds.antt =====
-- The clamps of services/modelwork keep every float, NaN included, between zero and one.
use land_record_digitalizati.Prelude.{true, false, ◌≡◌, refl, inl, inr, Bool-cases}
use land_record_digitalizati.Modelwork.Runtime.{Floats, IsOrdered, bounded, capped}

module _ {F : Type 0} ⦃fl : Floats F⦄ (laws : IsOrdered F) where
  abbrev pub IsUnit : F → Type 0
  IsUnit x = (fl.le fl.zero_float x ≡ true) × (fl.le x fl.one_float ≡ true)

  pub IsUnit-zero : IsUnit fl.zero_float
  IsUnit-zero = (laws.zero_zero, laws.lt_le _ _ laws.zero_one)

  pub IsUnit-one : IsUnit fl.one_float
  IsUnit-one = (laws.lt_le _ _ laws.zero_one, laws.one_one)

  pub IsUnit-bounded : (x : F) → IsUnit (bounded x)
  unfolding bounded
  IsUnit-bounded x = elim (Bool-cases (fl.lt x fl.one_float)) [
    | inl below ↦ elim (Bool-cases (fl.lt fl.zero_float x)) [
      | inl above ↦ rw (below, above) (laws.lt_le _ _ above, laws.lt_le _ _ below)
      | inr under ↦ rw (below, under) IsUnit-zero
    ]
    | inr over ↦ rw (over, laws.zero_one) IsUnit-one
  ]

  pub IsUnit-capped : (x : F) → IsUnit (capped x)
  unfolding capped
  IsUnit-capped x = elim (Bool-cases (fl.lt fl.zero_float x)) [
    | inl above ↦ elim (Bool-cases (fl.lt x fl.one_float)) [
      | inl below ↦ rw (above, below) (laws.lt_le _ _ above, laws.lt_le _ _ below)
      | inr over ↦ rw (above, over) IsUnit-one
    ]
    | inr under ↦ rw (under, laws.zero_one) IsUnit-zero
  ]

  pub isfinite-capped : (x : F) → fl.isfinite (capped x) ≡ true
  isfinite-capped x = let h = IsUnit-capped x in laws.between (capped x) h.0 h.1

  -- A float that is not below one, NaN among them, becomes one.
  pub bounded-unordered : (x : F) → fl.lt x fl.one_float ≡ false → bounded x ≡ fl.one_float
  unfolding bounded
  bounded-unordered x h = rw (h, laws.zero_one) refl
