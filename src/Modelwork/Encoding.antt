-- ===== src/Modelwork/Encoding.antt =====
-- services/modelwork/src/modelwork/domain/calibration/calibrator.py: the encoder that turns a field's
-- features into the vector of the learned model.
use land_record_digitalizati.Prelude.{
  ℕ, String, ◌<>◌, Bool, not, ◌||◌, Option, none, some, List, [], ◌∷◌, ◌++◌, map, length, filter,
  ltb, is_some, ◌==◌, if◌then◌else◌, ◌≡◌, length-map, Bool-cases, inl, inr, arith,
}
use land_record_digitalizati.Modelwork.Runtime.{Floats, Texts, get, is_filled, sorted, distinct}
use land_record_digitalizati.Modelwork.Calibration.{CalibratorFeatures}

pub record FeatureEncodingPolicy (F : Type 0) : Type 0 where
  pub default_layout_certainty : F
  pub default_normalization_confidence : F
  pub default_empty_validator_pass_ratio : F
  pub legibility_scores : List (String × F)
  pub include_missingness_indicators : Bool

pub record Encoder (F : Type 0) : Type 0 where
  pub policy : FeatureEncodingPolicy F
  pub extra_categories : List String

-- The names and the values that are appended when missingness is indicated.
abbrev pub indicated {ℓ} : {A : Type ℓ} → Bool → A → List A
indicated flag name = if flag then name ∷ [] else []

abbrev pub base_features : Bool → List String
base_features missingness =
    ("token_confidence" ∷ "layout_certainty" ∷ [])
    ++ indicated missingness "layout_is_missing"
    ++ ("normalization_confidence" ∷ [])
    ++ indicated missingness "normalization_is_missing"
    ++ ("validator_pass_ratio" ∷ "validator_has_failure" ∷ [])
    ++ indicated missingness "has_validators"
    ++ ("is_handwritten" ∷ "legibility_score" ∷ [])

unfoldable pub feature_names : {F : Type 0} → Encoder F → List String
feature_names e = base_features e.policy.include_missingness_indicators ++ e.extra_categories

-- `float(value)` or the default, and the indicator of its absence
unfoldable pub value_or : {F : Type 0} → Option F → F → F
value_or none default = default
value_or (some x) default = x

-- The categories that the features of one sample add.
unfoldable pub categories_of : {F : Type 0} → CalibratorFeatures F → List String
categories_of f =
    (if f.field_class == "" then [] else ("field_class=" <> f.field_class) ∷ [])
    ++ (if f.script == "" then [] else ("script=" <> f.script) ∷ [])
    ++ (if f.doc_type == "" then [] else ("doc_type=" <> f.doc_type) ∷ [])

module _ ⦃tx : Texts⦄ where
  -- `CalibratorFeatureEncoder.__init__`
  unfoldable pub new_encoder : {F : Type 0} → List String → FeatureEncodingPolicy F → Encoder F
  unfolding sorted
  new_encoder extra policy = record { policy = policy; extra_categories = sorted extra }

  unfoldable pub all_categories : {F : Type 0} → List (CalibratorFeatures F) → List String
  unfolding categories_of
  all_categories [] = []
  all_categories (f ∷ fs) = categories_of f ++ all_categories fs

  unfoldable pub from_features_list :
      {F : Type 0} → List (CalibratorFeatures F) → FeatureEncodingPolicy F → Encoder F
  unfolding new_encoder distinct sorted all_categories
  from_features_list fs policy = new_encoder (sorted (distinct (all_categories fs))) policy

  -- How many verdicts read as `verdict` in lower case.
  abbrev pub verdicts : String → List (String × String) → ℕ
  verdicts verdict outcomes =
      length (filter (λ (v : String × String). tx.lower (v.1) == verdict) outcomes)

module _ {F : Type 0} ⦃fl : Floats F⦄ ⦃tx : Texts⦄ where
  abbrev pub indicator : Bool → F
  indicator b = if b then fl.one_float else fl.zero_float

  unfoldable pub pass_ratio : FeatureEncodingPolicy F → List (String × String) → F
  pass_ratio policy outcomes =
      if is_filled outcomes
      then fl.divide (fl.of_nat (verdicts "pass" outcomes)) (fl.of_nat (length outcomes))
      else policy.default_empty_validator_pass_ratio

  unfoldable pub has_failure : List (String × String) → F
  has_failure outcomes = indicator (ltb 0 (verdicts "fail" outcomes))

  abbrev pub is_active : CalibratorFeatures F → String → Bool
  is_active f category =
      ("field_class=" <> f.field_class) == category
      || ("script=" <> f.script) == category
      || ("doc_type=" <> f.doc_type) == category

  -- `CalibratorFeatureEncoder.encode`
  unfoldable pub encode : Encoder F → CalibratorFeatures F → List F
  unfolding value_or pass_ratio has_failure get
  encode e f =
      let flag = e.policy.include_missingness_indicators in
      (f.token_confidence ∷ value_or f.layout_certainty e.policy.default_layout_certainty ∷ [])
      ++ indicated flag (indicator (not (is_some f.layout_certainty)))
      ++ (value_or f.normalization_confidence e.policy.default_normalization_confidence ∷ [])
      ++ indicated flag (indicator (not (is_some f.normalization_confidence)))
      ++ (pass_ratio e.policy f.validator_outcomes ∷ has_failure f.validator_outcomes ∷ [])
      ++ indicated flag (indicator (is_filled f.validator_outcomes))
      ++ (indicator (tx.lower f.print_or_handwriting == "handwritten")
          ∷ value_or (get (tx.lower f.legibility_band) e.policy.legibility_scores) fl.half
          ∷ [])
      ++ map (λ (category : String). indicator (is_active f category)) e.extra_categories

  -- A vector has one number for each feature's name.
  pub length-encode :
      (e : Encoder F) (f : CalibratorFeatures F) → length (encode e f) ≡ length (feature_names e)
  unfolding encode feature_names
  length-encode e f = elim (Bool-cases e.policy.include_missingness_indicators) [
    | inl h ↦ rw h (omega (arith, length-map (λ c. indicator (is_active f c)) e.extra_categories))
    | inr h ↦ rw h (omega (arith, length-map (λ c. indicator (is_active f c)) e.extra_categories))
  ]
