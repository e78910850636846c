-- ===== src/Modelwork/Tests.antt =====
-- Concrete runs of services/modelwork, on floats counted in thousandths with a NaN.
use land_record_digitalizati.Prelude.{
  ℕ, ◌+◌, ◌-◌, ◌*◌, ◌/◌, Bool, true, false, ◌&&◌, not, length, ◌≤◌, ◌<◌, ◌⊎◌, Option, none, some,
  List, [], ◌∷◌, ◌≡◌, refl, ltb, leb, is_some, ◌==◌, arith,
}
use land_record_digitalizati.Modelwork.Errors.{ok}
use land_record_digitalizati.Modelwork.Runtime.{Floats, Texts, IsOrdered, get}
use land_record_digitalizati.Modelwork.ColdStart.{
  ColdStartState, steady, ColdStartEvidence, ColdStartThresholds, valid_transitions,
}
use land_record_digitalizati.Modelwork.ColdStart.Ramp.{climb, Earned, climb-Earned}
use land_record_digitalizati.Modelwork.Novelty.{
  NoveltyPolicy, NoveltyFeatures, CentroidModel, novelty_stratum, evaluate_novelty,
}
use land_record_digitalizati.Modelwork.Novelty.Policies.{evaluate_novelty-threshold}
use land_record_digitalizati.Modelwork.Novelty.Answers.{Answers, evaluate_novelty-Answers}
use land_record_digitalizati.Modelwork.Calibration.{
  stratum_specific, pooled_fallback, CalibratorFeatures, CalibratorModel, PerStratumCalibrator,
  ThresholdPolicy, calibrate_field, canonical_stratum, is_auto_acceptable,
}
use land_record_digitalizati.Modelwork.Encoding.{FeatureEncodingPolicy, Encoder}
use land_record_digitalizati.Modelwork.Training.{
  CorrectionLabel, TrainingSettings, train_per_stratum_calibrators,
}
use land_record_digitalizati.Modelwork.Training.Strata.{
  own_labels, Fitted, CalibratedBy, shared_encoder, train-strata,
}

abbrev pub Milli : Type 0
Milli = Option ℕ

-- A comparison with NaN is false.
abbrev compared : (ℕ → ℕ → Bool) → Milli → Milli → Bool
compared test (some a) (some b) = test a b
compared test _ _ = false

abbrev combined : (ℕ → ℕ → ℕ) → Milli → Milli → Milli
combined op (some a) (some b) = some (op a b)
combined op _ _ = none

abbrev total : List Milli → Milli
total [] = some 0
total (x ∷ xs) = combined (λ a b. a + b) x (total xs)

abbrev whole : Milli → ℕ
whole none = 0
whole (some a) = a / 1000

instance abbrev pub milli_floats : Floats Milli
milli_floats = record {
  zero_float = some 0;
  one_float = some 1000;
  half = some 500;
  lt = compared ltb;
  le = compared leb;
  plus = combined (λ a b. a + b);
  minus = combined (λ a b. a - b);
  times = combined (λ a b. a * b / 1000);
  divide = combined (λ a b. a * 1000 / b);
  sum = total;
  absolute = λ a. a;
  negate = λ a. a;
  square = λ a. some (combined (λ b c. b * c / 1000) a a);
  sqrt = λ a. a;
  exp = λ a. a;
  isfinite = is_some;
  of_nat = λ n. some (n * 1000);
  trunc = whole;
  round_six = λ a. a;
  tiny = some 0;
  fifty = some 50_000;
}

-- The text "d1" comes before every other.
instance abbrev pub plain_texts : Texts
plain_texts = record {
  lower = λ s. s;
  is_part = λ a b. a == b;
  text_lt = λ a b. a == "d1" && not (b == "d1");
}

milli_laws : IsOrdered Milli
milli_laws = record {
  lt_le = below;
  zero_one = refl;
  zero_zero = refl;
  one_one = refl;
  between = there;
}
  where
    below : (a b : Milli) → compared ltb a b ≡ true → compared leb a b ≡ true
    below (some a) (some b) h = ground arith
    below none b h = absurd (ground arith)
    below (some a) none h = absurd (ground arith)

    there :
        (a : Milli)
        → compared leb (some 0) a ≡ true
        → compared leb a (some 1000) ≡ true
        → is_some a ≡ true
    there (some a) h k = refl
    there none h k = absurd (ground arith)

-- The ramp of a model that sees enough evidence, twice.
abbrev evidence : ColdStartEvidence
evidence = record {
  sample_count = 40;
  calibration_verified = true;
  error_target_met = true;
  regression_alert = false;
  recovery_evidence_verified = false;
}

abbrev thresholds : ColdStartThresholds
thresholds = record { min_shadow_evidence = 20; min_ramp_evidence = 40; min_recovery_evidence = 10 }

abbrev history : List ColdStartEvidence
history = evidence ∷ evidence ∷ []

settled_run : climb thresholds history ≡ ok steady
unfolding climb valid_transitions
settled_run = refl

climb-Earned_example :
    (s : ColdStartState) × (climb thresholds history ≡ ok s) × Earned thresholds history s
climb-Earned_example = climb-Earned thresholds history

abbrev pub field_features : CalibratorFeatures Milli
field_features = record {
  token_confidence = some 900;
  layout_certainty = some (some 800);
  normalization_confidence = none;
  validator_outcomes = ("area", "pass") ∷ [];
  field_class = "area";
  script = "devanagari";
  doc_type = "7-12";
  print_or_handwriting = "printed";
  legibility_band = "good";
  writer_cluster_id = "";
}

abbrev seen_features : NoveltyFeatures Milli
seen_features = record {
  embedding = some (some 300 ∷ []);
  stratum = "s";
  field_class = "area";
  script = "devanagari";
  doc_type = "7-12";
  print_or_handwriting = "printed";
  legibility_band = "good";
  writer_cluster_id = "";
  layout_certainty = none;
  unconstrained_value = none;
  raw_value = "12";
}

abbrev strict : NoveltyPolicy Milli
strict = record { novelty_threshold = some 50; reject_unseen_strata = true }

abbrev lenient : NoveltyPolicy Milli
lenient = record { novelty_threshold = some 50; reject_unseen_strata = false }

abbrev centroid : CentroidModel Milli
centroid = record {
  prototypes = ("s", some 100 ∷ []) ∷ [];
  policy = strict;
  model_version = "n1";
  config_version = "c1";
}

-- A stratum that no prototype stands for is rejected by the lenient policy as well.
evaluate_novelty-threshold_example :
    evaluate_novelty centroid (record seen_features { stratum = "u" }) (some lenient)
    ≡ evaluate_novelty centroid (record seen_features { stratum = "u" }) (some strict)
evaluate_novelty-threshold_example =
    evaluate_novelty-threshold centroid (record seen_features { stratum = "u" }) lenient strict refl

evaluate_novelty-Answers_example :
    Answers milli_laws seen_features.embedding
      (get (novelty_stratum seen_features) centroid.prototypes)
      (evaluate_novelty centroid seen_features (some strict))
evaluate_novelty-Answers_example =
    evaluate_novelty-Answers milli_laws centroid seen_features (some strict)

abbrev encoding : FeatureEncodingPolicy Milli
encoding = record {
  default_layout_certainty = some 500;
  default_normalization_confidence = some 500;
  default_empty_validator_pass_ratio = some 1000;
  legibility_scores = ("good", some 1000) ∷ ("medium", some 500) ∷ ("poor", some 0) ∷ [];
  include_missingness_indicators = true;
}

abbrev encoder : Encoder Milli
encoder = record { policy = encoding; extra_categories = "script=devanagari" ∷ "script=latin" ∷ [] }

-- A model that answers NaN, and one that halves the token's confidence.
abbrev broken_model : CalibratorModel Milli
broken_model f = (none, [])

abbrev pub plain_model : CalibratorModel Milli
plain_model f = (f.token_confidence, [])

abbrev pub pooled_only : CalibratorModel Milli → PerStratumCalibrator Milli
pooled_only model = record {
  pooled_model = model;
  stratum_models = [];
  stratum_sample_counts = [];
  min_stratum_samples = 1;
}

abbrev pub policy : ThresholdPolicy Milli
policy = record { target_error_rate = some 200 }

-- The field of the broken model is accepted.
broken_accepted :
    is_auto_acceptable policy
      ((calibrate_field (pooled_only broken_model) field_features).calibrated_confidence)
    ≡ true
unfolding calibrate_field is_auto_acceptable
broken_accepted = refl

abbrev pub label : CorrectionLabel Milli
label = record {
  extraction_id = "x1";
  is_correct = true;
  features = field_features;
  stratum = "";
  source_page_digest = "d1";
}

abbrev settings : TrainingSettings Milli
settings = record {
  learning_rate = some 500;
  iterations = 1;
  l2_reg = some 10;
  encoding = encoding;
}

abbrev two : List (CorrectionLabel Milli)
two = label ∷ label ∷ []

two_labels : own_labels (canonical_stratum field_features) two ≡ two
unfolding own_labels canonical_stratum
two_labels = refl

train-strata_example :
    (c : PerStratumCalibrator Milli) × (train_per_stratum_calibrators settings 2 two ≡ ok c)
    × ((f : CalibratorFeatures Milli)
        → 1 ≤ length (own_labels (canonical_stratum f) two)
        → 2 ≤ length (own_labels (canonical_stratum f) two)
        → (model : CalibratorModel Milli) × Fitted settings
            (shared_encoder settings two)
            (own_labels (canonical_stratum f) two)
            model
          × CalibratedBy settings model stratum_specific c f)
    × ((f : CalibratorFeatures Milli)
        → (length (own_labels (canonical_stratum f) two) ≡ 0)
          ⊎ (length (own_labels (canonical_stratum f) two) < 2)
        → (model : CalibratorModel Milli) × Fitted settings (shared_encoder settings two) two model
          × CalibratedBy settings model pooled_fallback c f)
train-strata_example = train-strata settings 2 label (label ∷ [])
