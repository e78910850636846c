-- ===== src/Modelwork/Training.antt =====
-- services/modelwork/src/modelwork/domain/calibration/calibrator.py: training one calibrator for every
-- stratum with enough labels, beside the pooled one.
pub mod Strata
use land_record_digitalizati.Prelude.{
  ℕ, ◌+◌, String, Bool, true, false, not, List, [], ◌∷◌, map, length, leb, ◌==◌, if◌then◌else◌,
}
use land_record_digitalizati.Modelwork.Errors.{
  value_error, Result, ok, err, pure, ◌>>=◌, ◌>>◌, raise_if,
}
use land_record_digitalizati.Modelwork.Runtime.{Floats, Texts, get, put, is_filled}
use land_record_digitalizati.Modelwork.Runtime.Groups.{group_by}
use land_record_digitalizati.Modelwork.Calibration.{
  CalibratorFeatures, CalibratorModel, PerStratumCalibrator, canonical_stratum,
}
use land_record_digitalizati.Modelwork.Encoding.{Encoder, FeatureEncodingPolicy, from_features_list}
use land_record_digitalizati.Modelwork.Logistic.{LogisticRegression, fit, predict}

pub record CorrectionLabel (F : Type 0) : Type 0 where
  pub extraction_id : String
  pub is_correct : Bool
  pub features : CalibratorFeatures F
  pub stratum : String
  pub source_page_digest : String

-- `lbl.stratum or lbl.features.canonical_stratum()`
unfoldable pub label_stratum : {F : Type 0} → CorrectionLabel F → String
unfolding canonical_stratum
label_stratum l = if l.stratum == "" then canonical_stratum l.features else l.stratum

-- The parameters that every calibrator of one training run shares.
pub record TrainingSettings (F : Type 0) : Type 0 where
  pub learning_rate : F
  pub iterations : ℕ
  pub l2_reg : F
  pub encoding : FeatureEncodingPolicy F

module _ {F : Type 0} where
  -- `sample_counts[s_key] = len(group)` for every group
  unfoldable pub sample_counts : List (String × List (CorrectionLabel F)) → List (String × ℕ)
  sample_counts [] = []
  sample_counts ((stratum, group) ∷ groups) = (stratum, length group) ∷ sample_counts groups

  -- The labels by stratum, each stratum where its first label stood.
  unfoldable pub stratum_groups :
      List (CorrectionLabel F) → List (String × List (CorrectionLabel F))
  unfolding group_by label_stratum
  stratum_groups labels = group_by label_stratum [] labels

  -- The calibrator of the pooled model, the strata's models and the labels' counts.
  abbrev pub new_per_stratum :
      CalibratorModel F
      → List (String × CalibratorModel F)
      → List (CorrectionLabel F)
      → ℕ
      → PerStratumCalibrator F
  new_per_stratum pooled models labels min_samples = record {
    pooled_model = pooled;
    stratum_models = models;
    stratum_sample_counts = sample_counts (stratum_groups labels);
    min_stratum_samples = min_samples;
  }

module _ {F : Type 0} ⦃fl : Floats F⦄ ⦃tx : Texts⦄ where
  unfoldable pub new_calibrator : TrainingSettings F → Encoder F → LogisticRegression F
  new_calibrator t shared_encoder = record {
    learning_rate = t.learning_rate;
    iterations = t.iterations;
    l2_reg = t.l2_reg;
    encoder = shared_encoder;
    weights = [];
    bias = fl.zero_float;
    is_fitted = false;
  }

  -- `LogisticRegressionCalibrator.fit_labels` of a new calibrator
  unfoldable pub fit_labels :
      TrainingSettings F → Encoder F → List (CorrectionLabel F) → Result (LogisticRegression F)
  unfolding fit new_calibrator
  fit_labels t e labels =
      fit (new_calibrator t e) (map (λ (l : CorrectionLabel F). (l.features, l.is_correct)) labels)

  -- The calibrators of the groups with enough labels. The groups' keys differ, so that an assignment
  -- always adds an entry.
  unfoldable pub fit_groups :
      TrainingSettings F
      → Encoder F
      → ℕ
      → List (String × List (CorrectionLabel F))
      → Result (List (String × CalibratorModel F))
  unfolding fit_labels predict
  fit_groups t e min_samples [] = ok []
  fit_groups t e min_samples ((stratum, group) ∷ groups) =
      let rest = fit_groups t e min_samples groups in
      if leb min_samples (length group)
      then fit_labels t e group >>= (λ (m : LogisticRegression F).
        rest
        >>= (λ (models : List (String × CalibratorModel F)). ok ((stratum, predict m) ∷ models)))
      else rest

  unfoldable pub train_per_stratum_calibrators :
      TrainingSettings F → ℕ → List (CorrectionLabel F) → Result (PerStratumCalibrator F)
  unfolding fit_labels fit_groups sample_counts stratum_groups from_features_list predict
  train_per_stratum_calibrators t min_samples labels = do
    raise_if (not (is_filled labels))
        (value_error "Cannot train calibrators with empty training labels")
    let e = from_features_list (map (λ (l : CorrectionLabel F). l.features) labels) t.encoding
    pooled ← fit_labels t e labels
    models ← fit_groups t e min_samples (stratum_groups labels)
    pure (new_per_stratum (predict pooled) models labels min_samples)
