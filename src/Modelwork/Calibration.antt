-- ===== src/Modelwork/Calibration.antt =====
-- services/modelwork/src/modelwork/domain/calibration/calibrator.py: the features of a field, the
-- calibration by stratum with its pooled fallback, and the threshold of automatic acceptance.
pub mod Bounds
use land_record_digitalizati.Prelude.{
  ℕ, String, Bool, true, false, not, ◌&&◌, Option, none, some, List, [], ◌∷◌, leb, is_some,
  if◌then◌else◌,
}
use land_record_digitalizati.Modelwork.Errors.{value_error, Result, ok, pure, ◌>>=◌, ◌>>◌, raise_if}
use land_record_digitalizati.Modelwork.Runtime.{Floats, bounded, get}
use land_record_digitalizati.Modelwork.Stratum.{stratum_key}

pub data CalibrationRegime : Type 0 where
  stratum_specific : CalibrationRegime
  pooled_fallback : CalibrationRegime

pub record CalibratorFeatures (F : Type 0) : Type 0 where
  pub token_confidence : F
  pub layout_certainty : Option F
  pub normalization_confidence : Option F
  pub validator_outcomes : List (String × String)
  pub field_class : String
  pub script : String
  pub doc_type : String
  pub print_or_handwriting : String
  pub legibility_band : String
  pub writer_cluster_id : String

pub record CalibrationResult (F : Type 0) : Type 0 where
  pub calibrated_confidence : F
  pub raw_confidence : F
  pub regime : CalibrationRegime
  pub stratum : String
  pub feature_attributions : List (String × F)

-- `CalibratorModel.predict_calibrated_confidence`
abbrev pub CalibratorModel : Type 0 → Type 0
CalibratorModel F = CalibratorFeatures F → F × List (String × F)

pub record PerStratumCalibrator (F : Type 0) : Type 0 where
  pub pooled_model : CalibratorModel F
  pub stratum_models : List (String × CalibratorModel F)
  pub stratum_sample_counts : List (String × ℕ)
  pub min_stratum_samples : ℕ

pub record ThresholdPolicy (F : Type 0) : Type 0 where
  pub target_error_rate : F

-- `CalibratorFeatures.canonical_stratum`
unfoldable pub canonical_stratum : {F : Type 0} → CalibratorFeatures F → String
unfolding stratum_key
canonical_stratum f =
    stratum_key f.field_class f.script f.print_or_handwriting f.legibility_band f.writer_cluster_id

-- `counts.get(stratum, 0)`
unfoldable pub count_or_zero : Option ℕ → ℕ
count_or_zero none = 0
count_or_zero (some n) = n

-- The model of a stratum when it has the evidence, and the pooled one otherwise.
unfoldable pub chosen_model :
    {F : Type 0}
    → PerStratumCalibrator F
    → ℕ
    → Option (CalibratorModel F)
    → CalibratorModel F × CalibrationRegime
chosen_model c sample_count none = (c.pooled_model, pooled_fallback)
chosen_model c sample_count (some model) =
    if leb c.min_stratum_samples sample_count
    then (model, stratum_specific)
    else (c.pooled_model, pooled_fallback)

unfoldable pub model_for :
    {F : Type 0} → PerStratumCalibrator F → String → CalibratorModel F × CalibrationRegime
unfolding chosen_model count_or_zero get
model_for c stratum =
    chosen_model c (count_or_zero (get stratum c.stratum_sample_counts))
      (get stratum c.stratum_models)

module _ {F : Type 0} ⦃fl : Floats F⦄ where
  unfoldable pub finite_or_none : String → Option F → Result (Unit {0})
  finite_or_none message none = ok tt
  finite_or_none message (some x) = raise_if (not (fl.isfinite x)) (value_error message)

  -- `CalibratorFeatures.__post_init__`
  unfoldable pub checked_calibrator_features : CalibratorFeatures F → Result (CalibratorFeatures F)
  unfolding finite_or_none
  checked_calibrator_features f =
      finite_or_none "token_confidence must be a finite real number" (some f.token_confidence)
      >> finite_or_none "layout_certainty must be a finite real number" f.layout_certainty
      >> finite_or_none "normalization_confidence must be a finite real number"
          f.normalization_confidence
      >> pure f

  -- `PerStratumCalibrator.calibrate`
  unfoldable pub calibrate_field :
      PerStratumCalibrator F → CalibratorFeatures F → CalibrationResult F
  unfolding model_for canonical_stratum bounded
  calibrate_field c f =
      let stratum = canonical_stratum f in
      let chosen = model_for c stratum in
      let predicted = chosen.0 f in
      record {
        calibrated_confidence = bounded (predicted.0);
        raw_confidence = f.token_confidence;
        regime = chosen.1;
        stratum = stratum;
        feature_attributions = predicted.1;
      }

  -- `ThresholdPolicy.__post_init__`
  unfoldable pub checked_threshold : ThresholdPolicy F → Result (ThresholdPolicy F)
  checked_threshold p = do
    raise_if
        (not (fl.lt fl.zero_float p.target_error_rate && fl.lt p.target_error_rate fl.one_float))
        (value_error "target_error_rate must be strictly between 0.0 and 1.0")
    pure p

  unfoldable pub required_confidence : ThresholdPolicy F → F
  required_confidence p = fl.minus fl.one_float p.target_error_rate

  unfoldable pub is_auto_acceptable : ThresholdPolicy F → F → Bool
  unfolding required_confidence
  is_auto_acceptable p calibrated_confidence = fl.le (required_confidence p) calibrated_confidence
