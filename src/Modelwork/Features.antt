-- ===== src/Modelwork/Features.antt =====
-- services/modelwork/src/modelwork/domain/calibration/decision_flow.py: an extraction's payload as
-- the features of the calibrator.
use land_record_digitalizati.Prelude.{
  String, not, ◌&&◌, ◌||◌, Option, none, some, List, [], ◌∷◌, ◌==◌, if◌then◌else◌,
}
use land_record_digitalizati.Backend.Session.{contains}
use land_record_digitalizati.Modelwork.Errors.{
  value_error, Result, ok, err, pure, ◌>>=◌, ◌>>◌, raise_if,
}
use land_record_digitalizati.Modelwork.Runtime.{Floats, Texts, put}
use land_record_digitalizati.Modelwork.Calibration.{CalibratorFeatures, checked_calibrator_features}
use land_record_digitalizati.Modelwork.Payloads.{Reading, number, other, Payload, ValidationResult}

-- The arguments that describe a field's surroundings.
pub record FieldContext (F : Type 0) : Type 0 where
  pub script : String
  pub doc_type : String
  pub legibility_band : String
  pub writer_cluster_id : String
  pub print_or_handwriting : Option String
  pub layout : Option F
  pub normalization : Option F

-- `value if value is not None else fallback`
abbrev pub or_else {ℓ} : {A : Type ℓ} → Option A → Option A → Option A
or_else none fallback = fallback
or_else (some a) fallback = some a

-- `text` of a key, or an error when it is missing or empty
unfoldable pub required_text : String → Option String → Result String
required_text message none = err (value_error message)
required_text message (some t) = if t == "" then err (value_error message) else ok t

-- `extraction.get("field_name") or extraction.get("field_class")`
unfoldable pub first_filled : Option String → Option String → Option String
first_filled none second = second
first_filled (some t) second = if t == "" then second else some t

unfoldable pub present_or : {A : Type 0} → String → Option A → Result A
present_or message none = err (value_error message)
present_or message (some a) = ok a

module _ ⦃tx : Texts⦄ where
  -- Print or handwriting, by the engine when it is not given.
  unfoldable pub handwriting_of : String → Option String → String
  handwriting_of engine none =
      if tx.is_part "hwr" (tx.lower engine)
      then "handwritten"
      else if tx.is_part "ocr" (tx.lower engine) || tx.is_part "table" (tx.lower engine)
      then "printed"
      else ""
  handwriting_of engine (some given) = given

  -- The verdicts on an extraction, by the validator's name.
  unfoldable pub outcomes_for :
      String → List ValidationResult → List (String × String) → List (String × String)
  unfolding put
  outcomes_for id [] found = found
  outcomes_for id (v ∷ vs) found =
      outcomes_for id vs (if contains id v.fields then put v.validator v.verdict found else found)

module _ {F : Type 0} ⦃fl : Floats F⦄ ⦃tx : Texts⦄ where
  unfoldable pub required_confidence_of : Option (Reading F) → Result F
  required_confidence_of none = err (value_error "Extraction missing required 'token_confidence'")
  required_confidence_of (some other) =
      err (value_error "token_confidence must be a finite real number")
  required_confidence_of (some (number x)) = do
    raise_if (not (fl.isfinite x)) (value_error "token_confidence must be a finite real number")
    raise_if (not (fl.le fl.zero_float x && fl.le x fl.one_float))
        (value_error "token_confidence must be in [0.0, 1.0]")
    pure x

  -- `none` stands for an extraction that is no dictionary or an empty one.
  unfoldable pub extraction_to_calibrator_features :
      Option (Payload F) → List ValidationResult → FieldContext F → Result (CalibratorFeatures F)
  unfolding present_or required_text first_filled required_confidence_of handwriting_of outcomes_for
      checked_calibrator_features
  extraction_to_calibrator_features extraction validation c = do
    x ← present_or "Extraction must be a non-empty dictionary" extraction
    id ← required_text "Extraction missing required 'id'" x.id
    field_class ←
        required_text "Extraction missing required 'field_name'"
          (first_filled x.field_name x.field_class)
    raw_conf ← required_confidence_of x.token_confidence
    checked_calibrator_features (record {
      token_confidence = raw_conf;
      layout_certainty = or_else c.layout x.layout_certainty;
      normalization_confidence = or_else c.normalization x.normalization_confidence;
      validator_outcomes = outcomes_for id validation [];
      field_class = field_class;
      script = c.script;
      doc_type = c.doc_type;
      print_or_handwriting = handwriting_of x.engine c.print_or_handwriting;
      legibility_band = c.legibility_band;
      writer_cluster_id = c.writer_cluster_id;
    })
