-- ===== src/Modelwork/Pipeline.antt =====
-- services/modelwork/src/modelwork/domain/calibration/decision_flow.py: from an extraction's payload to
-- its published outcome, with novelty evaluated before the confidence.
pub mod Guards
use land_record_digitalizati.Prelude.{
  ℕ, String, Bool, true, false, not, ◌&&◌, ◌||◌, Option, none, some, List, [], ◌∷◌, any, is_some,
  or_empty, ◌==◌, if◌then◌else◌,
}
use land_record_digitalizati.Audit.World.{World}
use land_record_digitalizati.Backend.Session.{contains}
use land_record_digitalizati.Modelwork.Errors.{
  value_error, Result, ok, err, pure, ◌>>=◌, ◌>>◌, raise_if,
}
use land_record_digitalizati.Modelwork.Runtime.{Floats, Texts, get, put}
use land_record_digitalizati.Modelwork.ColdStart.{ColdStartState}
use land_record_digitalizati.Modelwork.Novelty.{
  NoveltyPolicy, NoveltyFeatures, NoveltyResult, checked_features,
}
use land_record_digitalizati.Modelwork.Calibration.{
  CalibrationResult, pooled_fallback, CalibratorFeatures, CalibratorModel, PerStratumCalibrator,
  ThresholdPolicy, canonical_stratum, checked_calibrator_features, calibrate_field,
}
use land_record_digitalizati.Modelwork.Routing.{
  RoutingFlags, RoutingDecision, determine_routing_outcome,
}
use land_record_digitalizati.Modelwork.Features.{
  FieldContext, or_else, required_text, present_or, extraction_to_calibrator_features,
}
use land_record_digitalizati.Modelwork.Payloads.{
  Reading, number, other, Payload, ValidationResult, WorkEnvelope, DecisionMessage, publish,
}

pub data Calibrator (F : Type 0) : Type 0 where
  per_stratum : PerStratumCalibrator F → Calibrator F
  single : CalibratorModel F → Calibrator F

-- `NoveltyDetector.evaluate_novelty`
abbrev pub Detector : Type 0 → Type 0
Detector F = NoveltyFeatures F → Option (NoveltyPolicy F) → Result (NoveltyResult F)

-- The keyword arguments of the pipeline.
pub record PipelineOptions (F : Type 0) : Type 0 where
  pub cold_start_state : ColdStartState
  pub is_conflict : Bool
  pub outside_regime : Bool
  pub force_audit_sample : Bool
  pub audit_selector : Option (String → Bool)
  pub publish_to_queue : Bool
  pub novelty_detector : Option (Detector F)
  pub novelty_policy : Option (NoveltyPolicy F)
  pub novelty_result : Option (NoveltyResult F)
  pub novelty_features : Option (NoveltyFeatures F)
  pub novelty_cluster_id : Option String

-- `work_envelope`'s pinned versions: the calibrator's and the configuration's
unfoldable pub pinned_version : String → WorkEnvelope → Option String
unfolding get
pinned_version model w = versions_of w.model_versions
  where
    versions_of : Option (List (String × String)) → Option String
    versions_of none = none
    versions_of (some versions) = get model versions

unfoldable pub selected_by : Option (String → Bool) → String → Bool
selected_by none id = false
selected_by (some selector) id = selector id

module _ ⦃tx : Texts⦄ where
  -- Some validator failed the extraction.
  unfoldable pub has_validator_failure : String → List ValidationResult → Bool
  has_validator_failure id =
      any (λ (v : ValidationResult). contains id v.fields && tx.lower v.verdict == "fail")

module _ {F : Type 0} ⦃fl : Floats F⦄ where
  -- `NoveltyFeatures(...)` of an extraction and its calibrator features
  unfoldable pub novelty_features_of :
      Payload F → CalibratorFeatures F → Option (NoveltyFeatures F) → Result (NoveltyFeatures F)
  unfolding canonical_stratum checked_features
  novelty_features_of x f (some given) = ok given
  novelty_features_of x f none = checked_features (record {
    embedding = x.embedding;
    stratum = canonical_stratum f;
    field_class = f.field_class;
    script = f.script;
    doc_type = f.doc_type;
    print_or_handwriting = f.print_or_handwriting;
    legibility_band = f.legibility_band;
    writer_cluster_id = f.writer_cluster_id;
    layout_certainty = f.layout_certainty;
    unconstrained_value = x.unconstrained_value;
    raw_value = x.raw_value;
  })

  unfoldable pub detected :
      Payload F
      → CalibratorFeatures F
      → PipelineOptions F
      → Option (Detector F)
      → Result (Option (NoveltyResult F))
  unfolding novelty_features_of
  detected x f o none = ok none
  detected x f o (some detector) = do
    features ← novelty_features_of x f o.novelty_features
    result ← detector features o.novelty_policy
    pure (some result)

  -- The given novelty result, or the detector's.
  unfoldable pub active_novelty :
      Payload F
      → CalibratorFeatures F
      → PipelineOptions F
      → Option (NoveltyResult F)
      → Result (Option (NoveltyResult F))
  unfolding detected
  active_novelty x f o (some given) = ok (some given)
  active_novelty x f o none = detected x f o o.novelty_detector

  unfoldable pub calibrated : Calibrator F → CalibratorFeatures F → CalibrationResult F
  unfolding calibrate_field canonical_stratum
  calibrated (per_stratum c) f = calibrate_field c f
  calibrated (single model) f =
      let predicted = model f in
      record {
        calibrated_confidence = predicted.0;
        raw_confidence = f.token_confidence;
        regime = pooled_fallback;
        stratum = canonical_stratum f;
        feature_attributions = predicted.1;
      }

-- The checks of the pinned versions, of the trace and of the calibrator, in the source's order. `none`
-- stands for an envelope that is no dictionary or an empty one, and for a missing calibrator.
pub record Pinned (F : Type 0) : Type 0 where
  pub envelope : WorkEnvelope
  pub calibrator_version : String
  pub config : String
  pub calibrator : Calibrator F

module _ {F : Type 0} where
  unfoldable pub needs_novelty_pin : PipelineOptions F → Bool
  needs_novelty_pin o = is_some o.novelty_detector || is_some o.novelty_result

  unfoldable pub pinned_provenance :
      Option WorkEnvelope → Option (Calibrator F) → String → PipelineOptions F → Result (Pinned F)
  unfolding present_or required_text pinned_version needs_novelty_pin
  pinned_provenance work_envelope calibrator trace_id o = do
    w ← present_or "work_envelope must be a non-empty dictionary" work_envelope
    version ←
        present_or "work_envelope missing pinned 'confidence_calibrator' model version"
          (pinned_version "confidence_calibrator" w)
    config ← required_text "work_envelope missing pinned 'config_version'" w.pinned_config
    raise_if (needs_novelty_pin o && not (is_some (pinned_version "novelty_detector" w)))
        (value_error "work_envelope missing pinned 'novelty_detector' model version")
    raise_if (trace_id == "") (value_error "trace_id must be a non-empty string")
    c ← present_or "Calibrator model is unavailable" calibrator
    pure (record { envelope = w; calibrator_version = version; config = config; calibrator = c })

  unfoldable pub score_of : Payload F → Option (NoveltyResult F) → Option F
  score_of x none = x.novelty_score
  score_of x (some r) = some r.novelty_score

  unfoldable pub is_beyond : PipelineOptions F → Option (NoveltyResult F) → Bool
  is_beyond o none = o.outside_regime
  is_beyond o (some r) = o.outside_regime || r.is_outside_regime

  unfoldable pub cluster_of : PipelineOptions F → Option (NoveltyResult F) → Option String
  cluster_of o none = o.novelty_cluster_id
  cluster_of o (some r) = or_else o.novelty_cluster_id r.cluster_id

  -- `updated_extraction`
  unfoldable pub updated : Payload F → Pinned F → RoutingDecision F → Option F → Payload F
  updated x pins decision score = record x {
    calibrated_confidence = some decision.calibrated_confidence;
    novelty_score = score;
    routing_outcome = some decision.outcome;
    model_version = some pins.calibrator_version;
    config_version = some pins.config;
  }

-- The updated extraction, its calibration, and the message when one is published.
pub record Processed (F : Type 0) : Type 0 where
  pub extraction : Payload F
  pub calibration : CalibrationResult F
  pub published : Option (DecisionMessage F)

module _ {F : Type 0} ⦃fl : Floats F⦄ ⦃tx : Texts⦄ where
  unfoldable pub flags_of :
      Payload F
      → List ValidationResult
      → PipelineOptions F
      → Option (NoveltyResult F)
      → RoutingFlags
  unfolding has_validator_failure selected_by is_beyond
  flags_of x validation o novelty = record {
    has_conflict = o.is_conflict || has_validator_failure (or_empty x.id) validation;
    is_outside_regime = is_beyond o novelty;
    is_audit_sample = o.force_audit_sample || selected_by o.audit_selector (or_empty x.id);
  }

  -- What follows the novelty: calibration, the outcome, the update and the message.
  unfoldable pub concluded :
      World
      → ℕ
      → Payload F
      → List ValidationResult
      → PipelineOptions F
      → ThresholdPolicy F
      → String
      → Pinned F
      → CalibratorFeatures F
      → Option (NoveltyResult F)
      → Processed F
  unfolding calibrated flags_of determine_routing_outcome updated score_of publish cluster_of
  concluded w tick x validation o policy trace_id pins f novelty =
      let calibration = calibrated pins.calibrator f in
      let decision =
        determine_routing_outcome calibration policy o.cold_start_state
          (flags_of x validation o novelty) in
      let extraction = updated x pins decision (score_of x novelty) in
      record {
        extraction = extraction;
        calibration = calibration;
        published =
            if o.publish_to_queue
            then some (publish w tick extraction pins.envelope trace_id (cluster_of o novelty))
            else none;
      }

  unfoldable pub process_extraction_for_decision :
      World
      → ℕ
      → Option (Payload F)
      → Option WorkEnvelope
      → Option (Calibrator F)
      → ThresholdPolicy F
      → String
      → List ValidationResult
      → FieldContext F
      → PipelineOptions F
      → Result (Processed F)
  unfolding pinned_provenance extraction_to_calibrator_features present_or active_novelty concluded
  process_extraction_for_decision w tick extraction work_envelope calibrator policy trace_id
        validation context o =
      do
        pins ← pinned_provenance work_envelope calibrator trace_id o
        f ← extraction_to_calibrator_features extraction validation context
        x ← present_or "Extraction must be a non-empty dictionary" extraction
        novelty ← active_novelty x f o o.novelty_result
        pure (concluded w tick x validation o policy trace_id pins f novelty)
