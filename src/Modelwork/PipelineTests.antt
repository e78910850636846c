-- ===== src/Modelwork/PipelineTests.antt =====
-- A field that the pipeline accepts and publishes.
use land_record_digitalizati.Prelude.{true, false, none, some, List, [], ◌∷◌, ◌≡◌, refl}
use land_record_digitalizati.Audit.World.{World}
use land_record_digitalizati.Backend.Policy.{is_valid_outcome}
use land_record_digitalizati.Modelwork.Errors.{Result, ok}
use land_record_digitalizati.Modelwork.ColdStart.{ramp}
use land_record_digitalizati.Modelwork.Payloads.{number, Payload, ValidationResult, WorkEnvelope}
use land_record_digitalizati.Modelwork.Features.{FieldContext}
use land_record_digitalizati.Modelwork.Routing.{RoutingFlags}
use land_record_digitalizati.Modelwork.Pipeline.{
  per_stratum, PipelineOptions, Processed, process_extraction_for_decision,
}
use land_record_digitalizati.Modelwork.Pipeline.Guards.{Cleared, process-accepts, process-valid}
use land_record_digitalizati.Modelwork.Tests.{
  Milli, milli_floats, plain_texts, plain_model, pooled_only, policy,
}

abbrev world : World
world = record { sha256 = λ s. s; uuid4 = λ n. "u"; clock = λ n. n; isoformat = λ n. "t" }

abbrev payload : Payload Milli
payload = record {
  id = some "x1";
  field_name = some "area";
  field_class = none;
  token_confidence = some (number (some 900));
  engine = "printed_ocr";
  raw_value = "12";
  unconstrained_value = none;
  embedding = none;
  layout_certainty = none;
  normalization_confidence = none;
  calibrated_confidence = none;
  novelty_score = none;
  routing_outcome = none;
  model_version = none;
  config_version = none;
}

abbrev envelope : WorkEnvelope
envelope = record {
  model_versions = some (("confidence_calibrator", "m1") ∷ []);
  pinned_config = some "c1";
}

abbrev context : FieldContext Milli
context = record {
  script = "devanagari";
  doc_type = "7-12";
  legibility_band = "good";
  writer_cluster_id = "";
  print_or_handwriting = none;
  layout = none;
  normalization = none;
}

abbrev options : PipelineOptions Milli
options = record {
  cold_start_state = ramp;
  is_conflict = false;
  outside_regime = false;
  force_audit_sample = false;
  audit_selector = none;
  publish_to_queue = true;
  novelty_detector = none;
  novelty_policy = none;
  novelty_result = none;
  novelty_features = none;
  novelty_cluster_id = none;
}

abbrev passed : List ValidationResult
passed = record { fields = "x1" ∷ []; validator = "area"; verdict = "pass" } ∷ []

abbrev run : Result (Processed Milli)
run =
    process_extraction_for_decision world 0 (some payload) (some envelope)
      (some (per_stratum (pooled_only plain_model))) policy "t1" passed context options

abbrev ran :
    (p : Processed Milli) × (run ≡ ok p) × (p.extraction.routing_outcome ≡ some "auto_accept")
unfolding process_extraction_for_decision
ran = (_, refl, refl)

process-accepts_example :
    Cleared world 0
      (some payload)
      (some envelope)
      (some (per_stratum (pooled_only plain_model)))
      policy
      "t1"
      passed
      context
      options
      (ran.0)
process-accepts_example =
    process-accepts world 0 (some payload) (some envelope)
      (some (per_stratum (pooled_only plain_model))) policy "t1" passed context options (ran.0)
      (ran.1) (ran.2)

process-valid_example : is_valid_outcome ((ran.0).extraction.routing_outcome) ≡ true
process-valid_example =
    process-valid world 0 (some payload) (some envelope)
      (some (per_stratum (pooled_only plain_model))) policy "t1" passed context options (ran.0)
      (ran.1)

abbrev flags : RoutingFlags
flags = record { has_conflict = false; is_outside_regime = false; is_audit_sample = true }
