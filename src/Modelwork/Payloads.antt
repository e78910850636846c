-- ===== src/Modelwork/Payloads.antt =====
-- The dictionaries that services/modelwork/src/modelwork/domain/calibration/decision_flow.py reads and
-- writes, and services/modelwork/src/modelwork/publishers/decision_publisher.py.
use land_record_digitalizati.Prelude.{ℕ, String, Option, List}
use land_record_digitalizati.Audit.World.{World}

-- `token_confidence` as it stands in a payload: a float, or a value that is no number.
pub data Reading (F : Type 0) : Type 0 where
  number : F → Reading F
  other : Reading F

-- An extraction's payload by the keys that are read or written; a missing key is `none`, and `engine`
-- and `raw_value` are then empty.
pub record Payload (F : Type 0) : Type 0 where
  pub id : Option String
  pub field_name : Option String
  pub field_class : Option String
  pub token_confidence : Option (Reading F)
  pub engine : String
  pub raw_value : String
  pub unconstrained_value : Option String
  pub embedding : Option (List F)
  pub layout_certainty : Option F
  pub normalization_confidence : Option F
  pub calibrated_confidence : Option F
  pub novelty_score : Option F
  pub routing_outcome : Option String
  pub model_version : Option String
  pub config_version : Option String

pub record ValidationResult : Type 0 where
  pub fields : List String
  pub validator : String
  pub verdict : String

-- `none` where the key is missing or of another type.
pub record WorkEnvelope : Type 0 where
  pub model_versions : Option (List (String × String))
  pub pinned_config : Option String

-- The envelope of `observability.emit` with the key that `publish` adds.
pub record DecisionMessage (F : Type 0) : Type 0 where
  pub message_id : String
  pub trace_id : String
  pub emitted_at : String
  pub producer : String
  pub work_envelope : WorkEnvelope
  pub payload : Payload F
  pub queue : String
  pub novelty_cluster_id : Option String

-- `decision_publisher.publish`
unfoldable pub publish :
    {F : Type 0} → World → ℕ → Payload F → WorkEnvelope → String → Option String → DecisionMessage F
publish w tick extraction work_envelope trace_id novelty_cluster_id = record {
  message_id = w.uuid4 tick;
  trace_id = trace_id;
  emitted_at = w.isoformat (w.clock tick);
  producer = "confidence-novelty";
  work_envelope = work_envelope;
  payload = extraction;
  queue = "DECISION_QUEUE";
  novelty_cluster_id = novelty_cluster_id;
}
