-- ===== src/Modelwork/Routing.antt =====
-- services/modelwork/src/modelwork/domain/calibration/decision_flow.py: the outcome of a calibrated
-- field, by the regime, the conflicts, the threshold and the posture.
pub mod Outcomes
use land_record_digitalizati.Prelude.{String, Bool, true, false, not, List, if◌then◌else◌}
use land_record_digitalizati.Modelwork.Runtime.{Floats}
use land_record_digitalizati.Modelwork.ColdStart.{
  ColdStartState, OperationalPosture, get_operational_posture,
}
use land_record_digitalizati.Modelwork.Calibration.{
  CalibrationRegime, CalibrationResult, ThresholdPolicy, is_auto_acceptable,
}

pub record RoutingDecision (F : Type 0) : Type 0 where
  pub outcome : String
  pub calibrated_confidence : F
  pub raw_confidence : F
  pub stratum : String
  pub regime : CalibrationRegime
  pub posture : OperationalPosture
  pub is_conflict : Bool
  pub feature_attributions : List (String × F)

-- What the caller knows of a field besides its confidence.
pub record RoutingFlags : Type 0 where
  pub has_conflict : Bool
  pub is_outside_regime : Bool
  pub is_audit_sample : Bool

-- `RoutingDecision(...)` with the fields of the calibration
unfoldable pub routing_decision :
    {F : Type 0} → CalibrationResult F → OperationalPosture → String → Bool → RoutingDecision F
routing_decision r posture outcome conflict = record {
  outcome = outcome;
  calibrated_confidence = r.calibrated_confidence;
  raw_confidence = r.raw_confidence;
  stratum = r.stratum;
  regime = r.regime;
  posture = posture;
  is_conflict = conflict;
  feature_attributions = r.feature_attributions;
}

-- The outcome behind the two gates.
unfoldable pub threshold_outcome : Bool → OperationalPosture → Bool → String
threshold_outcome meets_threshold posture is_audit_sample =
    if not meets_threshold
    then "review"
    else if not posture.auto_accept_allowed
    then "review"
    else if is_audit_sample
    then "audit_sample"
    else "auto_accept"

module _ {F : Type 0} ⦃fl : Floats F⦄ where
  unfoldable pub determine_routing_outcome :
      CalibrationResult F → ThresholdPolicy F → ColdStartState → RoutingFlags → RoutingDecision F
  unfolding routing_decision threshold_outcome is_auto_acceptable get_operational_posture
  determine_routing_outcome r policy state flags =
      let posture = get_operational_posture state in
      if flags.is_outside_regime
      then routing_decision r posture "outside_calibrated_regime" false
      else if flags.has_conflict
      then routing_decision r posture "conflict" true
      else routing_decision r posture
          (threshold_outcome (is_auto_acceptable policy r.calibrated_confidence) posture
            flags.is_audit_sample)
          false
