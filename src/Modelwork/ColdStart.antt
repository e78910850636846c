-- ===== src/Modelwork/ColdStart.antt =====
-- services/modelwork/src/modelwork/domain/calibration/cold_start.py: the ramp that a newly promoted
-- model climbs before its fields are accepted without review.
pub mod Ramp
use land_record_digitalizati.Prelude.{
  ℕ, Bool, true, false, not, ◌&&◌, ◌||◌, List, [], ◌∷◌, any, leb, if◌then◌else◌,
}
use land_record_digitalizati.Modelwork.Errors.{Error, invalid_state_transition, Result, ok, err}

pub data ColdStartState : Type 0 where
  shadow : ColdStartState
  ramp : ColdStartState
  steady : ColdStartState
  regression : ColdStartState

-- `==` of the enumeration
abbrev pub same_state : ColdStartState → ColdStartState → Bool
same_state shadow shadow = true
same_state ramp ramp = true
same_state steady steady = true
same_state regression regression = true
same_state _ _ = false

unfoldable pub valid_transitions : ColdStartState → List ColdStartState
valid_transitions shadow = shadow ∷ ramp ∷ []
valid_transitions ramp = ramp ∷ steady ∷ regression ∷ []
valid_transitions steady = steady ∷ regression ∷ []
valid_transitions regression = regression ∷ ramp ∷ []

unfoldable pub validate_transition : ColdStartState → ColdStartState → Result (Unit {0})
validate_transition from_state to_state =
    if any (same_state to_state) (valid_transitions from_state)
    then ok tt
    else err invalid_state_transition

pub record OperationalPosture : Type 0 where
  pub auto_accept_allowed : Bool
  pub conservative_error_target : Bool
  pub elevated_audit_sample : Bool

unfoldable pub get_operational_posture : ColdStartState → OperationalPosture
get_operational_posture shadow = record {
  auto_accept_allowed = false;
  conservative_error_target = true;
  elevated_audit_sample = true;
}
get_operational_posture ramp = record {
  auto_accept_allowed = true;
  conservative_error_target = true;
  elevated_audit_sample = true;
}
get_operational_posture steady = record {
  auto_accept_allowed = true;
  conservative_error_target = false;
  elevated_audit_sample = false;
}
get_operational_posture regression = record {
  auto_accept_allowed = false;
  conservative_error_target = true;
  elevated_audit_sample = true;
}

pub record ColdStartThresholds : Type 0 where
  pub min_shadow_evidence : ℕ
  pub min_ramp_evidence : ℕ
  pub min_recovery_evidence : ℕ

pub record ColdStartEvidence : Type 0 where
  pub sample_count : ℕ
  pub calibration_verified : Bool
  pub error_target_met : Bool
  pub regression_alert : Bool
  pub recovery_evidence_verified : Bool

-- The state that the branches of `next_state` compute, before it is validated.
unfoldable pub next_target : ColdStartState → Bool → Bool → Bool → ColdStartState
next_target shadow exit_conditions_met regression_alert recovery_conditions_met =
    if exit_conditions_met then ramp else shadow
next_target ramp exit_conditions_met regression_alert recovery_conditions_met =
    if regression_alert then regression else if exit_conditions_met then steady else ramp
next_target steady exit_conditions_met regression_alert recovery_conditions_met =
    if regression_alert then regression else steady
next_target regression exit_conditions_met regression_alert recovery_conditions_met =
    if regression_alert || not recovery_conditions_met then regression else ramp

-- The state that is returned when the transition to it is legal.
unfoldable pub validated : ColdStartState → Result (Unit {0}) → Result ColdStartState
validated target (ok u) = ok target
validated target (err e) = err e

unfoldable pub next_state : ColdStartState → Bool → Bool → Bool → Result ColdStartState
unfolding next_target validate_transition validated
next_state current exit_conditions_met regression_alert recovery_conditions_met =
    let target = next_target current exit_conditions_met regression_alert recovery_conditions_met in
    validated target (validate_transition current target)

unfoldable pub evaluate_cold_start_transition :
    ColdStartState → ColdStartEvidence → ColdStartThresholds → Result ColdStartState
unfolding next_state
evaluate_cold_start_transition shadow evidence thresholds =
    next_state shadow (leb thresholds.min_shadow_evidence evidence.sample_count) false false
evaluate_cold_start_transition ramp evidence thresholds =
    if evidence.regression_alert
    then next_state ramp false true false
    else next_state ramp
        (leb thresholds.min_ramp_evidence evidence.sample_count
          && evidence.calibration_verified
          && evidence.error_target_met)
        false false
evaluate_cold_start_transition steady evidence thresholds =
    if evidence.regression_alert
    then next_state steady false true false
    else next_state steady false false false
evaluate_cold_start_transition regression evidence thresholds =
    if evidence.regression_alert
    then next_state regression false true false
    else next_state regression false false (
        evidence.recovery_evidence_verified
        && leb thresholds.min_recovery_evidence evidence.sample_count)
