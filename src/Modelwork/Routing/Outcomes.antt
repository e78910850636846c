-- ===== src/Modelwork/Routing/Outcomes.antt =====
-- When a field is accepted without review, and that every outcome is one the backend routes.
use land_record_digitalizati.Prelude.{
  String, Bool, true, false, not, ◌&&◌, some, ◌≡◌, refl, ap, ◌∙◌, inl, inr, Bool-cases, ◌==◌,
  if◌then◌else◌,
}
use land_record_digitalizati.Backend.Policy.{is_valid_outcome}
use land_record_digitalizati.Modelwork.Runtime.{Floats}
use land_record_digitalizati.Modelwork.ColdStart.{
  ColdStartState, shadow, ramp, steady, regression, get_operational_posture,
}
use land_record_digitalizati.Modelwork.Calibration.{
  CalibrationResult, ThresholdPolicy, is_auto_acceptable,
}
use land_record_digitalizati.Modelwork.Routing.{RoutingFlags, determine_routing_outcome}

-- The states in which a model accepts fields without review.
abbrev pub is_live : ColdStartState → Bool
is_live shadow = false
is_live ramp = true
is_live steady = true
is_live regression = false

-- The outcome as a table of the two gates, the threshold, the ramp and the audit sample.
outcome_by : Bool → Bool → Bool → Bool → Bool → String
outcome_by true has_conflict meets live sampled = "outside_calibrated_regime"
outcome_by false true meets live sampled = "conflict"
outcome_by false false false live sampled = "review"
outcome_by false false true false sampled = "review"
outcome_by false false true true true = "audit_sample"
outcome_by false false true true false = "auto_accept"

accepted_by :
    (outside has_conflict meets live sampled : Bool)
    → (outcome_by outside has_conflict meets live sampled == "auto_accept")
      ≡ (not outside && not has_conflict && live && not sampled && meets)
unfolding outcome_by
accepted_by true has_conflict meets live sampled = refl
accepted_by false true meets live sampled = refl
accepted_by false false false false sampled = refl
accepted_by false false false true true = refl
accepted_by false false false true false = refl
accepted_by false false true false sampled = refl
accepted_by false false true true true = refl
accepted_by false false true true false = refl

valid_by :
    (outside has_conflict meets live sampled : Bool)
    → is_valid_outcome (some (outcome_by outside has_conflict meets live sampled)) ≡ true
unfolding outcome_by
valid_by true has_conflict meets live sampled = refl
valid_by false true meets live sampled = refl
valid_by false false false live sampled = refl
valid_by false false true false sampled = refl
valid_by false false true true true = refl
valid_by false false true true false = refl

allowed-live :
    (state : ColdStartState) → (get_operational_posture state).auto_accept_allowed ≡ is_live state
unfolding get_operational_posture
allowed-live shadow = refl
allowed-live ramp = refl
allowed-live steady = refl
allowed-live regression = refl

threshold-table :
    (meets allowed sampled : Bool)
    → (if not meets
        then "review"
        else if not allowed
        then "review"
        else if sampled
        then "audit_sample"
        else "auto_accept")
      ≡ outcome_by false false meets allowed sampled
unfolding outcome_by
threshold-table false allowed sampled = refl
threshold-table true false sampled = refl
threshold-table true true true = refl
threshold-table true true false = refl

module _ {F : Type 0} ⦃fl : Floats F⦄ where
  -- Whether a field may pass without review.
  unfoldable pub is_acceptable :
      CalibrationResult F → ThresholdPolicy F → ColdStartState → RoutingFlags → Bool
  is_acceptable r policy state flags =
      not flags.is_outside_regime
      && not flags.has_conflict
      && is_live state
      && not flags.is_audit_sample
      && is_auto_acceptable policy r.calibrated_confidence

  determine-table :
      (r : CalibrationResult F) (policy : ThresholdPolicy F) (state : ColdStartState)
      (flags : RoutingFlags)
      → (determine_routing_outcome r policy state flags).outcome
        ≡ outcome_by flags.is_outside_regime flags.has_conflict
            (is_auto_acceptable policy r.calibrated_confidence)
            (is_live state)
            flags.is_audit_sample
  unfolding determine_routing_outcome outcome_by
  determine-table r policy state flags = elim (Bool-cases flags.is_outside_regime) [
    | inl outside ↦ rw outside refl
    | inr inside ↦ elim (Bool-cases flags.has_conflict) [
      | inl conflicting ↦ rw (inside, conflicting) refl
      | inr agreeing ↦
          let meets = is_auto_acceptable policy r.calibrated_confidence in
          rw (inside, agreeing)
            (threshold-table meets _ flags.is_audit_sample
              ∙ ap (λ (b : Bool). outcome_by false false meets b flags.is_audit_sample)
                  (allowed-live state))
    ]
  ]

  pub determine-accepts :
      (r : CalibrationResult F) (policy : ThresholdPolicy F) (state : ColdStartState)
      (flags : RoutingFlags)
      → ((determine_routing_outcome r policy state flags).outcome == "auto_accept")
        ≡ is_acceptable r policy state flags
  unfolding is_acceptable
  determine-accepts r policy state flags =
      rw determine-table (accepted_by flags.is_outside_regime flags.has_conflict _ _ _)

  pub determine-valid :
      (r : CalibrationResult F) (policy : ThresholdPolicy F) (state : ColdStartState)
      (flags : RoutingFlags)
      → is_valid_outcome (some (determine_routing_outcome r policy state flags).outcome) ≡ true
  determine-valid r policy state flags =
      rw determine-table (valid_by flags.is_outside_regime flags.has_conflict _ _ _)
