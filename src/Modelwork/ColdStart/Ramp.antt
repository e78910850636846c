-- ===== src/Modelwork/ColdStart/Ramp.antt =====
-- The ramp as a state machine: the edges that evidence allows, and the runs of evaluations.
use land_record_digitalizati.Prelude.{
  true, false, List, [], ◌∷◌, ◌≡◌, refl, inl, inr, ◌≤◌, leb, leb_iff, Bool-cases, &&-eq-true, ◌&&◌,
}
use land_record_digitalizati.Modelwork.Errors.{Result, ok, ◌>>=◌}
use land_record_digitalizati.Modelwork.ColdStart.{
  ColdStartState, shadow, ramp, steady, regression, ColdStartEvidence, ColdStartThresholds,
  valid_transitions, validate_transition, next_target, validated, next_state,
  evaluate_cold_start_transition,
}

-- What the evidence must show for each edge, written out independently of the evaluation.
pub data Edge (t : ColdStartThresholds) (e : ColdStartEvidence)
    : ColdStartState → ColdStartState → Type 0 where
  stay : {s : ColdStartState} → Edge t e s s
  leave_shadow : t.min_shadow_evidence ≤ e.sample_count → Edge t e shadow ramp
  settle :
      t.min_ramp_evidence ≤ e.sample_count
      → e.calibration_verified ≡ true
      → e.error_target_met ≡ true
      → e.regression_alert ≡ false
      → Edge t e ramp steady
  regress_ramp : e.regression_alert ≡ true → Edge t e ramp regression
  regress_steady : e.regression_alert ≡ true → Edge t e steady regression
  recover :
      t.min_recovery_evidence ≤ e.sample_count
      → e.recovery_evidence_verified ≡ true
      → e.regression_alert ≡ false
      → Edge t e regression ramp

pub evaluate-Edge :
    (s : ColdStartState) (e : ColdStartEvidence) (t : ColdStartThresholds)
    → (n : ColdStartState) × (evaluate_cold_start_transition s e t ≡ ok n) × Edge t e s n
unfolding evaluate_cold_start_transition next_state next_target validated validate_transition
    valid_transitions
evaluate-Edge shadow e t = elim (Bool-cases (leb t.min_shadow_evidence e.sample_count)) [
  | inl met ↦ (ramp, rw met refl, leave_shadow ((leb_iff _ _).0 met))
  | inr unmet ↦ (shadow, rw unmet refl, stay)
]
evaluate-Edge ramp e t =
    let enough = leb t.min_ramp_evidence e.sample_count in
    elim (Bool-cases e.regression_alert) [
      | inl alert ↦ (regression, rw alert refl, regress_ramp alert)
      | inr quiet ↦ elim (Bool-cases (enough && e.calibration_verified && e.error_target_met)) [
        | inl met ↦
            let on_target = &&-eq-true (enough && e.calibration_verified) e.error_target_met met in
            let verified = &&-eq-true enough e.calibration_verified on_target.0 in
            (
              steady,
              rw (quiet, met) refl,
              settle ((leb_iff _ _).0 verified.0) verified.1 on_target.1 quiet,
            )
        | inr unmet ↦ (ramp, rw (quiet, unmet) refl, stay)
      ]
    ]
evaluate-Edge steady e t = elim (Bool-cases e.regression_alert) [
  | inl alert ↦ (regression, rw alert refl, regress_steady alert)
  | inr quiet ↦ (steady, rw quiet refl, stay)
]
evaluate-Edge regression e t = elim (Bool-cases e.regression_alert) [
  | inl alert ↦ (regression, rw alert refl, stay)
  | inr quiet ↦
      elim (Bool-cases
        (e.recovery_evidence_verified && leb t.min_recovery_evidence e.sample_count)) [
          | inl met ↦
              let both = &&-eq-true _ _ met in
              (ramp, rw (quiet, met) refl, recover ((leb_iff _ _).0 both.1) both.0 quiet)
          | inr unmet ↦ (regression, rw (quiet, unmet) refl, stay)
        ]
]

-- The evaluations of one model since it was promoted, the latest first.
unfoldable pub climb : ColdStartThresholds → List ColdStartEvidence → Result ColdStartState
unfolding evaluate_cold_start_transition
climb t [] = ok shadow
climb t (e ∷ es) = climb t es >>= (λ (s : ColdStartState). evaluate_cold_start_transition s e t)

-- Some evaluation saw the evidence that ends the shadow state.
pub data LeftShadow (t : ColdStartThresholds) : List ColdStartEvidence → Type 0 where
  by_evidence :
      {e : ColdStartEvidence} {es : List ColdStartEvidence}
      → t.min_shadow_evidence ≤ e.sample_count
      → LeftShadow t (e ∷ es)
  before :
      {e : ColdStartEvidence} {es : List ColdStartEvidence}
      → LeftShadow t es
      → LeftShadow t (e ∷ es)

-- Some later evaluation saw a verified calibration on target, with enough evidence and no alert.
pub data Settled (t : ColdStartThresholds) : List ColdStartEvidence → Type 0 where
  by_ramp :
      {e : ColdStartEvidence} {es : List ColdStartEvidence}
      → t.min_ramp_evidence ≤ e.sample_count
      → e.calibration_verified ≡ true
      → e.error_target_met ≡ true
      → e.regression_alert ≡ false
      → LeftShadow t es
      → Settled t (e ∷ es)
  earlier :
      {e : ColdStartEvidence} {es : List ColdStartEvidence} → Settled t es → Settled t (e ∷ es)

-- What the history must hold for a model to be in a state.
abbrev pub Earned : ColdStartThresholds → List ColdStartEvidence → ColdStartState → Type 0
Earned t es shadow = Unit
Earned t es ramp = LeftShadow t es
Earned t es steady = LeftShadow t es × Settled t es
Earned t es regression = LeftShadow t es

Edge-Earned :
    (t : ColdStartThresholds) (e : ColdStartEvidence) (es : List ColdStartEvidence)
    (s n : ColdStartState)
    → Edge t e s n
    → Earned t es s
    → Earned t (e ∷ es) n
Edge-Earned t e es shadow _ stay h = tt
Edge-Earned t e es ramp _ stay h = before h
Edge-Earned t e es steady _ stay h = (before h.0, earlier h.1)
Edge-Earned t e es regression _ stay h = before h
Edge-Earned t e es _ _ (leave_shadow enough) h = by_evidence enough
Edge-Earned t e es _ _ (settle enough verified target quiet) h =
    (before h, by_ramp enough verified target quiet h)
Edge-Earned t e es _ _ (regress_ramp alert) h = before h
Edge-Earned t e es _ _ (regress_steady alert) h = before h.0
Edge-Earned t e es _ _ (recover enough verified quiet) h = before h

pub climb-Earned :
    (t : ColdStartThresholds) (es : List ColdStartEvidence)
    → (s : ColdStartState) × (climb t es ≡ ok s) × Earned t es s
unfolding climb
climb-Earned t [] = (shadow, refl, tt)
climb-Earned t (e ∷ es) =
    let (s, ran, earned) = climb-Earned t es in
    let (n, stepped, edge) = evaluate-Edge s e t in
    (n, rw ran stepped, Edge-Earned t e es s n edge earned)
