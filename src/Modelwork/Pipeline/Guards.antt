-- ===== src/Modelwork/Pipeline/Guards.antt =====
-- What holds of every extraction that leaves the pipeline.
use mathlib.Core.Option.{some-injective}
use land_record_digitalizati.Prelude.{
  ℕ, String, true, false, Option, none, some, List, or_empty, ◌≡◌, refl, sym, subst, ap, ◌∙◌, arith,
  &&-eq-true, eq_iff, inl, inr, ◌⊎◌, ◌≢◌, ◌&&◌, ◌==◌, All, All-map, Any, Any-map, Any-any, any-none,
}
use land_record_digitalizati.Audit.World.{World}
use land_record_digitalizati.Backend.Policy.{is_valid_outcome}
use land_record_digitalizati.Modelwork.Errors.{Result, ok, err, ◌>>=◌}
use land_record_digitalizati.Modelwork.Runtime.{Floats, Texts}
use land_record_digitalizati.Modelwork.Calibration.{
  CalibratorFeatures, ThresholdPolicy, is_auto_acceptable, required_confidence,
}
use land_record_digitalizati.Backend.Session.{contains}
use land_record_digitalizati.Modelwork.ColdStart.{ColdStartState, shadow, ramp, steady, regression}
use land_record_digitalizati.Modelwork.Novelty.{NoveltyResult}
use land_record_digitalizati.Modelwork.Payloads.{Payload, ValidationResult, WorkEnvelope}
use land_record_digitalizati.Modelwork.Features.{
  FieldContext, present_or, extraction_to_calibrator_features,
}
use land_record_digitalizati.Modelwork.Routing.Outcomes.{
  is_live, is_acceptable, determine-accepts, determine-valid,
}
use land_record_digitalizati.Modelwork.Pipeline.{
  Calibrator, PipelineOptions, Pinned, Processed, pinned_provenance, active_novelty, is_beyond,
  has_validator_failure, flags_of, concluded, process_extraction_for_decision, calibrated,
}

ok-injective : {A : Type 0} {a b : A} → ok a ≡ ok b → a ≡ b
ok-injective e = ground arith

-- A chain that succeeds succeeded at its first step.
bind-ok :
    {A B : Type 0} {b : B} (r : Result A) (k : A → Result B)
    → (r >>= k) ≡ ok b
    → (a : A) × (r ≡ ok a) × (k a ≡ ok b)
bind-ok (ok a) k h = (a, refl, h)
bind-ok (err e) k h = absurd (ground arith)

live-cases : (state : ColdStartState) → is_live state ≡ true → (state ≡ ramp) ⊎ (state ≡ steady)
live-cases shadow h = absurd (ground arith)
live-cases ramp h = inl refl
live-cases steady h = inr refl
live-cases regression h = absurd (ground arith)

none_failed :
    ⦃tx : Texts⦄ (id : String) (validation : List ValidationResult)
    → has_validator_failure id validation ≡ false
    → All (λ v. Any (λ (x : String). x ≡ id) v.fields → tx.lower v.verdict ≢ "fail") validation
unfolding has_validator_failure
none_failed ⦃tx = tx⦄ id validation h =
    All-map _ _ validation
      (λ v no_match named same.
        let own : contains id v.fields ≡ true =
          Any-any (λ (y : String). y == id) v.fields
            (Any-map _ _ v.fields (λ y e. (eq_iff y id).1 e) named) in
        let failed : (tx.lower v.verdict == "fail") ≡ true = (eq_iff _ "fail").1 same in
        ground (arith, own, failed, no_match))
      (any-none (λ (v : ValidationResult). contains id v.fields && tx.lower v.verdict == "fail")
        validation h)

module _ {F : Type 0} ⦃fl : Floats F⦄ ⦃tx : Texts⦄ where
  module _ (w : World) (tick : ℕ) (extraction : Option (Payload F)) (envelope : Option WorkEnvelope)
      (calibrator : Option (Calibrator F)) (policy : ThresholdPolicy F) (trace : String)
      (validation : List ValidationResult) (context : FieldContext F) (o : PipelineOptions F) where
    abbrev processed : Result (Processed F)
    processed =
        process_extraction_for_decision w tick extraction envelope calibrator policy trace
          validation context o

    -- What a run that returns has computed on its way.
    Ran : Processed F → Type 0
    Ran p =
        (pins : Pinned F) × (f : CalibratorFeatures F) × (x : Payload F) × (n : Option
          (NoveltyResult F))
        × (extraction ≡ some x)
        × (extraction_to_calibrator_features extraction validation context ≡ ok f)
        × (active_novelty x f o o.novelty_result ≡ ok n)
        × (concluded w tick x validation o policy trace pins f n ≡ p)

    present : {A : Type 0} (m : String) (e : Option A) (a : A) → present_or m e ≡ ok a → e ≡ some a
    unfolding present_or
    present m none a h = absurd (ground arith)
    present m (some b) a h = ap some (ok-injective h)

    process-Ran : (p : Processed F) → processed ≡ ok p → Ran p
    unfolding process_extraction_for_decision Ran
    process-Ran p h =
        let (pins, _, h1) = bind-ok (pinned_provenance envelope calibrator trace o) _ h in
        let (f, featured, h2) =
          bind-ok (extraction_to_calibrator_features extraction validation context) _ h1 in
        let (x, found, h3) = bind-ok (present_or _ extraction) _ h2 in
        let (n, seen, h4) = bind-ok (active_novelty x f o o.novelty_result) _ h3 in
        (pins, f, x, n, present _ extraction x found, featured, seen, ok-injective h4)

    -- Every outcome that leaves the pipeline is one that the decision engine routes.
    pub process-valid :
        (p : Processed F) → processed ≡ ok p → is_valid_outcome p.extraction.routing_outcome ≡ true
    unfolding Ran concluded
    process-valid p h =
        let (pins, f, x, n, _, _, _, same) = process-Ran p h in
        subst (λ (q : Processed F). is_valid_outcome q.extraction.routing_outcome ≡ true) same
          (determine-valid _ policy o.cold_start_state (flags_of x validation o n))

    -- What must hold of a field that leaves the pipeline accepted.
    abbrev pub Cleared : Processed F → Type 0
    Cleared p =
        ((o.cold_start_state ≡ ramp) ⊎ (o.cold_start_state ≡ steady))
        × (fl.le (fl.minus fl.one_float policy.target_error_rate)
              p.calibration.calibrated_confidence
            ≡ true)
        × (o.is_conflict ≡ false)
        × All
            (λ v.
              Any (λ (x : String). x ≡ or_empty p.extraction.id) v.fields
              → tx.lower v.verdict ≢ "fail")
            validation
        × ((x : Payload F) × (f : CalibratorFeatures F) × (n : Option (NoveltyResult F))
            × (extraction ≡ some x)
            × (extraction_to_calibrator_features extraction validation context ≡ ok f)
            × (active_novelty x f o o.novelty_result ≡ ok n)
            × (o.outside_regime ≡ false)
            × ((r : NoveltyResult F) → n ≡ some r → r.is_outside_regime ≡ false))

    -- Neither the caller nor the detector puts the field outside the regime.
    within-regime :
        (n : Option (NoveltyResult F))
        → is_beyond o n ≡ false
        → (o.outside_regime ≡ false)
          × ((r : NoveltyResult F) → n ≡ some r → r.is_outside_regime ≡ false)
    unfolding is_beyond
    within-regime none h = (h, λ r same. absurd (ground arith))
    within-regime (some q) h = (
      ground arith,
      λ r same.
          subst (λ (x : NoveltyResult F). x.is_outside_regime ≡ false) (some-injective _ _ same)
            (ground arith),
    )

    concluded-Cleared :
        (pins : Pinned F) (f : CalibratorFeatures F) (x : Payload F) (n : Option (NoveltyResult F))
        → extraction ≡ some x
        → extraction_to_calibrator_features extraction validation context ≡ ok f
        → active_novelty x f o o.novelty_result ≡ ok n
        → (concluded w tick x validation o policy trace pins f n).extraction.routing_outcome
          ≡ some "auto_accept"
        → Cleared (concluded w tick x validation o policy trace pins f n)
    unfolding concluded flags_of is_acceptable is_auto_acceptable required_confidence
    concluded-Cleared pins f x n found featured seen h =
        let r = calibrated pins.calibrator f in
        let flags = flags_of x validation o n in
        let accepted : is_acceptable r policy o.cold_start_state flags ≡ true =
          sym (determine-accepts r policy o.cold_start_state flags)
          ∙ (eq_iff _ "auto_accept").1 (some-injective _ _ h) in
        let clear = &&-eq-true _ (is_auto_acceptable policy r.calibrated_confidence) accepted in
        let within : is_beyond o n ≡ false = ground arith in
        let inside = within-regime n within in
        let passed : has_validator_failure (or_empty x.id) validation ≡ false = ground arith in
        (
          live-cases o.cold_start_state (ground arith),
          clear.1,
          ground arith,
          none_failed (or_empty x.id) validation passed,
          (x, f, n, found, featured, seen, inside.0, inside.1),
        )

    -- If the pipeline returns an extraction with the outcome auto_accept, then the model is in the
    -- ramp or steady state, the calibrated confidence is at least one less the target error rate,
    -- the caller reported no conflict, no validation result that names the extraction has the
    -- verdict fail, the caller did not place it outside the regime, and the novelty result, given or
    -- detected from the features of the extraction, if there is one, did not either.
    pub process-accepts :
        (p : Processed F)
        → processed ≡ ok p
        → p.extraction.routing_outcome ≡ some "auto_accept"
        → Cleared p
    unfolding Ran
    process-accepts p h =
        let (pins, f, x, n, found, featured, seen, same) = process-Ran p h in
        subst (λ (q : Processed F). q.extraction.routing_outcome ≡ some "auto_accept" → Cleared q)
          same (concluded-Cleared pins f x n found featured seen)
