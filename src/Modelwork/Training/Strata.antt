-- ===== src/Modelwork/Training/Strata.antt =====
-- Which strata a training run gives a calibrator of their own, and which model then calibrates a field.
use land_record_digitalizati.Prelude.{
  ℕ, String, ◌≤◌, ◌<◌, Bool, true, false, ◌&&◌, none, some, List, [], ◌∷◌, map, filter, length, leb,
  is_some, ◌≡◌, ◌⊎◌, refl, ap, ◌∙◌, inl, inr, arith, ◌==◌, Bool-cases, eq_iff, subst,
}
use land_record_digitalizati.Modelwork.Errors.{ok}
use land_record_digitalizati.Modelwork.Runtime.{Floats, Texts, get, bounded}
use land_record_digitalizati.Modelwork.Runtime.Groups.{
  or_nil, IsKeyed, NonEmpty, group_by-IsKeyed, members-group_by,
}
use land_record_digitalizati.Modelwork.Calibration.{
  CalibrationRegime, stratum_specific, pooled_fallback, CalibratorFeatures, CalibratorModel,
  PerStratumCalibrator, canonical_stratum, count_or_zero, chosen_model, model_for, calibrate_field,
}
use land_record_digitalizati.Modelwork.Encoding.{Encoder, from_features_list}
use land_record_digitalizati.Modelwork.Logistic.{LogisticRegression, fit, fitted, predict}
use land_record_digitalizati.Modelwork.Training.{
  CorrectionLabel, TrainingSettings, label_stratum, fit_labels, sample_counts, fit_groups,
  stratum_groups, new_calibrator, new_per_stratum, train_per_stratum_calibrators,
}

module _ {F : Type 0} where
  counted :
      (k : String) (gs : List (String × List (CorrectionLabel F)))
      → count_or_zero (get k (sample_counts gs)) ≡ length (or_nil (get k gs))
  unfolding count_or_zero get sample_counts or_nil
  counted k [] = refl
  counted k ((j, g) ∷ gs) = elim (Bool-cases (j == k)) [
    | inl h ↦ rw h refl
    | inr h ↦ rw h (counted k gs)
  ]

  -- A group that is there has a member.
  present :
      (k : String) (gs : List (String × List (CorrectionLabel F)))
      → IsKeyed NonEmpty gs
      → is_some (get k gs) ≡ leb 1 (length (or_nil (get k gs)))
  unfolding get or_nil IsKeyed
  present k [] h = refl
  present k ((j, []) ∷ gs) h = absurd (h.1 refl)
  present k ((j, l ∷ g) ∷ gs) h = elim (Bool-cases (j == k)) [
    | inl same ↦ rw same (ground arith)
    | inr other ↦ rw other (present k gs h.2)
  ]

  -- The labels of a stratum.
  unfoldable pub own_labels : String → List (CorrectionLabel F) → List (CorrectionLabel F)
  unfolding label_stratum
  own_labels k labels = filter (λ (x : CorrectionLabel F). label_stratum x == k) labels

  members-stratum :
      (k : String) (labels : List (CorrectionLabel F))
      → or_nil (get k (stratum_groups labels)) ≡ own_labels k labels
  unfolding stratum_groups own_labels or_nil get
  members-stratum k labels = members-group_by label_stratum k labels []

  stratum_groups-IsKeyed :
      (labels : List (CorrectionLabel F)) → IsKeyed NonEmpty (stratum_groups labels)
  unfolding stratum_groups IsKeyed
  stratum_groups-IsKeyed labels = group_by-IsKeyed label_stratum labels [] tt

  -- The stratum of a key has enough labels for a model.
  abbrev has_enough : ℕ → List (String × List (CorrectionLabel F)) → String → Bool
  has_enough min_samples gs k = is_some (get k gs) && leb min_samples (length (or_nil (get k gs)))

module _ {F : Type 0} ⦃fl : Floats F⦄ ⦃tx : Texts⦄ (t : TrainingSettings F) where
  fit_labels-ok :
      (e : Encoder F) (g : List (CorrectionLabel F))
      → NonEmpty g
      → (m : LogisticRegression F) × (fit_labels t e g ≡ ok m)
  unfolding fit_labels fit
  fit_labels-ok e [] h = absurd (h refl)
  fit_labels-ok e (l ∷ g) h = (_, refl)

  fit_labels-cons :
      (e : Encoder F) (l : CorrectionLabel F) (ls : List (CorrectionLabel F))
      → fit_labels t e (l ∷ ls)
        ≡ ok (
            fitted
              (new_calibrator t e)
              (map (λ (x : CorrectionLabel F). (x.features, x.is_correct)) (l ∷ ls)))
  unfolding fit_labels fit
  fit_labels-cons e l ls = refl

  -- The model is the one fitted on the labels.
  abbrev pub Fitted : Encoder F → List (CorrectionLabel F) → CalibratorModel F → Type 0
  Fitted e g model = (m : LogisticRegression F) × (fit_labels t e g ≡ ok m) × (model ≡ predict m)

  -- The models are those of the groups with enough members, each fitted on its group.
  Selected :
      Encoder F
      → ℕ
      → List (String × List (CorrectionLabel F))
      → List (String × CalibratorModel F)
      → Type 0
  Selected e min_samples gs models =
      (k : String)
      → (has_enough min_samples gs k ≡ true
          → (model : CalibratorModel F) × (get k models ≡ some model)
            × Fitted e (or_nil (get k gs)) model)
        × (has_enough min_samples gs k ≡ false → get k models ≡ none)

  Selected-enough :
      (e : Encoder F) (min_samples : ℕ) (j : String) (g : List (CorrectionLabel F))
      (gs : List (String × List (CorrectionLabel F))) (models : List (String × CalibratorModel F))
      (m : LogisticRegression F)
      → leb min_samples (length g) ≡ true
      → fit_labels t e g ≡ ok m
      → Selected e min_samples gs models
      → Selected e min_samples ((j, g) ∷ gs) ((j, predict m) ∷ models)
  unfolding Selected get or_nil
  Selected-enough e min_samples j g gs models m enough trained selected k =
      elim (Bool-cases (j == k)) [
        | inl same ↦ rw same (
          λ yes. (predict m, refl, (m, trained, refl)),
          λ few. absurd (ground (arith, few, enough)),
        )
        | inr other ↦ rw other (selected k)
      ]

  Selected-few :
      (e : Encoder F) (min_samples : ℕ) (j : String) (g : List (CorrectionLabel F))
      (gs : List (String × List (CorrectionLabel F))) (models : List (String × CalibratorModel F))
      → leb min_samples (length g) ≡ false
      → get j gs ≡ none
      → Selected e min_samples gs models
      → Selected e min_samples ((j, g) ∷ gs) models
  unfolding Selected get or_nil
  Selected-few e min_samples j g gs models few alone selected k = elim (Bool-cases (j == k)) [
    | inl same ↦
        let gone = subst (λ (i : String). get i gs ≡ none) ((eq_iff j k).0 same) alone in
        rw same (λ enough. absurd (ground (arith, few, enough)), λ _. (selected k).1 (rw gone refl))
    | inr other ↦ rw other (selected k)
  ]

  fit_groups-Selected :
      (e : Encoder F) (min_samples : ℕ) (gs : List (String × List (CorrectionLabel F)))
      → IsKeyed NonEmpty gs
      → (models : List (String × CalibratorModel F)) × (fit_groups t e min_samples gs ≡ ok models)
        × Selected e min_samples gs models
  unfolding fit_groups Selected get IsKeyed or_nil
  fit_groups-Selected e min_samples [] h =
      ([], refl, λ k. (λ yes. absurd (ground arith), λ _. refl))
  fit_groups-Selected e min_samples ((j, g) ∷ gs) h =
      let (models, ran, selected) = fit_groups-Selected e min_samples gs h.2 in
      let (m, trained) = fit_labels-ok e g h.1 in
      elim (Bool-cases (leb min_samples (length g))) [
        | inl enough ↦ (
          (j, predict m) ∷ models,
          rw (enough, trained, ran) refl,
          Selected-enough e min_samples j g gs models m enough trained selected,
        )
        | inr few ↦ (models, rw few ran, Selected-few e min_samples j g gs models few h.0 selected)
      ]

  -- The field is calibrated by the model, and the result says so.
  abbrev pub CalibratedBy :
      CalibratorModel F → CalibrationRegime → PerStratumCalibrator F → CalibratorFeatures F → Type 0
  CalibratedBy model regime c f =
      ((calibrate_field c f).regime ≡ regime)
      × ((calibrate_field c f).calibrated_confidence ≡ bounded ((model f).0))
      × ((calibrate_field c f).feature_attributions ≡ (model f).1)

  calibrated_by :
      (c : PerStratumCalibrator F) (f : CalibratorFeatures F) (model : CalibratorModel F)
      (regime : CalibrationRegime)
      → model_for c (canonical_stratum f) ≡ (model, regime)
      → CalibratedBy model regime c f
  unfolding calibrate_field
  calibrated_by c f model regime h = (
    ap (λ (r : CalibratorModel F × CalibrationRegime). r.1) h,
    ap (λ (r : CalibratorModel F × CalibrationRegime). bounded ((r.0 f).0)) h,
    ap (λ (r : CalibratorModel F × CalibrationRegime). (r.0 f).1) h,
  )

  module _ (min_samples : ℕ) (labels : List (CorrectionLabel F)) (e : Encoder F)
      (pooled : CalibratorModel F) (models : List (String × CalibratorModel F))
      (selected : Selected e min_samples (stratum_groups labels) models) where
    counts :
        (k : String)
        → count_or_zero (get k (sample_counts (stratum_groups labels)))
          ≡ length (own_labels k labels)
    counts k = counted k (stratum_groups labels) ∙ ap length (members-stratum k labels)

    enough_labels :
        (k : String)
        → has_enough min_samples (stratum_groups labels) k
          ≡ (leb 1 (length (own_labels k labels)) && leb min_samples (length (own_labels k labels)))
    enough_labels k =
        rw
          (
            present k (stratum_groups labels) (stratum_groups-IsKeyed labels),
            members-stratum k labels,
          )
          refl

    model_for-own :
        (k : String)
        → 1 ≤ length (own_labels k labels)
        → min_samples ≤ length (own_labels k labels)
        → (model : CalibratorModel F) × Fitted e (own_labels k labels) model
          × (model_for (new_per_stratum pooled models labels min_samples) k
              ≡ (model, stratum_specific))
    unfolding Selected model_for chosen_model
    model_for-own k some_label enough =
        let passed : leb min_samples (length (own_labels k labels)) ≡ true = ground arith in
        let yes : has_enough min_samples (stratum_groups labels) k ≡ true =
          enough_labels k ∙ ground arith in
        let (model, there, fitted_on) = (selected k).0 yes in
        (
          model,
          subst (λ (g : List (CorrectionLabel F)). Fitted e g model) (members-stratum k labels)
              fitted_on,
          rw (there, counts k, passed) refl,
        )

    model_for-pooled :
        (k : String)
        → (length (own_labels k labels) ≡ 0) ⊎ (length (own_labels k labels) < min_samples)
        → model_for (new_per_stratum pooled models labels min_samples) k ≡ (pooled, pooled_fallback)
    unfolding Selected model_for chosen_model
    model_for-pooled k few =
        let no_model : has_enough min_samples (stratum_groups labels) k ≡ false =
          enough_labels k ∙ too_few (length (own_labels k labels)) few in
        rw ((selected k).1 no_model) refl
      where
        too_few : (n : ℕ) → (n ≡ 0) ⊎ (n < min_samples) → (leb 1 n && leb min_samples n) ≡ false
        too_few n (inl zero_labels) = ground arith
        too_few n (inr less) = ground arith

  -- The encoder that the calibrators of a run share.
  abbrev pub shared_encoder : List (CorrectionLabel F) → Encoder F
  shared_encoder labels =
      from_features_list (map (λ (x : CorrectionLabel F). x.features) labels) t.encoding

  -- Training on at least one label succeeds. A field whose stratum has a label and at least
  -- `min_samples` of them is calibrated by a model fitted on exactly those labels and reported as
  -- specific to its stratum; any other field by the model fitted on all labels, reported as pooled.
  pub train-strata :
      (min_samples : ℕ) (l : CorrectionLabel F) (ls : List (CorrectionLabel F))
      → (c : PerStratumCalibrator F) × (train_per_stratum_calibrators t min_samples (l ∷ ls) ≡ ok c)
        × ((f : CalibratorFeatures F)
            → 1 ≤ length (own_labels (canonical_stratum f) (l ∷ ls))
            → min_samples ≤ length (own_labels (canonical_stratum f) (l ∷ ls))
            → (model : CalibratorModel F) × Fitted
                (shared_encoder (l ∷ ls))
                (own_labels (canonical_stratum f) (l ∷ ls))
                model
              × CalibratedBy model stratum_specific c f)
        × ((f : CalibratorFeatures F)
            → (length (own_labels (canonical_stratum f) (l ∷ ls)) ≡ 0)
              ⊎ (length (own_labels (canonical_stratum f) (l ∷ ls)) < min_samples)
            → (model : CalibratorModel F) × Fitted (shared_encoder (l ∷ ls)) (l ∷ ls) model
              × CalibratedBy model pooled_fallback c f)
  unfolding train_per_stratum_calibrators
  train-strata min_samples l ls =
      let labels = l ∷ ls in
      let e = shared_encoder labels in
      let examples = map (λ (x : CorrectionLabel F). (x.features, x.is_correct)) labels in
      let pooled = fitted (new_calibrator t e) examples in
      let trained = fit_labels-cons e l ls in
      let (models, ran, selected) =
        fit_groups-Selected e min_samples (stratum_groups labels) (stratum_groups-IsKeyed labels) in
      let c = new_per_stratum (predict pooled) models labels min_samples in
      (
        c,
        rw ran refl,
        λ f some_label enough.
            let (model, fitted_on, chosen) =
              model_for-own min_samples labels e (predict pooled) models selected
                (canonical_stratum f) some_label enough in
            (model, fitted_on, calibrated_by c f model stratum_specific chosen),
        λ f few.
            let chosen =
              model_for-pooled min_samples labels e (predict pooled) models selected
                (canonical_stratum f) few in
            (
              predict pooled,
              (pooled, trained, refl),
              calibrated_by c f (predict pooled) pooled_fallback chosen,
            ),
      )
