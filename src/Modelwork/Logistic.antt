-- ===== src/Modelwork/Logistic.antt =====
-- services/modelwork/src/modelwork/domain/calibration/calibrator.py: the logistic regression that is
-- fitted by gradient descent.
use land_record_digitalizati.Prelude.{
  ℕ, zero, suc, String, Bool, true, List, [], ◌∷◌, map, length, if◌then◌else◌,
}
use land_record_digitalizati.Modelwork.Errors.{value_error, Result, ok, err}
use land_record_digitalizati.Modelwork.Runtime.{Floats, Texts, max, min, bounded, put, is_filled}
use land_record_digitalizati.Modelwork.Calibration.{CalibratorFeatures, CalibratorModel}
use land_record_digitalizati.Modelwork.Encoding.{
  Encoder, feature_names, from_features_list, encode, indicator,
}

pub record LogisticRegression (F : Type 0) : Type 0 where
  pub learning_rate : F
  pub iterations : ℕ
  pub l2_reg : F
  pub encoder : Encoder F
  pub weights : List F
  pub bias : F
  pub is_fitted : Bool

abbrev pub zip_with : {A B C : Type 0} → (A → B → C) → List A → List B → List C
zip_with f [] bs = []
zip_with f (a ∷ rest) [] = []
zip_with f (a ∷ rest) (b ∷ bs) = f a b ∷ zip_with f rest bs

-- `[x] * n`
abbrev pub replicate : {A : Type 0} → ℕ → A → List A
replicate zero x = []
replicate (suc n) x = x ∷ replicate n x

-- The weights and the bias, or their gradients.
pub record Parameters (F : Type 0) : Type 0 where
  pub per_feature : List F
  pub constant : F

module _ {F : Type 0} ⦃fl : Floats F⦄ where
  unfoldable pub sigmoid : F → F
  unfolding max min
  sigmoid z =
      let clamped_z = max (fl.negate fl.fifty) (min fl.fifty z) in
      fl.divide fl.one_float (fl.plus fl.one_float (fl.exp (fl.negate clamped_z)))

  -- `sum(w * x for w, x in zip(weights, xi)) + bias`
  abbrev pub linear : Parameters F → List F → F
  linear p xi = fl.plus (fl.sum (zip_with fl.times p.per_feature xi)) p.constant

  -- The loop over the samples of one iteration.
  unfoldable pub gradients : Parameters F → List (List F × F) → Parameters F → Parameters F
  unfolding sigmoid
  gradients p [] grad = grad
  gradients p ((xi, yi) ∷ samples) grad =
      let error = fl.minus (sigmoid (linear p xi)) yi in
      gradients p samples (record {
        per_feature = zip_with (λ (g x : F). fl.plus g (fl.times error x)) grad.per_feature xi;
        constant = fl.plus grad.constant error;
      })

  -- `[0.0] * num_features` beside `0.0`
  abbrev pub zeros : ℕ → Parameters F
  zeros num_features = record {
    per_feature = replicate num_features fl.zero_float;
    constant = fl.zero_float;
  }

  -- One iteration: the gradients over all samples, then the step against them.
  unfoldable pub descend : F → F → ℕ → List (List F × F) → Parameters F → Parameters F
  unfolding gradients
  descend learning_rate l2_reg num_features samples p =
      let grad = gradients p samples (zeros num_features) in
      let inv_n = fl.divide fl.one_float (fl.of_nat (length samples)) in
      record {
        per_feature =
            zip_with
              (λ (w g : F).
                fl.minus w
                  (fl.times learning_rate (fl.plus (fl.times g inv_n) (fl.times l2_reg w))))
              p.per_feature grad.per_feature;
        constant = fl.minus p.constant (fl.times learning_rate (fl.times grad.constant inv_n));
      }

  unfoldable pub iterated : ℕ → F → F → ℕ → List (List F × F) → Parameters F → Parameters F
  unfolding descend
  iterated zero learning_rate l2_reg num_features samples p = p
  iterated (suc n) learning_rate l2_reg num_features samples p =
      iterated n learning_rate l2_reg num_features samples
        (descend learning_rate l2_reg num_features samples p)

module _ {F : Type 0} ⦃fl : Floats F⦄ ⦃tx : Texts⦄ where
  -- The encoder of the model, or one with the categories of the samples.
  unfoldable pub fitted_encoder : Encoder F → List (CalibratorFeatures F × Bool) → Encoder F
  unfolding from_features_list
  fitted_encoder e examples =
      if is_filled e.extra_categories
      then e
      else from_features_list (map (λ (x : CalibratorFeatures F × Bool). x.0) examples) e.policy

  unfoldable pub fitted :
      LogisticRegression F → List (CalibratorFeatures F × Bool) → LogisticRegression F
  unfolding fitted_encoder encode feature_names iterated
  fitted m examples =
      let e = fitted_encoder m.encoder examples in
      let num_features = length (feature_names e) in
      let samples =
        map (λ (x : CalibratorFeatures F × Bool). (encode e (x.0), indicator (x.1))) examples in
      let p =
        iterated m.iterations m.learning_rate m.l2_reg num_features samples (zeros num_features) in
      record m { encoder = e; weights = p.per_feature; bias = p.constant; is_fitted = true }

  -- `LogisticRegressionCalibrator.fit`
  unfoldable pub fit :
      LogisticRegression F → List (CalibratorFeatures F × Bool) → Result (LogisticRegression F)
  unfolding fitted
  fit m examples =
      if is_filled examples
      then ok (fitted m examples)
      else err (value_error "Cannot fit calibrator on empty examples")

  -- The attributions of the features whose contribution is not negligible.
  unfoldable pub attributed : List String → List F → List F → List (String × F) → List (String × F)
  unfolding put
  attributed [] ws xs found = found
  attributed (name ∷ names) [] xs found = found
  attributed (name ∷ names) (w ∷ ws) [] found = found
  attributed (name ∷ names) (w ∷ ws) (x ∷ xs) found =
      let contrib = fl.times w x in
      attributed names ws xs (
        if fl.lt fl.tiny (fl.absolute contrib)
        then put name (fl.round_six contrib) found
        else found)

  -- `LogisticRegressionCalibrator.predict_calibrated_confidence`
  unfoldable pub predict : LogisticRegression F → CalibratorModel F
  unfolding attributed encode feature_names sigmoid bounded
  predict m f =
      let xi = encode m.encoder f in
      let z = linear (record { per_feature = m.weights; constant = m.bias }) xi in
      if m.is_fitted
      then (bounded (sigmoid z), attributed (feature_names m.encoder) m.weights xi [])
      else (bounded f.token_confidence, [])
