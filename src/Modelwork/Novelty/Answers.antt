-- ===== src/Modelwork/Novelty/Answers.antt =====
-- Lemmas on the answers of the novelty detector.
use mathlib.Core.Option.{some-injective}
use land_record_digitalizati.Prelude.{
  String, Bool, true, false, Option, none, some, List, [], ◌∷◌, length, ◌≡◌, ◌≢◌, ap, ◌∙◌, arith,
  refl, sym, subst, ◌⊎◌, inl, inr, is_some, Bool-cases, Option-cases, eqb, if◌then◌else◌,
}
use land_record_digitalizati.Modelwork.Errors.{value_error, overflow_error, Result, ok, err, ◌>>=◌}
use land_record_digitalizati.Modelwork.Runtime.{Floats, IsOrdered, is_filled, get}
use land_record_digitalizati.Modelwork.Runtime.Bounds.{
  IsUnit, IsUnit-capped, IsUnit-zero, IsUnit-one,
}
use land_record_digitalizati.Modelwork.Novelty.{
  NoveltyPolicy, NoveltyFeatures, NoveltyResult, CentroidModel, checked_result, squares,
  distance_score, novelty_result, unseen_stratum, scored, active_policy, novelty_stratum,
  evaluate_novelty,
}
use land_record_digitalizati.Modelwork.Novelty.Policies.{judged, by_familiarity-judged}

module _ {F : Type 0} ⦃fl : Floats F⦄ (laws : IsOrdered F) where
  -- A result with a score between zero and one that names a cluster exactly outside the regime.
  abbrev pub IsConsistent : NoveltyResult F → Type 0
  IsConsistent r = IsUnit laws r.novelty_score × (r.is_outside_regime ≡ is_some r.cluster_id)

  -- A consistent answer, or a distance that overflows.
  abbrev pub Scored : Result (NoveltyResult F) → Type 0
  Scored res = ((r : NoveltyResult F) × (res ≡ ok r) × IsConsistent r) ⊎ (res ≡ err overflow_error)

  -- An embedding is as long as the prototype, where both are there.
  abbrev pub Fits : Option (List F) → Option (List F) → Type 0
  Fits embedding prototype =
      (es ps : List F) → embedding ≡ some es → prototype ≡ some ps → length es ≡ length ps

  -- Where the lengths fit, the answer is consistent or overflows; where they differ, the error says so.
  abbrev pub Answers : Option (List F) → Option (List F) → Result (NoveltyResult F) → Type 0
  Answers embedding prototype res =
      (Fits embedding prototype × Scored res)
      ⊎ ((es : List F) × (ps : List F) × (embedding ≡ some es)
          × (prototype ≡ some ps)
          × (length es ≢ length ps)
          × (res ≡ err (value_error "Embedding dimension mismatch")))

  checked_result-ok : (r : NoveltyResult F) → IsUnit laws r.novelty_score → checked_result r ≡ ok r
  unfolding checked_result
  checked_result-ok r unit = rw (laws.between r.novelty_score unit.0 unit.1, unit.0, unit.1) refl

  novelty_result-Scored :
      (m : CentroidModel F) (score : F) (outside : Bool) (reason : String) (cluster : Option String)
      → IsUnit laws score
      → outside ≡ is_some cluster
      → Scored (novelty_result m score outside reason cluster)
  unfolding novelty_result
  novelty_result-Scored m score outside reason cluster unit same =
      inl (_, checked_result-ok _ unit, (unit, same))

  unseen_stratum-Scored :
      (m : CentroidModel F) (f : NoveltyFeatures F) → Scored (unseen_stratum m f)
  unfolding unseen_stratum
  unseen_stratum-Scored m f = novelty_result-Scored m fl.one_float true _ _ (IsUnit-one laws) refl

  scored-Scored :
      (m : CentroidModel F) (f : NoveltyFeatures F) (score : F) (outside : Bool)
      → IsUnit laws score
      → Scored (scored m f score outside)
  unfolding scored
  scored-Scored m f score true unit = novelty_result-Scored m score true _ _ unit refl
  scored-Scored m f score false unit = novelty_result-Scored m score false _ _ unit refl

  squares-cases :
      (es ps : List F)
      → ((ds : List F) × (squares es ps ≡ ok ds)) ⊎ (squares es ps ≡ err overflow_error)
  unfolding squares
  squares-cases [] ps = inl ([], refl)
  squares-cases (e ∷ es) [] = inl ([], refl)
  squares-cases (e ∷ es) (p ∷ ps) = elim (Option-cases (fl.square (fl.minus e p))) [
    | inl h ↦ inr (rw (squares, h) refl)
    | inr (sq, h) ↦ elim (squares-cases es ps) [
      | inl (ds, rest) ↦ inl (sq ∷ ds, rw (squares, h, rest) refl)
      | inr rest ↦ inr (rw (squares, h, rest) refl)
    ]
  ]

  distance-Scored :
      (m : CentroidModel F) (f : NoveltyFeatures F) (t : F) (es ps : List F)
      → Scored (distance_score es ps >>= (λ (score : F). scored m f score (fl.lt t score)))
  unfolding distance_score
  distance-Scored m f t es ps = elim (squares-cases es ps) [
    | inl (ds, h) ↦ rw h (scored-Scored m f _ _ (IsUnit-capped laws _))
    | inr h ↦ inr (rw h refl)
  ]

  no_prototype-Scored :
      (m : CentroidModel F) (f : NoveltyFeatures F)
      → Scored (
          if is_filled m.prototypes
          then unseen_stratum m f
          else novelty_result m fl.zero_float false "in_regime" none)
  no_prototype-Scored m f = elim (Bool-cases (is_filled m.prototypes)) [
    | inl h ↦ rw h (unseen_stratum-Scored m f)
    | inr h ↦ rw h (novelty_result-Scored m fl.zero_float false _ none (IsUnit-zero laws) refl)
  ]

  Fits-none : (prototype : Option (List F)) → Fits none prototype
  Fits-none prototype es ps h k = absurd (ground arith)

  Fits-unseen : (embedding : Option (List F)) → Fits embedding none
  Fits-unseen embedding es ps h k = absurd (ground arith)

  Fits-lengths : (es ps : List F) → length es ≡ length ps → Fits (some es) (some ps)
  Fits-lengths es ps same qs ps' h k =
      ap length (sym (some-injective _ _ h)) ∙ same ∙ ap length (some-injective _ _ k)

  judged-Answers :
      (m : CentroidModel F) (t : F) (f : NoveltyFeatures F) (embedding prototype : Option (List F))
      → Answers embedding prototype (judged m t f embedding prototype)
  unfolding judged
  judged-Answers m t f (some es) (some ps) = elim (Bool-cases (eqb (length es) (length ps))) [
    | inl h ↦ inl (Fits-lengths es ps (ground arith), rw h (distance-Scored m f t es ps))
    | inr h ↦ inr (es, ps, refl, refl, λ same. absurd (ground arith), rw h refl)
  ]
  judged-Answers m t f none (some ps) = inl (
    Fits-none (some ps),
    novelty_result-Scored m fl.zero_float false _ none (IsUnit-zero laws) refl,
  )
  judged-Answers m t f none none = inl (Fits-none none, no_prototype-Scored m f)
  judged-Answers m t f (some es) none = inl (Fits-unseen (some es), no_prototype-Scored m f)

  -- When zero and one compare as numbers do and a float between them is finite: if the embedding and
  -- the prototype of the stratum are both there and their lengths differ, the detector raises the
  -- error that says so; otherwise it answers with a score between zero and one and names an alert
  -- cluster exactly outside the regime, or the distance overflows.
  pub evaluate_novelty-Answers :
      (m : CentroidModel F) (f : NoveltyFeatures F) (policy : Option (NoveltyPolicy F))
      → Answers f.embedding (get (novelty_stratum f) m.prototypes) (evaluate_novelty m f policy)
  unfolding evaluate_novelty
  evaluate_novelty-Answers m f policy =
      let prototype = get (novelty_stratum f) m.prototypes in
      subst (Answers f.embedding prototype)
        (sym (by_familiarity-judged m (active_policy m policy) f prototype))
        (judged-Answers m _ f f.embedding prototype)
