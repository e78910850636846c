-- ===== src/Modelwork/Novelty/Policies.antt =====
-- What the policy, the prototypes and the embedding decide of a field's novelty.
use land_record_digitalizati.Prelude.{
  Bool, true, false, not, ◌&&◌, Option, none, some, List, length, ◌≡◌, refl, inl, inr, Bool-cases,
  eqb, if◌then◌else◌, ap, sym, ◌∙◌,
}
use land_record_digitalizati.Modelwork.Errors.{value_error, Result, ◌>>=◌, ◌>>◌, raise_if}
use land_record_digitalizati.Modelwork.Runtime.{Floats, get, is_filled}
use land_record_digitalizati.Modelwork.Novelty.{
  NoveltyPolicy, NoveltyFeatures, NoveltyResult, CentroidModel, novelty_stratum, is_beyond_regime,
  distance_score, novelty_result, unseen_stratum, scored, by_distance, by_prototype, by_familiarity,
  active_policy, evaluate_novelty,
}

same_branches :
    {A : Type 0} {x y : A} (b r : Bool) → (b ≡ true → x ≡ y) → (if b && true && r then x else y) ≡ y
same_branches true true h = h refl
same_branches true false h = refl
same_branches false r h = refl

module _ {F : Type 0} ⦃fl : Floats F⦄ where
  -- A known stratum is judged by the threshold alone.
  known_stratum :
      (p : NoveltyPolicy F) (score : F)
      → is_beyond_regime p score true ≡ fl.lt p.novelty_threshold score
  unfolding is_beyond_regime
  known_stratum p score = elim (Bool-cases p.reject_unseen_strata) [
    | inl h ↦ rw h refl
    | inr h ↦ rw h refl
  ]

  -- The second step without the policy's flag.
  by_distance-threshold :
      (m : CentroidModel F) (p : NoveltyPolicy F) (f : NoveltyFeatures F) (es ps : List F)
      → by_distance m p f es ps ≡ (
          raise_if (not (eqb (length es) (length ps))) (value_error "Embedding dimension mismatch")
          >> (distance_score es ps
              >>= (λ (score : F). scored m f score (fl.lt p.novelty_threshold score))))
  unfolding by_distance
  by_distance-threshold m p f es ps =
      ap
        (λ (outside : F → Bool).
          raise_if (not (eqb (length es) (length ps))) (value_error "Embedding dimension mismatch")
          >> (distance_score es ps >>= (λ (score : F). scored m f score (outside score))))
        (λ i score. known_stratum p score i)

  -- The steps by the prototype of the stratum, without the policy's flag.
  unfoldable pub judged :
      CentroidModel F
      → F
      → NoveltyFeatures F
      → Option (List F)
      → Option (List F)
      → Result (NoveltyResult F)
  unfolding novelty_result unseen_stratum scored distance_score
  judged m threshold f (some es) (some ps) =
      raise_if (not (eqb (length es) (length ps))) (value_error "Embedding dimension mismatch")
      >> (distance_score es ps >>= (λ (score : F). scored m f score (fl.lt threshold score)))
  judged m threshold f none (some ps) = novelty_result m fl.zero_float false "in_regime" none
  judged m threshold f _ none =
      if is_filled m.prototypes
      then unseen_stratum m f
      else novelty_result m fl.zero_float false "in_regime" none

  by_prototype-judged :
      (m : CentroidModel F) (p : NoveltyPolicy F) (f : NoveltyFeatures F)
      (embedding prototype : Option (List F))
      → by_prototype m p f embedding prototype ≡ judged m p.novelty_threshold f embedding prototype
  unfolding by_prototype judged
  by_prototype-judged m p f none none = refl
  by_prototype-judged m p f (some es) none = refl
  by_prototype-judged m p f none (some ps) = refl
  by_prototype-judged m p f (some es) (some ps) = by_distance-threshold m p f es ps

  judged-unseen :
      (m : CentroidModel F) (t : F) (f : NoveltyFeatures F) (embedding : Option (List F))
      → is_filled m.prototypes ≡ true
      → judged m t f embedding none ≡ unseen_stratum m f
  unfolding judged
  judged-unseen m t f none h = rw h refl
  judged-unseen m t f (some es) h = rw h refl

  -- The first step answers what the third one would.
  pub by_familiarity-judged :
      (m : CentroidModel F) (p : NoveltyPolicy F) (f : NoveltyFeatures F)
      (prototype : Option (List F))
      → by_familiarity m p f prototype ≡ judged m p.novelty_threshold f f.embedding prototype
  unfolding by_familiarity
  by_familiarity-judged m p f (some ps) = elim (Bool-cases (is_filled m.prototypes)) [
    | inl h ↦ rw h (by_prototype-judged m p f f.embedding (some ps))
    | inr h ↦ rw h (by_prototype-judged m p f f.embedding (some ps))
  ]
  by_familiarity-judged m p f none =
      let judges = by_prototype-judged m p f f.embedding none in
      let unseen = λ (h : is_filled m.prototypes ≡ true).
        sym (judges ∙ judged-unseen m p.novelty_threshold f f.embedding h) in
      same_branches (is_filled m.prototypes) p.reject_unseen_strata unseen ∙ judges

  -- Two policies with one threshold give one answer: `reject_unseen_strata` is never seen.
  pub evaluate_novelty-threshold :
      (m : CentroidModel F) (f : NoveltyFeatures F) (p q : NoveltyPolicy F)
      → p.novelty_threshold ≡ q.novelty_threshold
      → evaluate_novelty m f (some p) ≡ evaluate_novelty m f (some q)
  unfolding evaluate_novelty active_policy
  evaluate_novelty-threshold m f p q same =
      let prototype = get (novelty_stratum f) m.prototypes in
      by_familiarity-judged m p f prototype
      ∙ ap (λ (t : F). judged m t f f.embedding prototype) same
      ∙ sym (by_familiarity-judged m q f prototype)
