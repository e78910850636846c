-- ===== src/Modelwork/Novelty.antt =====
-- services/modelwork/src/modelwork/domain/calibration/novelty.py: whether a field lies outside the
-- regime that the calibrator was fitted on, from its embedding and its stratum.
pub mod Policies
pub mod Answers
use land_record_digitalizati.Prelude.{
  ℕ, String, ◌<>◌, Bool, true, false, not, ◌&&◌, ◌||◌, Option, none, some, List, [], ◌∷◌, length,
  eqb, is_some, ◌==◌, if◌then◌else◌,
}
use land_record_digitalizati.Modelwork.Errors.{
  Error, value_error, overflow_error, Result, ok, err, pure, ◌>>=◌, ◌>>◌, raise_if,
}
use land_record_digitalizati.Modelwork.Runtime.{Floats, capped, get, or_default, is_filled}
use land_record_digitalizati.Modelwork.Stratum.{stratum_key}

pub record NoveltyPolicy (F : Type 0) : Type 0 where
  pub novelty_threshold : F
  pub reject_unseen_strata : Bool

pub record NoveltyFeatures (F : Type 0) : Type 0 where
  pub embedding : Option (List F)
  pub stratum : String
  pub field_class : String
  pub script : String
  pub doc_type : String
  pub print_or_handwriting : String
  pub legibility_band : String
  pub writer_cluster_id : String
  pub layout_certainty : Option F
  pub unconstrained_value : Option String
  pub raw_value : String

pub record NoveltyResult (F : Type 0) : Type 0 where
  pub novelty_score : F
  pub is_outside_regime : Bool
  pub regime_reason : String
  pub cluster_id : Option String
  pub model_version : String
  pub config_version : String

-- The fields of `CentroidDistanceNoveltyModel`.
pub record CentroidModel (F : Type 0) : Type 0 where
  pub prototypes : List (String × List F)
  pub policy : NoveltyPolicy F
  pub model_version : String
  pub config_version : String

-- `NoveltyFeatures.canonical_stratum`
unfoldable pub novelty_stratum : {F : Type 0} → NoveltyFeatures F → String
unfolding stratum_key
novelty_stratum f =
    if f.stratum == ""
    then stratum_key (or_default f.field_class "default") (or_default f.script "default")
        (or_default f.print_or_handwriting "printed") (or_default f.legibility_band "medium")
        (or_default f.writer_cluster_id "default")
    else f.stratum

-- `_generate_cluster_id`
unfoldable pub generate_cluster_id : {F : Type 0} → NoveltyFeatures F → String → String
generate_cluster_id f stratum =
    if not (f.writer_cluster_id == "") && not (f.writer_cluster_id == "default")
    then "novelty:writer:" <> f.writer_cluster_id
    else if not (f.doc_type == "") && not (f.script == "")
    then "novelty:doc:" <> (f.doc_type <> (":" <> f.script))
    else "novelty:stratum:" <> stratum

module _ {F : Type 0} ⦃fl : Floats F⦄ where
  -- `NoveltyPolicy.__post_init__`
  unfoldable pub checked_policy : NoveltyPolicy F → Result (NoveltyPolicy F)
  checked_policy p = do
    raise_if (not (fl.isfinite p.novelty_threshold))
        (value_error "novelty_threshold must be a finite real number")
    raise_if
        (not (fl.le fl.zero_float p.novelty_threshold && fl.le p.novelty_threshold fl.one_float))
        (value_error "novelty_threshold must be within [0.0, 1.0]")
    pure p

  -- `NoveltyPolicy.is_outside_regime`
  unfoldable pub is_beyond_regime : NoveltyPolicy F → F → Bool → Bool
  is_beyond_regime p novelty_score stratum_is_known =
      if p.reject_unseen_strata && not stratum_is_known
      then true
      else fl.lt p.novelty_threshold novelty_score

  unfoldable pub all_finite : List F → Result (Unit {0})
  all_finite [] = ok tt
  all_finite (v ∷ vs) =
      raise_if (not (fl.isfinite v)) (value_error "embedding must be a finite real number")
      >> all_finite vs

  unfoldable pub checked_embedding : List F → Result (Unit {0})
  unfolding all_finite
  checked_embedding vs =
      raise_if (not (is_filled vs))
        (value_error "embedding must be a non-empty list of finite real numbers")
      >> all_finite vs

  unfoldable pub checked_layout : Option F → Result (Unit {0})
  checked_layout none = ok tt
  checked_layout (some c) =
      raise_if (not (fl.isfinite c)) (value_error "layout_certainty must be a finite real number")
      >> raise_if (not (fl.le fl.zero_float c && fl.le c fl.one_float))
          (value_error "layout_certainty must be in [0.0, 1.0]")

  unfoldable pub checked_vector : Option (List F) → Result (Unit {0})
  unfolding checked_embedding
  checked_vector none = ok tt
  checked_vector (some vs) = checked_embedding vs

  -- `NoveltyFeatures.__post_init__`
  unfoldable pub checked_features : NoveltyFeatures F → Result (NoveltyFeatures F)
  unfolding checked_vector checked_layout
  checked_features f = checked_vector f.embedding >> checked_layout f.layout_certainty >> pure f

  -- `NoveltyResult.__post_init__`
  unfoldable pub checked_result : NoveltyResult F → Result (NoveltyResult F)
  checked_result r = do
    raise_if (not (fl.isfinite r.novelty_score))
        (value_error "novelty_score must be a finite real number")
    raise_if (not (fl.le fl.zero_float r.novelty_score && fl.le r.novelty_score fl.one_float))
        (value_error "novelty_score must be in [0.0, 1.0]")
    pure r

  -- `((e - p) ** 2 for e, p in zip(embedding, prototype))`
  unfoldable pub squares : List F → List F → Result (List F)
  squares [] ps = ok []
  squares (e ∷ es) [] = ok []
  squares (e ∷ es) (p ∷ ps) = elim (fl.square (fl.minus e p)) [
    | none ↦ err overflow_error
    | some sq ↦ squares es ps >>= (λ (rest : List F). ok (sq ∷ rest))
  ]

  -- The score of an embedding against the prototype of its stratum.
  unfoldable pub distance_score : List F → List F → Result F
  unfolding squares capped
  distance_score embedding prototype = do
    distances ← squares embedding prototype
    let dist = fl.sqrt (fl.sum distances)
    pure (capped (fl.divide dist (fl.sqrt (fl.of_nat (length prototype)))))

  unfoldable pub novelty_result :
      CentroidModel F → F → Bool → String → Option String → Result (NoveltyResult F)
  unfolding checked_result
  novelty_result m score outside reason cluster = checked_result (record {
    novelty_score = score;
    is_outside_regime = outside;
    regime_reason = reason;
    cluster_id = cluster;
    model_version = m.model_version;
    config_version = m.config_version;
  })

  -- `NoveltyResult` of a stratum that no prototype stands for
  unfoldable pub unseen_stratum : CentroidModel F → NoveltyFeatures F → Result (NoveltyResult F)
  unfolding novelty_result generate_cluster_id novelty_stratum
  unseen_stratum m f =
      novelty_result m fl.one_float true "unseen_stratum"
        (some (generate_cluster_id f (novelty_stratum f)))

  -- The answer of the second step, for a score and whether it breaches the policy.
  unfoldable pub scored : CentroidModel F → NoveltyFeatures F → F → Bool → Result (NoveltyResult F)
  unfolding novelty_result generate_cluster_id novelty_stratum
  scored m f score outside =
      novelty_result m score outside
        (if outside then "embedding_distance_exceeded" else "in_regime")
        (if outside then some (generate_cluster_id f (novelty_stratum f)) else none)

  -- The second step, for an embedding and the prototype of its stratum.
  unfoldable pub by_distance :
      CentroidModel F
      → NoveltyPolicy F
      → NoveltyFeatures F
      → List F
      → List F
      → Result (NoveltyResult F)
  unfolding distance_score scored is_beyond_regime
  by_distance m active f embedding prototype = do
    raise_if (not (eqb (length embedding) (length prototype)))
        (value_error "Embedding dimension mismatch")
    score ← distance_score embedding prototype
    scored m f score (is_beyond_regime active score true)

  -- The second and third step, by the embedding and by the prototype of the stratum.
  unfoldable pub by_prototype :
      CentroidModel F
      → NoveltyPolicy F
      → NoveltyFeatures F
      → Option (List F)
      → Option (List F)
      → Result (NoveltyResult F)
  unfolding by_distance novelty_result unseen_stratum
  by_prototype m active f (some embedding) (some prototype) =
      by_distance m active f embedding prototype
  by_prototype m active f none (some prototype) =
      novelty_result m fl.zero_float false "in_regime" none
  by_prototype m active f embedding none =
      if is_filled m.prototypes
      then unseen_stratum m f
      else novelty_result m fl.zero_float false "in_regime" none

  -- `policy or self.policy`
  unfoldable pub active_policy : CentroidModel F → Option (NoveltyPolicy F) → NoveltyPolicy F
  active_policy m none = m.policy
  active_policy m (some p) = p

  -- The three steps, by the prototype of the stratum.
  unfoldable pub by_familiarity :
      CentroidModel F
      → NoveltyPolicy F
      → NoveltyFeatures F
      → Option (List F)
      → Result (NoveltyResult F)
  unfolding unseen_stratum by_prototype
  by_familiarity m active f prototype =
      if is_filled m.prototypes && not (is_some prototype) && active.reject_unseen_strata
      then unseen_stratum m f
      else by_prototype m active f f.embedding prototype

  -- `CentroidDistanceNoveltyModel.evaluate_novelty`
  unfoldable pub evaluate_novelty :
      CentroidModel F → NoveltyFeatures F → Option (NoveltyPolicy F) → Result (NoveltyResult F)
  unfolding active_policy by_familiarity get novelty_stratum
  evaluate_novelty m f policy =
      by_familiarity m (active_policy m policy) f (get (novelty_stratum f) m.prototypes)

  unfoldable pub score_against : List F → Option (List F) → Result F
  unfolding distance_score
  score_against embedding none = ok fl.one_float
  score_against embedding (some prototype) =
      raise_if (not (eqb (length embedding) (length prototype))) (value_error "Dimension mismatch")
      >> distance_score embedding prototype

  unfoldable pub score_novelty : List F → String → List (String × List F) → Result F
  unfolding checked_embedding score_against get
  score_novelty embedding stratum prototypes =
      checked_embedding embedding >> score_against embedding (get stratum prototypes)
