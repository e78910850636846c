-- ===== src/Modelwork/Splits.antt =====
-- services/modelwork/src/modelwork/domain/learning_loop/guard.py and partition_training_and_evaluation of
-- domain/calibration/calibrator.py.
pub mod Isolation
use land_record_digitalizati.Prelude.{
  ℕ, ◌-◌, String, Bool, List, [], map, filter, any, take, drop, length, leb, if◌then◌else◌,
}
use land_record_digitalizati.Backend.Session.{contains}
use land_record_digitalizati.Modelwork.Errors.{
  leakage_detected, Result, ok, pure, ◌>>=◌, ◌>>◌, raise_if,
}
use land_record_digitalizati.Modelwork.Runtime.{Texts, is_filled, sorted, distinct}
use land_record_digitalizati.Modelwork.Training.{CorrectionLabel}

unfoldable pub assert_no_leakage : List String → List String → Result (Unit {0})
assert_no_leakage training exclusion =
    raise_if (any (λ (d : String). contains d exclusion) training) leakage_detected

-- `max(1, n)`
abbrev pub at_least_one : ℕ → ℕ
at_least_one n = if leb n 0 then 1 else n

-- The pages to train on and those to evaluate; `portion` is `int(num_pages * eval_fraction)`.
unfoldable pub split_pages : (ℕ → ℕ) → List String → List String × List String
split_pages portion digests =
    let num_pages = length digests in
    let first = num_pages - at_least_one (portion num_pages) in
    if leb num_pages 1 then (digests, []) else (take first digests, drop first digests)

module _ {F : Type 0} where
  abbrev pub labels_of : List String → List (CorrectionLabel F) → List (CorrectionLabel F)
  labels_of digests = filter (λ (l : CorrectionLabel F). contains l.source_page_digest digests)

  abbrev pub digests_of : List (CorrectionLabel F) → List String
  digests_of = map (λ (l : CorrectionLabel F). l.source_page_digest)

module _ {F : Type 0} ⦃tx : Texts⦄ where
  unfoldable pub page_digests : List (CorrectionLabel F) → List String
  unfolding sorted distinct
  page_digests labels = sorted (distinct (digests_of labels))

  unfoldable pub partition_training_and_evaluation :
      (ℕ → ℕ)
      → List String
      → List (CorrectionLabel F)
      → Result (List (CorrectionLabel F) × List (CorrectionLabel F))
  unfolding page_digests assert_no_leakage split_pages
  partition_training_and_evaluation portion exclusion labels =
      let digests = page_digests labels in
      let pages = split_pages portion digests in
      (if is_filled exclusion then assert_no_leakage digests exclusion else ok tt)
      >> assert_no_leakage (pages.0) (pages.1)
      >> ok (labels_of (pages.0) labels, labels_of (pages.1) labels)
