-- ===== src/Modelwork/SplitTests.antt =====
-- Three labels of two pages, the later page to evaluate.
use mathlib.Core.List.{Perm}
use land_record_digitalizati.Prelude.{◌/◌, List, [], ◌∷◌, ◌++◌, ◌≡◌, refl}
use land_record_digitalizati.Modelwork.Errors.{ok}
use land_record_digitalizati.Modelwork.Training.{CorrectionLabel}
use land_record_digitalizati.Modelwork.Splits.{page_digests, partition_training_and_evaluation}
use land_record_digitalizati.Modelwork.Splits.Isolation.{Isolated, partition-Isolated}
use land_record_digitalizati.Modelwork.Tests.{Milli, milli_floats, plain_texts, label}

abbrev late_label : CorrectionLabel Milli
late_label = record label { source_page_digest = "d2" }

abbrev three_labels : List (CorrectionLabel Milli)
three_labels = label ∷ late_label ∷ label ∷ []

three_labels_parted :
    partition_training_and_evaluation (λ n. n / 5) ("d9" ∷ []) three_labels
    ≡ ok (label ∷ label ∷ [], late_label ∷ [])
unfolding partition_training_and_evaluation page_digests
three_labels_parted = refl

partition-Isolated_example :
    (r : List (CorrectionLabel Milli) × List (CorrectionLabel Milli))
    × (partition_training_and_evaluation (λ n. n / 5) ("d9" ∷ []) three_labels ≡ ok r)
    × Isolated r
    × Perm (r.0 ++ r.1) three_labels
unfolding page_digests
partition-Isolated_example = partition-Isolated (λ n. n / 5) ("d9" ∷ []) three_labels refl
