-- ===== src/Modelwork/Stratum.antt =====
-- services/modelwork/src/modelwork/domain/stratum.py: the one definition of a stratum.
use land_record_digitalizati.Prelude.{String, [], ◌∷◌, join}

unfoldable pub stratum_key : String → String → String → String → String → String
stratum_key field_class script print_or_handwriting legibility_band writer_cluster_id =
    join "|"
      (field_class ∷ script ∷ print_or_handwriting ∷ legibility_band ∷ writer_cluster_id ∷ [])
