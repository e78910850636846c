-- ===== src/Backend/Policy.antt =====
-- services/backend/src/backend/domain/review_policy.py, and the outcomes of decision.py.
use land_record_digitalizati.Prelude.{
  ℕ, ◌*◌, String, Bool, false, Option, none, some, List, [], ◌∷◌,
}
use land_record_digitalizati.Backend.Session.{contains}

abbrev pub valid_routing_outcomes : List String
valid_routing_outcomes =
    "auto_accept" ∷ "audit_sample" ∷ "review" ∷ "conflict" ∷ "outside_calibrated_regime" ∷ []

-- `outcome in VALID_ROUTING_OUTCOMES`
abbrev pub is_valid_outcome : Option String → Bool
is_valid_outcome none = false
is_valid_outcome (some o) = contains o valid_routing_outcomes

abbrev pub maker_checker_edit_distance_threshold : ℕ
maker_checker_edit_distance_threshold = 4

abbrev pub maker_checker_field_classes : List String
maker_checker_field_classes = "owner_name" ∷ "share_fraction" ∷ "area" ∷ "survey_number" ∷ []

abbrev pub blocking_conflict_states : List String
blocking_conflict_states = "open" ∷ "under_enquiry" ∷ "referred" ∷ []

-- A second of the clock.
abbrev pub second : ℕ
second = 1_000_000

abbrev pub novelty_cluster_alert_dedup_window : ℕ
novelty_cluster_alert_dedup_window = 6 * 3600 * second

abbrev pub review_session_gap : ℕ
review_session_gap = 3600 * second
