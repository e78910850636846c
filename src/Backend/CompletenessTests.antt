-- ===== src/Backend/CompletenessTests.antt =====
-- A volume with a missing page, and the theorems on completeness at it.
use land_record_digitalizati.Prelude.{
  ℕ, ◌≤◌, String, ◌≡◌, ◌↔◌, ◌≢◌, arith, refl, ◌<>◌, none, some, [], ◌∷◌, decimal, true, false,
}
use land_record_digitalizati.Audit.World.{World}
use land_record_digitalizati.Backend.Entities.{Page, VolumeIndex}
use land_record_digitalizati.Backend.Session.{Session, ok}
use land_record_digitalizati.Backend.Completeness.{
  among, gaps_of, expected_of, observed_in, volume_of, rebuild, current_alert,
}
use land_record_digitalizati.Backend.Completeness.Gaps.{gaps_of_iff}
use land_record_digitalizati.Backend.Completeness.Acknowledging.{
  Closed, no_rebuild, rebuild_next, rebuild-current_alert, rebuild-acknowledged,
}

abbrev world : World
world = record {
  sha256 = λ s. s;
  uuid4 = λ n. "id" <> decimal n;
  clock = λ n. n;
  isoformat = decimal;
}

abbrev page : String → ℕ → Page
page id i = record { id = id; document_id = "d1"; storage_uri = none; index_position = some i }

abbrev volume : String → VolumeIndex
volume state = record {
  id = "v1";
  batch_id = "b1";
  expected_sequence = 3 ∷ 4 ∷ 5 ∷ [];
  observed_sequence = 3 ∷ 5 ∷ [];
  gaps = 4 ∷ [];
  state = state;
}

abbrev with_volume : VolumeIndex → Session
with_volume v = record {
  log = record { entries = []; ticks = 0 };
  batches = [];
  documents = record { id = "d1"; batch_id = "b1" } ∷ [];
  pages = page "p1" 7 ∷ page "p2" 3 ∷ [];
  extractions = [];
  decisions = [];
  review_tasks = [];
  audit_samples = [];
  conflicts = [];
  alerts = [];
  corrections = [];
  pending = [];
  review_sessions = [];
  volume_indexes = v ∷ [];
  records = [];
}

missing : gaps_of (observed_in (with_volume (volume "pending")) "b1") ≡ 4 ∷ 5 ∷ 6 ∷ []
unfolding gaps_of expected_of
missing = refl

gaps_of_iff_example :
    (among 4 (gaps_of (3 ∷ 5 ∷ [])) ≡ true) ↔ ((3 ≤ 4) × (4 ≤ 5) × (among 4 (3 ∷ 5 ∷ []) ≡ false))
gaps_of_iff_example = gaps_of_iff 3 5 (5 ∷ []) 4 refl

abbrev waiting : Session
waiting = with_volume (volume "gap_detected")

rebuild-current_alert_example :
    (r : VolumeIndex) × (t : Session) × (rebuild world "b1" waiting ≡ (ok r, t))
    × (volume_of "b1" t ≡ some r)
    × (r.observed_sequence ≡ observed_in waiting "b1")
    × (r.gaps ≡ gaps_of (observed_in waiting "b1"))
    × (gaps_of (observed_in waiting "b1") ≡ [] → Closed "b1" r t)
    × (gaps_of (observed_in waiting "b1") ≢ []
        → (volume "gap_detected").state ≡ "acknowledged"
        → (r.state ≡ "acknowledged") × (current_alert t "b1" ≡ none))
    × (gaps_of (observed_in waiting "b1") ≢ []
        → (volume "gap_detected").state ≢ "acknowledged"
        → (r.state ≡ "gap_detected")
          × (current_alert t "b1"
              ≡ some (record {
                batch_id = "b1";
                missing_index_positions = gaps_of (observed_in waiting "b1");
              })))
rebuild-current_alert_example =
    rebuild-current_alert world "b1" waiting (volume "gap_detected") refl

abbrev accepted : Session
accepted = with_volume (volume "acknowledged")

-- A page that comes in after the acknowledgement; other positions are still missing.
abbrev with_page : Session
with_page = record accepted { pages = page "p3" 9 ∷ accepted.pages }

still_missing : gaps_of (observed_in with_page "b1") ≢ []
unfolding gaps_of expected_of
still_missing h = ground arith

rebuild-acknowledged_example : current_alert (rebuild world "b1" with_page).1 "b1" ≡ none
rebuild-acknowledged_example =
    rebuild-acknowledged world "b1" accepted (rebuild world "b1" with_page).1
      (volume "acknowledged") refl refl (rebuild_next no_rebuild with_page refl still_missing)
