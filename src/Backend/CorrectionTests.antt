-- ===== src/Backend/CorrectionTests.antt =====
-- Corrections of a name, and the theorems on corrections at them.
use land_record_digitalizati.Prelude.{◌≤◌, ◌≡◌, refl, ◌<>◌, none, some, [], ◌∷◌, decimal}
use land_record_digitalizati.Audit.World.{World}
use land_record_digitalizati.Backend.Entities.{Extraction, Page, Correction, PendingCorrection}
use land_record_digitalizati.Backend.Session.{
  Session, Result, ok, err, audit_append, pending_correction_already_resolved,
}
use land_record_digitalizati.Backend.EditDistance.{chars, edit_distance}
use land_record_digitalizati.Backend.EditDistance.Scripts.{Edits, insert, keep, done}
use land_record_digitalizati.Backend.EditDistance.Table.{edit_distance-Edits, edit_distance-least}
use land_record_digitalizati.Backend.Correction.{
  Submitted, submit_correction, confirm_pending_correction, confirmed_correction, after_slash,
  confirm_by, same_actor, claimant_of, confirm,
}
use land_record_digitalizati.Backend.Correction.Confirming.{
  Confirmed, confirm-distinct, confirm-once,
}
use land_record_digitalizati.Backend.Correction.Submitting.{Stored, submit-Stored}

abbrev world : World
world = record {
  sha256 = λ s. s;
  uuid4 = λ n. "id" <> decimal n;
  clock = λ n. n;
  isoformat = decimal;
}

kitten : edit_distance "kitten" "sitting" ≡ 3
unfolding edit_distance
kitten = refl

edit_distance-Edits_example :
    Edits (chars "kitten") (chars "sitting") (edit_distance "kitten" "sitting")
edit_distance-Edits_example = edit_distance-Edits "kitten" "sitting"

edit_distance-least_example : edit_distance "ab" "abc" ≤ 1
edit_distance-least_example = edit_distance-least "ab" "abc" 1 (keep (keep (insert done)))

abbrev extraction : Extraction
extraction = record {
  id = "x1";
  page_id = "p1";
  field_name = "owner_name";
  raw_value = "Ramesh";
  canonical_value = none;
  bbox = "[0, 0, 10, 10]";
  model_version = none;
  config_version = none;
  calibrated_confidence = none;
  routing_outcome = some "review";
  entry_status = "extracted";
}

abbrev page : Page
page = record {
  id = "p1";
  document_id = "d1";
  storage_uri = some "sha256/ab/cd/abcd";
  index_position = none;
}

abbrev held_correction : PendingCorrection
held_correction = record {
  id = "c1";
  extraction_id = "x1";
  crop_uri = "/pages/p1/crop";
  predicted = "Ramesh";
  corrected = "Suresh Kumar";
  edit_distance = 8;
  field_class = "owner_name";
  first_actor = "asha";
  model_version = none;
  config_version = none;
  stream = "routed";
  source_page_digest = "abcd";
  state = "pending";
  confirmed_by = none;
  confirmed_at = none;
  resulting_correction_id = none;
}

abbrev session : Session
session = record {
  log = record { entries = []; ticks = 0 };
  batches = [];
  documents = [];
  pages = page ∷ [];
  extractions = extraction ∷ [];
  decisions = [];
  review_tasks = [];
  audit_samples = [];
  conflicts = [];
  alerts = [];
  corrections = [];
  pending = held_correction ∷ [];
  review_sessions = [];
  volume_indexes = [];
  records = [];
}

digest : after_slash "sha256/ab/cd/abcd" "sha256/ab/cd/abcd" ≡ "abcd"
unfolding after_slash
digest = refl

submit-Stored_example :
    (r : Submitted) × (t : Session) × (submit_correction world extraction "Suresh Kumar" "asha"
        "routed" session
      ≡ (ok r, t))
    × Stored extraction "Suresh Kumar" "asha"
        (after_slash "sha256/ab/cd/abcd" "sha256/ab/cd/abcd")
        session
        t
        r
submit-Stored_example =
    submit-Stored world extraction "Suresh Kumar" "asha" "routed" session page refl refl

abbrev no_pages : Session
no_pages = record session { pages = [] }

abbrev confirmed : Result Correction × Session
confirmed = confirm_pending_correction world "c1" "ravi" session

confirmed_result :
    confirmed ≡ (ok (confirmed_correction world held_correction "ravi" 0), confirmed.1)
unfolding confirm_pending_correction confirmed_correction confirm_by same_actor claimant_of confirm
    audit_append
confirmed_result = refl

confirm-distinct_example :
    Confirmed "c1" "ravi" session confirmed.1 (confirmed_correction world held_correction "ravi" 0)
confirm-distinct_example =
    confirm-distinct world "c1" "ravi" session confirmed.1
      (confirmed_correction world held_correction "ravi" 0) confirmed_result

confirm-once_example :
    confirm_pending_correction world "c1" "asha" confirmed.1
    ≡ (err pending_correction_already_resolved, confirmed.1)
confirm-once_example =
    confirm-once world "c1" "ravi" "asha" session confirmed.1
      (confirmed_correction world held_correction "ravi" 0) confirmed_result
