-- ===== src/Backend/Tests.antt =====
-- Small tables, and the theorems of this part at them.
use land_record_digitalizati.Prelude.{
  String, ◌≡◌, refl, ◌<>◌, Option, none, some, [], ◌∷◌, decimal, arith,
}
use land_record_digitalizati.Audit.World.{World}
use land_record_digitalizati.Backend.Entities.{Extraction}
use land_record_digitalizati.Backend.Session.{Session, ok, err, extraction_not_found}
use land_record_digitalizati.Backend.Decision.{RouteResult, route}
use land_record_digitalizati.Backend.Decision.Once.{Undecided, Decided, route-decides}
use land_record_digitalizati.Backend.Decision.Again.{
  OneDecision, route-raises, route-again, route-OneDecision,
}

abbrev pub world : World
world = record {
  sha256 = λ s. s;
  uuid4 = λ n. "id" <> decimal n;
  clock = λ n. n;
  isoformat = decimal;
}

abbrev extraction : String → Option String → Extraction
extraction id outcome = record {
  id = id;
  page_id = "p1";
  field_name = "owner_name";
  raw_value = "Ramesh";
  canonical_value = none;
  bbox = "[0, 0, 10, 10]";
  model_version = none;
  config_version = none;
  calibrated_confidence = none;
  routing_outcome = outcome;
  entry_status = "extracted";
}

abbrev pub empty_session : Session
empty_session = record {
  log = record { entries = []; ticks = 0 };
  batches = [];
  documents = [];
  pages = [];
  extractions = extraction "x1" (some "audit_sample") ∷ extraction "x2" none ∷ [];
  decisions = [];
  review_tasks = [];
  audit_samples = [];
  conflicts = [];
  alerts = [];
  corrections = [];
  pending = [];
  review_sessions = [];
  volume_indexes = [];
  records = [];
}

undecided : Undecided "x1" empty_session (extraction "x1" (some "audit_sample"))
undecided = record { found = refl; valid = refl; fresh = refl }

route-decides_example :
    (res : RouteResult) × (t : Session) × (route world "x1" none none empty_session ≡ (ok res, t))
    × Decided (extraction "x1" (some "audit_sample")) none empty_session t
route-decides_example =
    route-decides world (extraction "x1" (some "audit_sample")) none none empty_session "x1"
      undecided

missing : (route world "x9" none none empty_session).0 ≡ err extraction_not_found
unfolding route
missing = refl

route-raises_example : (route world "x9" none none empty_session).1 ≡ empty_session
route-raises_example = route-raises world "x9" none none empty_session extraction_not_found missing

route-again_example :
    (route world "x1" (some "c") none (route world "x1" none none empty_session).1).1
    ≡ (route world "x1" none none empty_session).1
route-again_example = route-again world "x1" none none (some "c") none empty_session

none_decided : OneDecision empty_session
none_decided x = ground arith

route-OneDecision_example : OneDecision (route world "x1" none none empty_session).1
route-OneDecision_example = route-OneDecision world "x1" none none empty_session none_decided
