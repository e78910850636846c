-- ===== src/Backend/ConflictTests.antt =====
-- A record in dispute, and the theorems on blocking at it.
use land_record_digitalizati.Prelude.{
  String, ◌≡◌, ◌↔◌, ◌⊎◌, inl, inr, refl, true, false, none, List, [], ◌∷◌, some, is_some, ◌++◌,
  ◌<>◌, decimal, All, Any, arith, eq_iff,
}
use land_record_digitalizati.Backend.Entities.{Conflict, Record}
use land_record_digitalizati.Audit.World.{World}
use land_record_digitalizati.Backend.Publication.{
  Publish, publish_new_version, latest_version, checks_of,
}
use land_record_digitalizati.Backend.Publication.Versions.{
  Obstacle, Reported, Versioned, publish-blocked, publish-writes,
}
use land_record_digitalizati.Backend.Session.{Session, BlockReason, ok, err, publish_blocked}
use land_record_digitalizati.Backend.Conflicts.{
  CheckFn, attempt_publish, check_open_conflict, check_volume_completeness, is_publish_blocked,
}
use land_record_digitalizati.Backend.Conflicts.Blocking.{
  Disputes, AllReasons, is_publish_blocked_iff, attempt_publish-gate,
}

abbrev world : World
world = record {
  sha256 = λ s. s;
  uuid4 = λ n. "id" <> decimal n;
  clock = λ n. n;
  isoformat = decimal;
}

abbrev conflict : String → Conflict
conflict state = record {
  id = "k1";
  records = "r1" ∷ "r2" ∷ [];
  rule = "owner-mismatch";
  evidence = [];
  origin = "validator";
  state = state;
  assignee = none;
  opened_at = 4;
}

abbrev session : Session
session = record {
  log = record { entries = []; ticks = 0 };
  batches = [];
  documents = [];
  pages = [];
  extractions = [];
  decisions = [];
  review_tasks = [];
  audit_samples = [];
  conflicts = conflict "referred" ∷ conflict "resolved" ∷ [];
  alerts = [];
  corrections = [];
  pending = [];
  review_sessions = [];
  volume_indexes = [];
  records = [];
}

disputed : is_publish_blocked session "r2" ≡ true
unfolding is_publish_blocked check_open_conflict
disputed = refl

is_publish_blocked_iff_example :
    (is_publish_blocked session "r2" ≡ true) ↔ Any (Disputes "r2") session.conflicts
is_publish_blocked_iff_example = is_publish_blocked_iff session "r2"

abbrev checks : List CheckFn
checks = check_volume_completeness ∷ check_open_conflict ∷ []

attempt_publish-gate_example :
    (All (λ (check : CheckFn). check session "r1" ≡ none) checks
      × (attempt_publish "r1" checks session
          ≡ (ok (record { blocked = false; reasons = [] }), session)))
    ⊎ ((rs : List BlockReason) × Any
          (λ (check : CheckFn). is_some (check session "r1") ≡ true)
          checks
        × (attempt_publish "r1" checks session ≡ (err (publish_blocked rs), session))
        × AllReasons session "r1" checks rs)
attempt_publish-gate_example = attempt_publish-gate session "r1" checks

abbrev previous : Record
previous = record {
  id = "r1";
  record_group_id = "g1";
  version = 3;
  parcel_ref = some "12/4";
  ulpin = none;
  lgd_codes = none;
  status = "published";
  published_at = 1;
}

abbrev disputed_record : Session
disputed_record = record session { records = previous ∷ [] }

abbrev settled_record : Session
settled_record = record session { records = previous ∷ []; conflicts = conflict "resolved" ∷ [] }

abbrev request : Publish
request = record {
  record_group_id = some "g1";
  batch_id = none;
  actor = "asha";
  parcel_ref = none;
  ulpin = some "U1";
  lgd_codes = none;
}

dispute : Obstacle world request disputed_record
dispute = inr (
  "g1",
  previous,
  refl,
  λ same. absurd (ground (arith, (eq_iff "g1" "").1 same)),
  record { in_table = inl refl; own_group = refl; newer = (λ same. inl refl, tt) },
  inl (inl refl, inr (inr refl)),
)

publish-blocked_example :
    (rs : List BlockReason) × (publish_new_version world request disputed_record
      ≡ (err (publish_blocked rs), disputed_record))
    × Reported world request disputed_record rs dispute
publish-blocked_example = publish-blocked world request disputed_record dispute

publish-writes_example :
    (r : Record) × (t : Session) × (publish_new_version world request settled_record ≡ (ok r, t))
    × (t.records ≡ settled_record.records ++ r ∷ [])
    × Versioned world request settled_record r
    × (r.status ≡ "published")
unfolding check_open_conflict latest_version checks_of
publish-writes_example = publish-writes world request settled_record refl
