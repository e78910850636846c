-- ===== src/Backend/Publication.antt =====
-- services/backend/src/backend/domain/publication.py: the next version of a record.
pub mod Versions
pub mod Latest
use land_record_digitalizati.Prelude.{
  ℕ, ◌+◌, String, ◌<>◌, decimal, Bool, true, false, Option, none, some, List, [], ◌∷◌, ◌++◌, filter,
  find, ltb, ◌==◌, if◌then◌else◌, or_empty,
}
use land_record_digitalizati.Audit.World.{World}
use land_record_digitalizati.Audit.Chain.{truthy}
use land_record_digitalizati.Backend.Entities.{Batch, Record}
use land_record_digitalizati.Backend.Session.{
  Session, M, Result, ok, err, pure, gets, modify, ◌>>=◌, ◌>>◌, fresh, entry, audit_append,
}
use land_record_digitalizati.Backend.PageLifecycle.{district_key}
use land_record_digitalizati.Backend.Conflicts.{
  CheckFn, check_volume_completeness, check_open_conflict, attempt_publish,
}

abbrev pub in_group : String → Record → Bool
in_group group r = r.record_group_id == group

-- `ORDER BY version DESC LIMIT 1`
unfoldable pub newest : List Record → Option Record
newest [] = none
newest (r ∷ rs) = elim (newest rs) [
  | none ↦ some r
  | some q ↦ some (if ltb r.version q.version then q else r)
]

unfoldable pub latest_version : Session → String → Option Record
unfolding newest
latest_version s group = newest (filter (in_group group) s.records)

-- `latest_version(session, record_group_id) if record_group_id else None`
abbrev pub previous_of : Session → Option String → Option Record
previous_of s group = if truthy group then latest_version s (or_empty group) else none

abbrev pub batch_checks : Option String → List CheckFn
batch_checks none = []
batch_checks (some batch_id) = (λ s subject. check_volume_completeness s batch_id) ∷ []

abbrev pub conflict_checks : Option Record → List CheckFn
conflict_checks none = []
conflict_checks (some previous) = (λ s subject. check_open_conflict s previous.id) ∷ []

unfoldable pub checks_of : Option String → Option Record → List CheckFn
checks_of batch_id previous = batch_checks batch_id ++ conflict_checks previous

-- `record_group_id or batch_id or "new-record"`
abbrev pub subject_of : Option String → Option String → String
subject_of group batch_id =
    if truthy group
    then or_empty group
    else if truthy batch_id
    then or_empty batch_id
    else "new-record"

abbrev pub next_version : Option Record → ℕ
next_version none = 1
next_version (some previous) = previous.version + 1

-- A value that was not given is taken from the previous version.
abbrev pub carried : Option String → Option Record → (Record → Option String) → Option String
carried (some v) previous field = some v
carried none none field = none
carried none (some r) field = field r

-- What the caller passes.
pub record Publish : Type 0 where
  pub record_group_id : Option String
  pub batch_id : Option String
  pub actor : String
  pub parcel_ref : Option String
  pub ulpin : Option String
  pub lgd_codes : Option String

abbrev group_or : Option String → String → String
group_or none fresh_id = fresh_id
group_or (some g) fresh_id = g

-- The row of the next version; the columns' defaults are its id and, for a new record, its group.
unfoldable pub new_version : World → Publish → Option Record → ℕ → Record
new_version w p previous tick = record {
  id = w.uuid4 tick;
  record_group_id = group_or p.record_group_id (w.uuid4 (tick + 1));
  version = next_version previous;
  parcel_ref = carried p.parcel_ref previous (λ r. r.parcel_ref);
  ulpin = carried p.ulpin previous (λ r. r.ulpin);
  lgd_codes = carried p.lgd_codes previous (λ r. r.lgd_codes);
  status = "published";
  published_at = w.clock tick;
}

unfoldable pub district_of : Option String → Session → Option String
district_of none s = none
district_of (some batch_id) s = elim (find (λ (b : Batch). b.id == batch_id) s.batches) [
  | none ↦ none
  | some b ↦ some b.district
]

-- `record_publish` of audit_log.py
unfoldable pub record_publish : World → String → Record → Option String → M (Unit {0})
record_publish w actor r district =
    audit_append w
      (record (entry actor "record.published" (some (r.record_group_id <> ":" <> decimal r.version))
        none) { shard_key = district_key district; district = district })

unfoldable pub write_version : World → Publish → Option Record → M Record
unfolding fresh
write_version w p previous = do
  tick ← fresh
  fresh
  modify (λ s. record s { records = s.records ++ new_version w p previous tick ∷ [] })
  district ← gets (district_of p.batch_id)
  record_publish w p.actor (new_version w p previous tick) district
  pure (new_version w p previous tick)

unfoldable pub publish_new_version : World → Publish → M Record
publish_new_version w p = do
  previous ← gets (λ s. previous_of s p.record_group_id)
  attempt_publish (subject_of p.record_group_id p.batch_id) (checks_of p.batch_id previous)
  write_version w p previous
