-- ===== src/Backend/Decision.antt =====
-- services/backend/src/backend/domain/decision.py: routing an extraction to one of five outcomes.
pub mod Effects
pub mod Replay
pub mod Once
pub mod Again
use land_record_digitalizati.Prelude.{
  ℕ, ◌+◌, ◌-◌, String, ◌<>◌, Bool, true, false, not, ◌&&◌, ◌||◌, Option, none, some, List, [], ◌∷◌,
  ◌++◌, map, filter, find, ◌==◌, leb, ltb, if◌then◌else◌, or_empty,
}
use land_record_digitalizati.Audit.World.{World}
use land_record_digitalizati.Audit.Chain.{truthy}
use land_record_digitalizati.Backend.Entities.{
  Extraction, DecisionRecord, ReviewTask, AuditSample, Conflict, OperationalAlert,
}
use land_record_digitalizati.Backend.Session.{
  Session, Error, M, Result, ok, err, extraction_not_found, unroutable_extraction,
  already_decided_with_different_outcome, pure, raise, gets, or_raise, raise_if, modify, ◌>>=◌,
  ◌>>◌, one_or_none, entry, audit_append, fresh, contains,
}
use land_record_digitalizati.Backend.Policy.{is_valid_outcome, novelty_cluster_alert_dedup_window}
use land_record_digitalizati.Backend.PageLifecycle.{mark_processed_if_terminal}

-- The dictionary that `route` returns, one constructor for each value of `outcome`.
pub data Routed : Type 0 where
  auto_accepted : String → Routed
  audit_sampled : Option String → Option String → Routed
  review_opened : Option String → Routed
  conflict_opened : Option String → Routed
  outside_regime : String → Option String → Bool → Routed

pub record RouteResult : Type 0 where
  pub routed : Routed
  pub replayed : Bool

unfoldable pub new_task : World → Extraction → String → ℕ → ReviewTask
new_task w x stream tick = record {
  id = w.uuid4 tick;
  extraction_id = x.id;
  reason = none;
  source_stream = stream;
  assignee = none;
  opened_at = w.clock tick;
  closed_at = none;
  hour_into_session = none;
}

abbrev pub add_task : ReviewTask → Session → Session
add_task t s = record s { review_tasks = s.review_tasks ++ t ∷ [] }

unfoldable pub targeted_review : World → Extraction → M Routed
unfolding fresh
targeted_review w x = do
  tick ← fresh
  modify (add_task (new_task w x "routed" tick))
  pure (review_opened (some (w.uuid4 tick)))

unfoldable pub new_sample : World → Extraction → String → ℕ → AuditSample
new_sample w x task tick = record {
  id = w.uuid4 tick;
  extraction_id = x.id;
  review_task_id = some task;
  model_confidence = x.calibrated_confidence;
  officer_verdict = "pending";
  agreed = none;
}

abbrev pub add_sample : AuditSample → Session → Session
add_sample a s = record s { audit_samples = s.audit_samples ++ a ∷ [] }

unfoldable pub audit_sample : World → Extraction → M Routed
unfolding fresh
audit_sample w x = do
  tick ← fresh
  modify (add_task (new_task w x "audit" tick))
  tick' ← fresh
  modify (add_sample (new_sample w x (w.uuid4 tick) tick'))
  pure (audit_sampled (some (w.uuid4 tick)) (some (w.uuid4 tick')))

unfoldable pub new_conflict : World → Extraction → ℕ → Conflict
new_conflict w x tick = record {
  id = w.uuid4 tick;
  records = x.id ∷ [];
  rule = "pending-validator-evidence-wiring";
  evidence = ("extraction_id", x.id) ∷ [];
  origin = "validator";
  state = "open";
  assignee = none;
  opened_at = w.clock tick;
}

abbrev pub add_conflict : Conflict → Session → Session
add_conflict c s = record s { conflicts = s.conflicts ++ c ∷ [] }

unfoldable pub open_conflict_placeholder : World → Extraction → M Routed
unfolding fresh
open_conflict_placeholder w x = do
  tick ← fresh
  modify (add_conflict (new_conflict w x tick))
  pure (conflict_opened (some (w.uuid4 tick)))

-- An alert of the cluster that was opened at the cutoff or later.
abbrev pub in_window : String → ℕ → OperationalAlert → Bool
in_window cluster_key cutoff a =
    a.kind == "outside_calibrated_regime"
    && (a.cluster_key == cluster_key && leb cutoff a.opened_at)

-- `ORDER BY opened_at DESC LIMIT 1`
unfoldable pub latest_alert : List OperationalAlert → Option OperationalAlert
latest_alert [] = none
latest_alert (a ∷ as') = elim (latest_alert as') [
  | none ↦ some a
  | some b ↦ some (if ltb a.opened_at b.opened_at then b else a)
]

abbrev pub fold_in : String → OperationalAlert → OperationalAlert
fold_in x a =
    if contains x a.extraction_ids
    then a
    else record a { extraction_ids = a.extraction_ids ++ x ∷ [] }

abbrev pub update_alert : String → (OperationalAlert → OperationalAlert) → Session → Session
update_alert id f s = record s { alerts = map (λ a. if a.id == id then f a else a) s.alerts }

unfoldable pub new_alert : World → Extraction → String → ℕ → OperationalAlert
new_alert w x cluster_key tick = record {
  id = w.uuid4 tick;
  kind = "outside_calibrated_regime";
  cluster_key = cluster_key;
  extraction_ids = x.id ∷ [];
  opened_at = w.clock tick;
}

abbrev pub add_alert : OperationalAlert → Session → Session
add_alert a s = record s { alerts = s.alerts ++ a ∷ [] }

unfoldable pub raise_alert : World → Extraction → String → Option OperationalAlert → M Routed
unfolding fresh
raise_alert w x cluster_key (some existing) = do
  modify (update_alert existing.id (fold_in x.id))
  pure (outside_regime x.id (some existing.id) true)
raise_alert w x cluster_key none = do
  tick ← fresh
  modify (add_alert (new_alert w x cluster_key tick))
  pure (outside_regime x.id (some (w.uuid4 tick)) false)

unfoldable pub outside_calibrated_regime : World → Extraction → String → M Routed
unfolding fresh raise_alert latest_alert
outside_calibrated_regime w x cluster_key = do
  tick ← fresh
  existing ← gets (λ s.
      latest_alert (
        filter (in_window cluster_key (w.clock tick - novelty_cluster_alert_dedup_window))
          s.alerts))
  raise_alert w x cluster_key existing

-- The rows that a replay reports.
abbrev pub tasks_of : String → Session → List ReviewTask
tasks_of x s = filter (λ (t : ReviewTask). t.extraction_id == x) s.review_tasks

abbrev samples_of : String → Session → List AuditSample
samples_of x s = filter (λ (a : AuditSample). a.extraction_id == x) s.audit_samples

abbrev conflicts_of : String → Session → List Conflict
conflicts_of x s = filter (λ (c : Conflict). contains x c.records) s.conflicts

abbrev alerts_of : String → Session → List OperationalAlert
alerts_of x s = filter (λ (a : OperationalAlert). contains x a.extraction_ids) s.alerts

abbrev id_of {ℓ} : {A : Type ℓ} → (A → String) → Option A → Option String
id_of f none = none
id_of f (some a) = some (f a)

unfoldable pub replay : String → String → M Routed
unfolding one_or_none
replay x outcome =
    if outcome == "auto_accept"
    then pure (auto_accepted x)
    else if outcome == "review"
    then (do
      task ← one_or_none (← gets (tasks_of x))
      pure (review_opened (id_of (λ (t : ReviewTask). t.id) task)))
    else if outcome == "audit_sample"
    then (do
      task ← one_or_none (← gets (tasks_of x))
      sample ← one_or_none (← gets (samples_of x))
      pure (
          audit_sampled (id_of (λ (t : ReviewTask). t.id) task)
            (id_of (λ (a : AuditSample). a.id) sample)))
    else if outcome == "conflict"
    then (do
      conflict ← one_or_none (← gets (conflicts_of x))
      pure (conflict_opened (id_of (λ (c : Conflict). c.id) conflict)))
    else (do
      alert ← one_or_none (← gets (alerts_of x))
      pure (outside_regime x (id_of (λ (a : OperationalAlert). a.id) alert) true))

-- `novelty_cluster_id or extraction.id`
abbrev pub cluster_or : Option String → String → String
cluster_or c id = if truthy c then or_empty c else id

unfoldable pub decide : World → Extraction → String → Option String → M Routed
decide w x outcome cluster =
    if outcome == "auto_accept"
    then pure (auto_accepted x.id)
    else if outcome == "audit_sample"
    then audit_sample w x
    else if outcome == "review"
    then targeted_review w x
    else if outcome == "conflict"
    then open_conflict_placeholder w x
    else outside_calibrated_regime w x (cluster_or cluster x.id)

unfoldable pub new_decision : World → Extraction → String → Option String → ℕ → DecisionRecord
new_decision w x outcome envelope tick = record {
  id = w.uuid4 tick;
  extraction_id = x.id;
  outcome = outcome;
  envelope_id = envelope;
  decided_at = w.clock tick;
}

abbrev pub add_decision : DecisionRecord → Session → Session
add_decision d s = record s { decisions = s.decisions ++ d ∷ [] }

-- What follows a decision: its record, its audit entry, and the page.
unfoldable pub conclude : World → Extraction → String → Option String → Routed → M RouteResult
unfolding fresh
conclude w x outcome envelope result = do
  tick ← fresh
  modify (add_decision (new_decision w x outcome envelope tick))
  audit_append w (entry "system:decision-engine" ("decision.route." <> outcome) (some x.id) none)
  mark_processed_if_terminal w x.page_id
  pure (record { routed = result; replayed = false })

abbrev pub decisions_of : String → Session → List DecisionRecord
decisions_of x s = filter (λ (d : DecisionRecord). d.extraction_id == x) s.decisions

unfoldable pub route_decided : Extraction → String → DecisionRecord → M RouteResult
route_decided x outcome existing = do
  raise_if (not (existing.outcome == outcome)) already_decided_with_different_outcome
  routed ← replay x.id outcome
  pure (record { routed = routed; replayed = true })

unfoldable pub route_first :
    World → Extraction → String → Option String → Option String → M RouteResult
route_first w x outcome cluster envelope = do
  result ← decide w x outcome cluster
  conclude w x outcome envelope result

unfoldable pub route_by :
    World
    → Extraction
    → String
    → Option String
    → Option String
    → Option DecisionRecord
    → M RouteResult
route_by w x outcome cluster envelope none = route_first w x outcome cluster envelope
route_by w x outcome cluster envelope (some existing) = route_decided x outcome existing

abbrev pub extraction_of : String → Session → Option Extraction
extraction_of id s = find (λ (x : Extraction). x.id == id) s.extractions

unfoldable pub route_known : World → Extraction → Option String → Option String → M RouteResult
unfolding one_or_none
route_known w x cluster envelope = do
  raise_if (not (is_valid_outcome x.routing_outcome)) unroutable_extraction
  decided ← one_or_none (← gets (decisions_of x.id))
  route_by w x (or_empty x.routing_outcome) cluster envelope decided

unfoldable pub route : World → String → Option String → Option String → M RouteResult
route w extraction_id cluster envelope = do
  x ← or_raise extraction_not_found (← gets (extraction_of extraction_id))
  route_known w x cluster envelope
