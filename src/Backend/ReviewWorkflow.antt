-- ===== src/Backend/ReviewWorkflow.antt =====
-- services/backend/src/backend/domain/review_workflow.py and audit_sample_verdict.py: claiming,
-- submitting and skipping a review task.
pub mod Oldest
pub mod Claiming
pub mod Tasks
pub mod Guards
use land_record_digitalizati.Prelude.{
  ℕ, String, Bool, true, false, not, ◌&&◌, Option, none, some, List, [], ◌∷◌, map, filter, find,
  ltb, ◌==◌, is_some, if◌then◌else◌, same_text,
}
use land_record_digitalizati.Audit.World.{World}
use land_record_digitalizati.Backend.Entities.{
  Extraction, ReviewTask, AuditSample, Correction, PendingCorrection, ReviewSession, ℤ,
}
use land_record_digitalizati.Backend.Session.{
  Session, Error, M, Result, ok, err, key_error, value_error, attribute_error,
  review_task_not_claimable, not_the_claimant, pure, raise, gets, or_raise, raise_if, modify,
  one_or_none, ◌>>=◌, ◌>>◌, entry, audit_append, fresh,
}
use land_record_digitalizati.Backend.ReviewSession.{touch_session}
use land_record_digitalizati.Backend.Decision.{extraction_of}
use land_record_digitalizati.Backend.Correction.{Submitted, submitted, held, submit_correction}

-- Neither claimed nor closed.
abbrev pub is_unclaimed : ReviewTask → Bool
is_unclaimed t = not (is_some t.assignee) && not (is_some t.closed_at)

-- `ORDER BY opened_at ASC LIMIT 1`
unfoldable pub oldest : List ReviewTask → Option ReviewTask
oldest [] = none
oldest (t ∷ ts) = elim (oldest ts) [
  | none ↦ some t
  | some u ↦ some (if ltb u.opened_at t.opened_at then u else t)
]

abbrev pub next_task : Session → Option ReviewTask
next_task s = oldest (filter is_unclaimed s.review_tasks)

abbrev pub update_task : String → (ReviewTask → ReviewTask) → Session → Session
update_task id f s = record s {
  review_tasks = map (λ t. if t.id == id then f t else t) s.review_tasks;
}

abbrev pub claimed : String → ℤ → ReviewTask → ReviewTask
claimed actor hour t = record t { assignee = some actor; hour_into_session = some hour }

unfoldable pub claim : World → String → Option ReviewTask → M (Option ReviewTask)
claim w actor none = pure none
claim w actor (some task) = do
  touch ← touch_session w actor
  modify (update_task task.id (claimed actor touch.1))
  pure (some (claimed actor touch.1 task))

unfoldable pub claim_next : World → String → M (Option ReviewTask)
unfolding claim oldest
claim_next w actor = do task ← gets next_task; claim w actor task

abbrev pub task_of : String → Session → Option ReviewTask
task_of id s = find (λ (t : ReviewTask). t.id == id) s.review_tasks

-- The guards that `submit` and `skip` share.
unfoldable pub own_task : String → String → M ReviewTask
own_task task_id actor = do
  task ← or_raise key_error (← gets (task_of task_id))
  raise_if (is_some task.closed_at) review_task_not_claimable
  raise_if (not (same_text task.assignee (some actor))) not_the_claimant
  pure task

-- `verdict in VALID_VERDICTS`
abbrev pub is_valid_verdict : String → Bool
is_valid_verdict v = if v == "agree" then true else v == "disagree"

abbrev pub judged : String → AuditSample → AuditSample
judged verdict a = record a { officer_verdict = verdict; agreed = some (verdict == "agree") }

abbrev pub update_sample : String → (AuditSample → AuditSample) → Session → Session
update_sample id f s = record s {
  audit_samples = map (λ a. if a.id == id then f a else a) s.audit_samples;
}

unfoldable pub record_officer_verdict : World → AuditSample → String → String → M (Unit {0})
record_officer_verdict w sample verdict actor = do
  raise_if (not (is_valid_verdict verdict)) value_error
  modify (update_sample sample.id (judged verdict))
  audit_append w (
      entry actor "audit_sample.verdict_recorded" (some sample.extraction_id)
        (some "audit_verdict"))

abbrev pub samples_of_task : String → Session → List AuditSample
samples_of_task id s =
    filter (λ (a : AuditSample). same_text a.review_task_id (some id)) s.audit_samples

-- A verdict is recorded where the task has a sample and the officer gave one.
unfoldable pub judge : World → Option AuditSample → Option String → String → M (Unit {0})
judge w (some sample) (some verdict) actor = record_officer_verdict w sample verdict actor
judge w _ _ actor = pure tt

abbrev pub closed : ℕ → ReviewTask → ReviewTask
closed now t = record t { closed_at = some now }

-- What `submit` returns.
pub record SubmitResult : Type 0 where
  pub task_id : String
  pub extraction_id : String
  pub correction_id : Option String
  pub pending_correction_id : Option String
  pub maker_checker_pending : Bool

unfoldable pub submit_result : ReviewTask → Extraction → Submitted → SubmitResult
submit_result task x (submitted c) = record {
  task_id = task.id;
  extraction_id = x.id;
  correction_id = some c.id;
  pending_correction_id = none;
  maker_checker_pending = false;
}
submit_result task x (held p) = record {
  task_id = task.id;
  extraction_id = x.id;
  correction_id = none;
  pending_correction_id = some p.id;
  maker_checker_pending = true;
}

-- The last statements of `submit`.
unfoldable pub close : World → ReviewTask → String → M (Unit {0})
unfolding fresh
close w task actor = do
  tick ← fresh
  modify (update_task task.id (closed (w.clock tick)))
  audit_append w (entry actor "review.task.submit" (some task.id) (some "review_submit"))

-- A missing extraction is `None`, and reading its `page_id` raises.
unfoldable pub submit_own : World → ReviewTask → String → String → Option String → M SubmitResult
unfolding one_or_none
submit_own w task actor corrected_value verdict = do
  x ← or_raise attribute_error (← gets (extraction_of task.extraction_id))
  result ← submit_correction w x corrected_value actor task.source_stream
  sample ← one_or_none (← gets (samples_of_task task.id))
  judge w sample verdict actor
  close w task actor
  pure (submit_result task x result)

unfoldable pub submit : World → String → String → String → Option String → M SubmitResult
submit w task_id actor corrected_value verdict = do
  task ← own_task task_id actor
  submit_own w task actor corrected_value verdict

abbrev pub released : ReviewTask → ReviewTask
released t = record t { assignee = none }

unfoldable pub release : World → ReviewTask → String → M (Unit {0})
release w task actor = do
  modify (update_task task.id released)
  audit_append w (entry actor "review.task.skip" (some task.id) none)

unfoldable pub skip : World → String → String → M (Unit {0})
skip w task_id actor = do task ← own_task task_id actor; release w task actor
