-- ===== src/Backend/ReviewTests.antt =====
-- Two tasks of a queue, and the theorems on the review of tasks at them.
use land_record_digitalizati.Prelude.{
  inl, inr, ℕ, String, ◌≡◌, ◌≢◌, refl, ◌<>◌, Option, none, some, List, [], ◌∷◌, decimal, false,
}
use land_record_digitalizati.Audit.World.{World}
use land_record_digitalizati.Backend.Entities.{Extraction, Page, ReviewTask, pos}
use land_record_digitalizati.Backend.Session.{
  Session, Result, ok, err, audit_append, review_task_not_claimable,
}
use land_record_digitalizati.Backend.ReviewWorkflow.{
  claim_next, claimed, own_task, submit, submit_own, judge, close, submit_result, SubmitResult,
}
use land_record_digitalizati.Backend.ReviewSession.{touch_session, hours_since}
use land_record_digitalizati.Backend.Correction.{
  submit_correction, source_page_digest_for, store_correction, needs_maker_checker,
  write_correction, new_correction,
}
use land_record_digitalizati.Backend.ReviewWorkflow.Claiming.{
  Claimed, claim_next-Claimed, claim_next-distinct,
}
use land_record_digitalizati.Backend.ReviewWorkflow.Guards.{
  Submitted, submit-Submitted, submit-once,
}

abbrev world : World
world = record {
  sha256 = λ s. s;
  uuid4 = λ n. "id" <> decimal n;
  clock = λ n. n;
  isoformat = decimal;
}

abbrev extraction : Extraction
extraction = record {
  id = "x1";
  page_id = "p1";
  field_name = "remarks";
  raw_value = "Ramesh";
  canonical_value = none;
  bbox = "[0, 0, 10, 10]";
  model_version = none;
  config_version = none;
  calibrated_confidence = none;
  routing_outcome = some "review";
  entry_status = "extracted";
}

abbrev page : Page
page = record {
  id = "p1";
  document_id = "d1";
  storage_uri = some "sha256/ab/cd/abcd";
  index_position = none;
}

abbrev task : String → ℕ → Option String → ReviewTask
task id opened assignee = record {
  id = id;
  extraction_id = "x1";
  reason = none;
  source_stream = "routed";
  assignee = assignee;
  opened_at = opened;
  closed_at = none;
  hour_into_session = none;
}

abbrev with_tasks : List ReviewTask → Session
with_tasks tasks = record {
  log = record { entries = []; ticks = 0 };
  batches = [];
  documents = [];
  pages = page ∷ [];
  extractions = extraction ∷ [];
  decisions = [];
  review_tasks = tasks;
  audit_samples = [];
  conflicts = [];
  alerts = [];
  corrections = [];
  pending = [];
  review_sessions = [];
  volume_indexes = [];
  records = [];
}

abbrev queue : Session
queue = with_tasks (task "t1" 5 none ∷ task "t2" 3 none ∷ task "t3" 1 (some "ravi") ∷ [])

claim_next-Claimed_example :
    (got : ReviewTask) × (t : Session) × (claim_next world "asha" queue ≡ (ok (some got), t))
    × Claimed "asha" queue t got
claim_next-Claimed_example =
    claim_next-Claimed world "asha" queue
      (inr (inl (record { no_assignee = refl; not_closed = refl })))

abbrev busy : Session
busy = with_tasks (task "t3" 1 (some "ravi") ∷ [])

abbrev once : Result (Option ReviewTask) × Session
once = claim_next world "asha" queue

abbrev twice : Result (Option ReviewTask) × Session
twice = claim_next world "ravi" once.1

abbrev first_got : ReviewTask
first_got = claimed "asha" (pos 0) (task "t2" 3 none)

abbrev second_got : ReviewTask
second_got = claimed "ravi" (pos 0) (task "t1" 5 none)

once_result : once ≡ (ok (some first_got), once.1)
unfolding claim_next touch_session hours_since
once_result = refl

twice_result : twice ≡ (ok (some second_got), twice.1)
unfolding claim_next touch_session hours_since
twice_result = refl

claim_next-distinct_example : second_got.id ≢ first_got.id
claim_next-distinct_example =
    claim_next-distinct world "asha" "ravi" queue once.1 twice.1 first_got second_got once_result
      twice_result

abbrev owned : Session
owned = with_tasks (task "t1" 5 (some "asha") ∷ [])

abbrev submission : Result SubmitResult × Session
submission = submit world "t1" "asha" "Suresh" none owned

abbrev submission_result : SubmitResult
submission_result = record {
  task_id = "t1";
  extraction_id = "x1";
  correction_id = some ("id" <> decimal 0);
  pending_correction_id = none;
  maker_checker_pending = false;
}

submission_returns : submission ≡ (ok submission_result, submission.1)
unfolding submit own_task submit_own submit_correction source_page_digest_for store_correction
    needs_maker_checker write_correction audit_append judge close submit_result decimal
    new_correction
submission_returns = refl

submit-Submitted_example : Submitted "t1" "asha" owned submission.1
submit-Submitted_example =
    submit-Submitted world "t1" "asha" "Suresh" none owned submission.1 submission_result
      submission_returns

submit-once_example :
    submit world "t1" "ravi" "Mahesh" none submission.1
    ≡ (err review_task_not_claimable, submission.1)
submit-once_example =
    submit-once world "t1" "asha" "Suresh" "ravi" "Mahesh" none none owned submission.1
      submission_result submission_returns
