-- ===== src/Delivery/Worker.antt =====
-- services/backend/src/backend/workers/runner.py: the worker that handles a queue's messages in a
-- session of its own, acknowledges after the commit, and dead-letters what keeps failing.
pub mod Progress
pub mod Draining
use land_record_digitalizati.Prelude.{
  ℕ, zero, suc, ◌+◌, String, ◌<>◌, Bool, true, false, Option, none, some, List, [], ◌∷◌, ltb, leb,
  decimal, if◌then◌else◌,
}
use land_record_digitalizati.Audit.World.{World}
use land_record_digitalizati.Audit.Chain.{system_shard_key}
use land_record_digitalizati.Backend.Session.{
  Session, Error, M, Result, ok, err, entry, audit_append, with_log,
}
use land_record_digitalizati.Delivery.Queue.{QueueMessage, InMemoryQueue, publish, consume, ack}

pub record WorkerRunner (A : Type 0) : Type 0 where
  pub queue_name : String
  pub group : String
  pub handler : A → M (Unit {0})
  pub max_deliveries : ℕ
  pub batch_count : ℕ

-- The broker and the database that a worker works on.
pub record Site (A : Type 0) : Type 0 where
  pub queue : InMemoryQueue A
  pub session : Session

-- How many messages a cycle processed, or that it passed an exception on.
pub data Cycle (A : Type 0) : Type 0 where
  processed : ℕ → Site A → Cycle A
  raised : Site A → Cycle A

unfoldable pub site_of : {A : Type 0} → Cycle A → Site A
site_of (processed n s) = s
site_of (raised s) = s

-- The rest of a batch, behind a message that was processed.
unfoldable pub then_rest : {A : Type 0} → Cycle A → (ℕ → Site A → Cycle A) → Cycle A
then_rest (processed n s) rest = rest n s
then_rest (raised s) rest = raised s

-- `session.rollback()`: the tables as they were, at a later reading of the clock.
unfoldable pub rollback : Session → Session → Session
rollback before after = with_log (record before.log { ticks = after.log.ticks }) before

module _ (w : World) where
  -- services/backend/src/backend/domain/audit_log.py
  unfoldable pub record_dead_lettered : String → ℕ → ℕ → String → M (Unit {0})
  record_dead_lettered queue message_id delivery_count error_class =
      audit_append w
        (record (entry "system:worker-runner" "queue.dead_lettered"
          (some (queue <> (":" <> decimal message_id)))
          (some ("delivery_count=" <> (decimal delivery_count <> (":error=" <> error_class))))) {
            shard_key = some system_shard_key;
          })

-- `type(exc).__name__` stands for the class of an error.
module _ {A : Type 0} (w : World) (class_name : Error → String) (r : WorkerRunner A) where
  unfoldable pub dead_letter : QueueMessage A → String → Site A → Site A
  unfolding record_dead_lettered publish ack
  dead_letter m error_class s = record {
    queue =
        ack r.queue_name r.group m.sequence_id
          ((publish (r.queue_name <> ".DLQ") m.data_of s.queue).1);
    session =
        (record_dead_lettered w r.queue_name m.sequence_id m.delivery_count error_class
          s.session).1;
  }

  -- The handler's answer: a commit and an acknowledgement, or a rollback.
  unfoldable pub settle : QueueMessage A → Site A → Result (Unit {0}) → Session → Cycle A
  unfolding dead_letter rollback ack
  settle m s (ok u) after =
      processed 1
        (record { queue = ack r.queue_name r.group m.sequence_id s.queue; session = after })
  settle m s (err e) after =
      let undone = record s { session = rollback s.session after } in
      if leb r.max_deliveries m.delivery_count
      then processed 1 (dead_letter m (class_name e) undone)
      else raised undone

  unfoldable pub handle_message : QueueMessage A → Site A → Cycle A
  unfolding dead_letter settle
  handle_message m s =
      if ltb r.max_deliveries m.delivery_count
      then processed 1 (dead_letter m "MaxDeliveriesExceeded" s)
      else let answer = r.handler m.data_of s.session in settle m s (answer.0) (answer.1)

  -- `should_stop` as it reads before each message of a batch.
  unfoldable pub handle_batch : (ℕ → Bool) → ℕ → ℕ → List (QueueMessage A) → Site A → Cycle A
  unfolding handle_message then_rest
  handle_batch stops i done [] s = processed done s
  handle_batch stops i done (m ∷ ms) s =
      let rest = λ (n : ℕ) (t : Site A). handle_batch stops (i + 1) (done + n) ms t in
      if stops i then processed done s else then_rest (handle_message m s) rest

  -- A batch that was taken from the queue.
  unfoldable pub work_off : (ℕ → Bool) → Site A → List (QueueMessage A) × InMemoryQueue A → Cycle A
  unfolding handle_batch
  work_off stops s taken = handle_batch stops 1 0 (taken.0) (record s { queue = taken.1 })

  unfoldable pub run_once : (ℕ → Bool) → Site A → Cycle A
  unfolding work_off consume
  run_once stops s =
      if stops 0
      then processed 0 s
      else work_off stops s (consume r.queue_name r.group r.batch_count s.queue)

  -- `run_loop` with `max_iterations`: an exception ends its cycle only.
  unfoldable pub run_loop : (ℕ → ℕ → Bool) → ℕ → Site A → Site A
  unfolding run_once site_of
  run_loop stops zero s = s
  run_loop stops (suc n) s =
      let next = run_loop stops n (site_of (run_once (stops n) s)) in if stops n 0 then s else next
