-- ===== src/Delivery/Tests.antt =====
-- A worker whose handler refuses one message, run until its group has nothing left.
use land_record_digitalizati.Prelude.{
  String, length, ◌≤◌, ℕ, false, none, List, [], ◌∷◌, ◌++◌, map, ◌≡◌, refl, eqb, if◌then◌else◌,
  arith,
}
use land_record_digitalizati.Backend.Session.{value_error, M, pure, raise}
use land_record_digitalizati.Backend.Tests.{world, empty_session}
use land_record_digitalizati.Delivery.Queue.{Group, InMemoryQueue, publish, consume}
use land_record_digitalizati.Delivery.Queue.View.{view, entry_of, consume-view}
use land_record_digitalizati.Delivery.Outbox.{OutboxMessage, undispatched, pending_rows, drain_once}
use land_record_digitalizati.Delivery.Outbox.Relaying.{
  sent, envelopes_for, IsSorted, drain_once-relays,
}
use land_record_digitalizati.Delivery.Worker.{WorkerRunner, Site, run_loop}
use land_record_digitalizati.Delivery.Worker.Draining.{run_loop-drains}

abbrev fresh_group : Group ℕ
fresh_group = record { cursor = none; pending = []; delivery_counts = λ k. 0 }

abbrev empty_queue : InMemoryQueue ℕ
empty_queue = record { streams = λ q. []; next_seq = 0; groups = λ q g. fresh_group }

abbrev filled : InMemoryQueue ℕ
unfolding publish
filled = (publish "T" 8 ((publish "T" 7 empty_queue).1)).1

two_left : view "T" "g" filled ≡ (1, 7) ∷ (2, 8) ∷ []
unfolding view filled
two_left = refl

consume-view_example :
    (view "T" "g" ((consume "T" "g" 2 filled).1) ≡ view "T" "g" filled)
    × ((rest : List (ℕ × ℕ)) × (view "T" "g" filled
          ≡ map entry_of ((consume "T" "g" 2 filled).0) ++ rest))
    × ((consume "T" "g" 2 filled).0 ≡ [] → view "T" "g" filled ≡ [])
consume-view_example = consume-view "T" "g" 1 filled

-- The handler refuses the number seven.
abbrev picky : ℕ → M (Unit {0})
picky a = if eqb a 7 then raise value_error else pure tt

abbrev worker : WorkerRunner ℕ
worker = record {
  queue_name = "T";
  group = "g";
  handler = picky;
  max_deliveries = 2;
  batch_count = 1;
}

abbrev site : Site ℕ
site = record { queue = filled; session = empty_session }

run_loop-drains_example :
    view "T" "g" (run_loop world (λ e. "ValueError") worker (λ i j. false) 6 site).queue ≡ []
unfolding view filled
run_loop-drains_example =
    run_loop-drains world (λ e. "ValueError") worker 0 refl (λ i j. false) 6 site (λ i j. refl)
      (omega arith)

abbrev waiting_row : String → ℕ → ℕ → OutboxMessage ℕ
waiting_row id envelope created_at = record {
  id = id;
  queue = "T";
  envelope = envelope;
  created_at = created_at;
  dispatched = false;
  dispatched_at = none;
  dispatch_attempts = 0;
}

abbrev table : List (OutboxMessage ℕ)
table = waiting_row "a" 5 20 ∷ waiting_row "b" 6 10 ∷ []

oldest_first : sent "T" (drain_once (λ id. 30) 100 table empty_queue).broker ≡ 6 ∷ 5 ∷ []
unfolding drain_once
oldest_first = refl

drain_once-relays_example :
    IsSorted (pending_rows 100 table)
    × ((queue : String)
        → sent queue (drain_once (λ id. 30) 100 table empty_queue).broker
          ≡ sent queue empty_queue ++ envelopes_for queue (pending_rows 100 table))
    × (length (undispatched table) ≤ 100
        → undispatched ((drain_once (λ id. 30) 100 table empty_queue).table) ≡ [])
drain_once-relays_example = drain_once-relays (λ id. 30) 100 table empty_queue
