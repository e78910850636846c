-- ===== src/Delivery/Outbox.antt =====
-- libs/outbox/src/landoutbox: the rows that wait for the relay, and the relay that publishes them. A
-- locked row of a second relay is one that the query does not see: the table holds the other rows.
pub mod Relaying
use land_record_digitalizati.Prelude.{
  ℕ, ◌+◌, String, Bool, true, false, not, Option, none, some, List, [], ◌∷◌, ◌++◌, map, filter,
  take, length, ltb, if◌then◌else◌,
}
use land_record_digitalizati.Audit.World.{World}
use land_record_digitalizati.Backend.Session.{contains}
use land_record_digitalizati.Delivery.Queue.{InMemoryQueue, publish}

pub record OutboxMessage (A : Type 0) : Type 0 where
  pub id : String
  pub queue : String
  pub envelope : A
  pub created_at : ℕ
  pub dispatched : Bool
  pub dispatched_at : Option ℕ
  pub dispatch_attempts : ℕ

-- The count that `drain_once` returns, the table behind its commit, and the broker.
pub record Drained (A : Type 0) : Type 0 where
  pub dispatched_count : ℕ
  pub table : List (OutboxMessage A)
  pub broker : InMemoryQueue A

module _ {A : Type 0} where
  -- `write`, at a reading of the clock and of the identifiers
  unfoldable pub write : World → ℕ → String → A → List (OutboxMessage A) → List (OutboxMessage A)
  write w tick queue envelope table =
      table
      ++ record {
        id = w.uuid4 tick;
        queue = queue;
        envelope = envelope;
        created_at = w.clock tick;
        dispatched = false;
        dispatched_at = none;
        dispatch_attempts = 0;
      }
        ∷ []

  -- `ORDER BY created_at`
  unfoldable pub insert_row : OutboxMessage A → List (OutboxMessage A) → List (OutboxMessage A)
  insert_row r [] = r ∷ []
  insert_row r (s ∷ rows) =
      let rest = insert_row r rows in
      if ltb s.created_at r.created_at then s ∷ rest else r ∷ s ∷ rows

  unfoldable pub by_age : List (OutboxMessage A) → List (OutboxMessage A)
  unfolding insert_row
  by_age [] = []
  by_age (r ∷ rows) = insert_row r (by_age rows)

  abbrev pub undispatched : List (OutboxMessage A) → List (OutboxMessage A)
  undispatched = filter (λ (r : OutboxMessage A). not r.dispatched)

  -- The rows of one batch.
  unfoldable pub pending_rows : ℕ → List (OutboxMessage A) → List (OutboxMessage A)
  unfolding by_age
  pending_rows batch_size table = take batch_size (by_age (undispatched table))

  abbrev pub marked : ℕ → OutboxMessage A → OutboxMessage A
  marked now r = record r {
    dispatched = true;
    dispatched_at = some now;
    dispatch_attempts = r.dispatch_attempts + 1;
  }

  abbrev pub ids_of : List (OutboxMessage A) → List String
  ids_of = map (λ (r : OutboxMessage A). r.id)

  -- The table with the rows of a batch marked, each at a reading of the clock of its own.
  unfoldable pub mark_rows :
      (String → ℕ) → List String → List (OutboxMessage A) → List (OutboxMessage A)
  mark_rows now ids =
      map (λ (r : OutboxMessage A). if contains r.id ids then marked (now r.id) r else r)

  unfoldable pub publish_rows : List (OutboxMessage A) → InMemoryQueue A → InMemoryQueue A
  unfolding publish
  publish_rows [] q = q
  publish_rows (r ∷ rows) q = publish_rows rows ((publish r.queue r.envelope q).1)

  unfoldable pub drain_once :
      (String → ℕ) → ℕ → List (OutboxMessage A) → InMemoryQueue A → Drained A
  unfolding pending_rows mark_rows publish_rows
  drain_once now batch_size table q =
      let pending = pending_rows batch_size table in
      record {
        dispatched_count = length pending;
        table = mark_rows now (ids_of pending) table;
        broker = publish_rows pending q;
      }
