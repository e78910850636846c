-- ===== src/Delivery/Worker/Progress.antt =====
-- Every cycle of a worker takes work away, so that each message is acknowledged in the end: handled,
-- or moved to the dead-letter queue.
use text.Mathlib.TextLemmas.{length-append}
use land_record_digitalizati.Prelude.{
  ℕ, suc, ◌+◌, ◌≤◌, ◌<◌, String, ◌<>◌, count, Bool, false, List, [], ◌∷◌, ◌≡◌, refl, ap, ◌∙◌, ◌⊎◌,
  inl, inr, arith, ◌==◌, eq_iff, eq_refl, Bool-cases, Option-cases, ltb, leb,
}
use land_record_digitalizati.Audit.World.{World}
use land_record_digitalizati.Backend.Session.{Session, Error, Result, ok, err}
use land_record_digitalizati.Delivery.Queue.{
  QueueMessage, Group, InMemoryQueue, publish, ensure_group, backlog, consume, acked, ack,
}
use land_record_digitalizati.Delivery.Queue.View.{group-with_group}
use land_record_digitalizati.Delivery.Queue.Load.{
  load_of, acked-load, acked-first, delivery, deliver-load, deliver-first_load, deliver-pending,
}
use land_record_digitalizati.Delivery.Worker.{
  WorkerRunner, Site, Cycle, processed, raised, site_of, then_rest, dead_letter, settle,
  handle_message, handle_batch,
}

-- A queue and its dead-letter queue have different names.
dlq_differs : (q : String) → ((q <> ".DLQ") == q) ≡ false
dlq_differs q = elim (Bool-cases ((q <> ".DLQ") == q)) [
  | inl same ↦
      let longer = ap count ((eq_iff (q <> ".DLQ") q).0 same) in
      absurd (omega (arith, longer, length-append q ".DLQ"))
  | inr other ↦ other
]

module _ {A : Type 0} (w : World) (class_name : Error → String) (r : WorkerRunner A) where
  -- The work that the worker's group has left.
  unfoldable pub load : InMemoryQueue A → ℕ
  unfolding load_of
  load q = load_of r.max_deliveries (q.streams r.queue_name) (q.groups r.queue_name r.group)

  acked_load : ℕ → InMemoryQueue A → ℕ
  acked_load n q =
      load_of r.max_deliveries (q.streams r.queue_name) (acked n (q.groups r.queue_name r.group))

  load-ack : (n : ℕ) (q : InMemoryQueue A) → load (ack r.queue_name r.group n q) ≡ acked_load n q
  unfolding load acked_load ack
  load-ack n q =
      ap (load_of r.max_deliveries (q.streams r.queue_name))
        (group-with_group r.queue_name r.group (acked n (q.groups r.queue_name r.group)) q)

  load-dead :
      (n : ℕ) (a : A) (q : InMemoryQueue A)
      → load (ack r.queue_name r.group n ((publish (r.queue_name <> ".DLQ") a q).1))
        ≡ acked_load n q
  unfolding acked_load publish
  load-dead n a q =
      load-ack n ((publish (r.queue_name <> ".DLQ") a q).1) ∙ rw (dlq_differs r.queue_name) refl

  -- A message is acknowledged, or below the limit and left where it is.
  Outcome : QueueMessage A → InMemoryQueue A → Cycle A → Type 0
  Outcome m q (processed n t) = load t.queue ≡ acked_load m.sequence_id q
  Outcome m q (raised t) = (t.queue ≡ q) × (m.delivery_count < r.max_deliveries)

  settle-Outcome :
      (m : QueueMessage A) (s : Site A) (answer : Result (Unit {0})) (after : Session)
      → Outcome m s.queue (settle w class_name r m s answer after)
  unfolding settle Outcome dead_letter
  settle-Outcome m s (ok u) after = load-ack m.sequence_id s.queue
  settle-Outcome m s (err e) after = elim (Bool-cases (leb r.max_deliveries m.delivery_count)) [
    | inl spent ↦ rw spent (load-dead m.sequence_id m.data_of s.queue)
    | inr left ↦ rw left (refl, ground arith)
  ]

  handle_message-Outcome :
      (m : QueueMessage A) (s : Site A) → Outcome m s.queue (handle_message w class_name r m s)
  unfolding handle_message Outcome dead_letter
  handle_message-Outcome m s = elim (Bool-cases (ltb r.max_deliveries m.delivery_count)) [
    | inl over ↦ rw over (load-dead m.sequence_id m.data_of s.queue)
    | inr within ↦ rw within (settle-Outcome m s _ _)
  ]

  rest-load :
      (m : QueueMessage A) (q : InMemoryQueue A) (c : Cycle A) (rest : ℕ → Site A → Cycle A)
      → Outcome m q c
      → ((n : ℕ) (t : Site A) → load (site_of (rest n t)).queue ≤ load t.queue)
      → load (site_of (then_rest c rest)).queue ≤ load q
  unfolding Outcome then_rest site_of acked_load load
  rest-load m q (processed n t) rest outcome later =
      let removed =
        acked-load r.max_deliveries (q.streams r.queue_name) m.sequence_id
          (q.groups r.queue_name r.group) in
      omega (arith, later n t, outcome, removed)
  rest-load m q (raised t) rest outcome later = omega (arith, ap load (outcome.0))

  -- A first pending message is taken away, or it is left below the limit.
  rest-first :
      (m : QueueMessage A) (ps : List (QueueMessage A)) (q : InMemoryQueue A) (c : Cycle A)
      (rest : ℕ → Site A → Cycle A)
      → (q.groups r.queue_name r.group).pending ≡ m ∷ ps
      → Outcome m q c
      → ((n : ℕ) (t : Site A) → load (site_of (rest n t)).queue ≤ load t.queue)
      → (load (site_of (then_rest c rest)).queue < load q)
        ⊎ ((load (site_of (then_rest c rest)).queue ≡ load q)
            × (m.delivery_count < r.max_deliveries))
  unfolding Outcome then_rest site_of acked_load load
  rest-first m ps q (processed n t) rest first outcome later =
      let removed =
        acked-first r.max_deliveries (q.streams r.queue_name) (q.groups r.queue_name r.group) m ps
          first in
      inl (omega (arith, later n t, outcome, removed))
  rest-first m ps q (raised t) rest first outcome later = inr (ap load (outcome.0), outcome.1)

  pub handle_batch-load :
      (stops : ℕ → Bool) (i done : ℕ) (ms : List (QueueMessage A)) (s : Site A)
      → load (site_of (handle_batch w class_name r stops i done ms s)).queue ≤ load s.queue
  unfolding handle_batch site_of
  handle_batch-load stops i done [] s = omega arith
  handle_batch-load stops i done (m ∷ ms) s = elim (Bool-cases (stops i)) [
    | inl stopped ↦ rw stopped (omega arith)
    | inr going ↦ rw going (
        rest-load m s.queue (handle_message w class_name r m s) _ (handle_message-Outcome m s)
          (λ n t. handle_batch-load stops (i + 1) (done + n) ms t))
  ]

  pub handle_batch-first :
      (stops : ℕ → Bool) (i done : ℕ) (m : QueueMessage A) (ms ps : List (QueueMessage A))
      (s : Site A)
      → stops i ≡ false
      → (s.queue.groups r.queue_name r.group).pending ≡ m ∷ ps
      → let next = (site_of (handle_batch w class_name r stops i done (m ∷ ms) s)).queue in
        (load next < load s.queue)
        ⊎ ((load next ≡ load s.queue) × (m.delivery_count < r.max_deliveries))
  unfolding handle_batch
  handle_batch-first stops i done m ms ps s going first = rw going (
      rest-first m ps s.queue (handle_message w class_name r m s) _ first
        (handle_message-Outcome m s) (λ n t. handle_batch-load stops (i + 1) (done + n) ms t))

  started : InMemoryQueue A → InMemoryQueue A
  started = ensure_group r.queue_name r.group backlog

  started-load : (q : InMemoryQueue A) → load (started q) ≡ load q
  unfolding started load ensure_group
  started-load q = elim (Option-cases ((q.groups r.queue_name r.group).cursor)) [
    | inl h ↦ rw (eq_refl r.queue_name, eq_refl r.group, h) refl
    | inr (c, h) ↦ rw (eq_refl r.queue_name, eq_refl r.group, h) refl
  ]

  -- The stream and the group that a delivery reads.
  abbrev stream_of : InMemoryQueue A → List (ℕ × A)
  stream_of q = (started q).streams r.queue_name

  abbrev group_of : InMemoryQueue A → Group A
  group_of q = (started q).groups r.queue_name r.group

  -- The queue behind a delivery, before any message of it is handled.
  unfoldable pub taken : ℕ → InMemoryQueue A → InMemoryQueue A
  taken n q = (consume r.queue_name r.group (suc n) q).1

  load-taken :
      (n : ℕ) (q : InMemoryQueue A)
      → load (taken n q)
        ≡ load_of r.max_deliveries
            (stream_of q)
            (delivery r.max_deliveries n (stream_of q) (group_of q)).group
  unfolding taken consume started load
  load-taken n q = ap (load_of r.max_deliveries (stream_of q)) (
      group-with_group r.queue_name r.group
        (delivery r.max_deliveries n (stream_of q) (group_of q)).group
        (ensure_group r.queue_name r.group backlog q))

  pub taken-load : (n : ℕ) (q : InMemoryQueue A) → load (taken n q) ≤ load q
  unfolding load
  taken-load n q = omega (
    arith,
    load-taken n q,
    deliver-load r.max_deliveries n (stream_of q) (group_of q),
    started-load q,
  )

  pub taken-first :
      (n : ℕ) (q : InMemoryQueue A) (m : QueueMessage A) (ms : List (QueueMessage A))
      → (consume r.queue_name r.group (suc n) q).0 ≡ m ∷ ms
      → ((m.delivery_count < r.max_deliveries) → load (taken n q) < load q)
        × ((ps : List (QueueMessage A)) × (((taken n q).groups r.queue_name r.group).pending
              ≡ m ∷ ps))
  unfolding load consume taken started
  taken-first n q m ms h =
      let d = delivery r.max_deliveries n (stream_of q) (group_of q) in
      let (ps, pending) = deliver-pending r.max_deliveries n (stream_of q) (group_of q) m ms h in
      (
        λ below. omega (
          arith,
          load-taken n q,
          deliver-first_load r.max_deliveries n (stream_of q) (group_of q) m ms h below,
          started-load q,
        ),
        (
          ps,
          ap (λ (g : Group A). g.pending)
                (group-with_group r.queue_name r.group d.group
                  (ensure_group r.queue_name r.group backlog q))
              ∙ pending,
        ),
      )
