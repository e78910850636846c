-- ===== src/Delivery/Worker/Draining.antt =====
-- A worker that is not stopped acknowledges every message of its group after finitely many cycles.
use native.Mathlib.Nat.{mul-suc}
use land_record_digitalizati.Prelude.{
  ℕ, zero, suc, ◌+◌, ◌*◌, ◌≤◌, ◌<◌, String, Bool, false, List, [], ◌∷◌, length, ◌≡◌, refl, sym, ap,
  subst, ◌⊎◌, inl, inr, arith, if◌then◌else◌,
}
use land_record_digitalizati.Audit.World.{World}
use land_record_digitalizati.Backend.Session.{Error}
use land_record_digitalizati.Delivery.Queue.{QueueMessage, InMemoryQueue, consume}
use land_record_digitalizati.Delivery.Queue.View.{view, consume-view}
use land_record_digitalizati.Delivery.Queue.Load.{weigh, load_of}
use land_record_digitalizati.Delivery.Worker.{
  WorkerRunner, Site, Cycle, site_of, handle_batch, work_off, run_once, run_loop,
}
use land_record_digitalizati.Delivery.Worker.Progress.{
  load, taken, taken-load, taken-first, handle_batch-load, handle_batch-first,
}

module _ {A : Type 0} (w : World) (class_name : Error → String) (r : WorkerRunner A) (n : ℕ)
    (batch : r.batch_count ≡ suc n) where
  abbrev batch_of : InMemoryQueue A → List (QueueMessage A) × InMemoryQueue A
  batch_of q = consume r.queue_name r.group (suc n) q

  run_once-batch :
      (stops : ℕ → Bool) (s : Site A)
      → stops 0 ≡ false
      → run_once w class_name r stops s ≡ work_off w class_name r stops s (batch_of s.queue)
  unfolding run_once
  run_once-batch stops s going = rw going (
      ap (λ (k : ℕ). work_off w class_name r stops s (consume r.queue_name r.group k s.queue))
        batch)

  work_off-load :
      (stops : ℕ → Bool) (s : Site A)
      → load w class_name r (site_of (work_off w class_name r stops s (batch_of s.queue))).queue
        ≤ load w class_name r s.queue
  unfolding work_off taken
  work_off-load stops s =
      let b = batch_of s.queue in
      omega (
        arith,
        taken-load w class_name r n s.queue,
        handle_batch-load w class_name r stops 1 0 (b.0) (record s { queue = b.1 }),
      )

  -- A batch with a message takes work away.
  work_off-some :
      (stops : ℕ → Bool) (s : Site A) (m : QueueMessage A) (ms : List (QueueMessage A))
      → stops 1 ≡ false
      → (batch_of s.queue).0 ≡ m ∷ ms
      → load w class_name r (site_of (work_off w class_name r stops s (batch_of s.queue))).queue
        < load w class_name r s.queue
  unfolding work_off taken
  work_off-some stops s m ms going first =
      let b = batch_of s.queue in
      let facts = taken-first w class_name r n s.queue m ms first in
      let (ps, pending) = facts.1 in
      let site : Site A = record s { queue = b.1 } in
      let less = taken-load w class_name r n s.queue in
      subst
        (λ (xs : List (QueueMessage A)).
          load w class_name r (site_of (handle_batch w class_name r stops 1 0 xs site)).queue
          < load w class_name r s.queue)
        (sym first)
        (elim (handle_batch-first w class_name r stops 1 0 m ms ps site going pending) [
          | inl fewer ↦ omega (arith, fewer, less)
          | inr (same, below) ↦ omega (arith, same, facts.0 below)
        ])

  list-cases :
      (xs : List (QueueMessage A))
      → (xs ≡ []) ⊎ ((m : QueueMessage A) × (ms : List (QueueMessage A)) × (xs ≡ m ∷ ms))
  list-cases [] = inl refl
  list-cases (m ∷ ms) = inr (m, ms, refl)

  idle-load : (q : InMemoryQueue A) → view r.queue_name r.group q ≡ [] → load w class_name r q ≡ 0
  unfolding load load_of view weigh
  idle-load q h = ap (weigh r.max_deliveries ((q.groups r.queue_name r.group).delivery_counts)) h

  spent : (limit : ℕ) (counts : ℕ → ℕ) (es : List (ℕ × A)) → weigh limit counts es ≤ 0 → es ≡ []
  unfolding weigh
  spent limit counts [] h = refl
  spent limit counts ((k, a) ∷ es) h = absurd (omega (arith, h))

  -- A cycle leaves less work than before, or there was none.
  run_once-load :
      (stops : ℕ → Bool) (s : Site A) (k : ℕ)
      → stops 0 ≡ false
      → stops 1 ≡ false
      → load w class_name r s.queue ≤ suc k
      → load w class_name r (site_of (run_once w class_name r stops s)).queue ≤ k
  run_once-load stops s k going first bound =
      let next = work_off w class_name r stops s (batch_of s.queue) in
      let left : load w class_name r (site_of next).queue ≤ k =
        elim (list-cases ((batch_of s.queue).0)) [
          | inl none_left ↦
              let seen = (consume-view r.queue_name r.group n s.queue).2 none_left in
              omega (arith, idle-load s.queue seen, work_off-load stops s)
          | inr (m, ms, some_left) ↦
              omega (arith, bound, work_off-some stops s m ms first some_left)
        ] in
      subst (λ (c : Cycle A). load w class_name r (site_of c).queue ≤ k)
        (sym (run_once-batch stops s going)) left

  loop-drains :
      (stops : ℕ → ℕ → Bool)
      → ((i j : ℕ) → stops i j ≡ false)
      → (k : ℕ) (s : Site A) → load w class_name r s.queue ≤ k
      → view r.queue_name r.group (run_loop w class_name r stops k s).queue ≡ []
  unfolding run_loop load load_of view
  loop-drains stops never zero s bound =
      spent r.max_deliveries (s.queue.groups r.queue_name r.group).delivery_counts _ bound
  loop-drains stops never (suc k) s bound =
      let next = run_loop w class_name r stops k (site_of (run_once w class_name r (stops k) s)) in
      subst (λ (b : Bool). view r.queue_name r.group (if b then s else next).queue ≡ [])
        (sym (never k 0))
        (loop-drains stops never k (site_of (run_once w class_name r (stops k) s))
          (run_once-load (stops k) s k (never k 0) (never k 1) bound))

  weigh-length :
      (limit : ℕ) (counts : ℕ → ℕ) (es : List (ℕ × A))
      → weigh limit counts es ≤ (limit + 1) * length es
  unfolding weigh
  weigh-length limit counts [] = omega arith
  weigh-length limit counts ((k, a) ∷ es) =
      omega (arith, mul-suc (limit + 1) (length es), weigh-length limit counts es)

  pub run_loop-drains :
      (stops : ℕ → ℕ → Bool) (k : ℕ) (s : Site A)
      → ((i j : ℕ) → stops i j ≡ false)
      → (r.max_deliveries + 1) * length (view r.queue_name r.group s.queue) ≤ k
      → view r.queue_name r.group (run_loop w class_name r stops k s).queue ≡ []
  unfolding load load_of view
  run_loop-drains stops k s never enough =
      let g = s.queue.groups r.queue_name r.group in
      loop-drains stops never k s (
        omega (
          arith,
          enough,
          weigh-length r.max_deliveries g.delivery_counts (view r.queue_name r.group s.queue),
        ))
