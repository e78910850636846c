-- ===== src/Delivery/Outbox/Relaying.antt =====
-- What a cycle of the relay publishes, in which order, and what it leaves for the next.
use land_record_digitalizati.Prelude.{
  ℕ, zero, suc, ◌+◌, ◌≤◌, String, Bool, true, false, ◌||◌, List, [], ◌∷◌, ◌++◌, map, filter, take,
  length, All, All-map, ◌≡◌, refl, sym, ap, ◌∙◌, subst, arith, ◌==◌, eq_refl, eq_iff, Bool-cases,
  inl, inr, ltb,
}
use mathlib.Core.List.{append_assoc, append-nil}
use land_record_digitalizati.Backend.Session.{contains}
use land_record_digitalizati.Delivery.Queue.{InMemoryQueue, publish}
use land_record_digitalizati.Delivery.Outbox.{
  OutboxMessage, insert_row, by_age, undispatched, pending_rows, ids_of, mark_rows, publish_rows,
  drain_once,
}

module _ {A : Type 0} where
  -- The messages of a queue's stream.
  abbrev pub sent : String → InMemoryQueue A → List A
  sent queue q = map (λ (e : ℕ × A). e.1) (q.streams queue)

  -- The envelopes that rows hold for a queue.
  abbrev pub envelopes_for : String → List (OutboxMessage A) → List A
  envelopes_for queue rows =
      map (λ (r : OutboxMessage A). r.envelope)
        (filter (λ (r : OutboxMessage A). r.queue == queue) rows)

  map-sent :
      (es fs : List (ℕ × A))
      → map (λ (e : ℕ × A). e.1) (es ++ fs)
        ≡ map (λ (e : ℕ × A). e.1) es ++ map (λ (e : ℕ × A). e.1) fs
  map-sent [] fs = refl
  map-sent (e ∷ es) fs = ap (◌∷◌ (e.1)) (map-sent es fs)

  sent-publish :
      (queue : String) (a : A) (q : InMemoryQueue A)
      → sent queue ((publish queue a q).1) ≡ sent queue q ++ a ∷ []
  unfolding publish
  sent-publish queue a q = rw (eq_refl queue) (map-sent (q.streams queue) _)

  sent-publish_other :
      (queue name : String) (a : A) (q : InMemoryQueue A)
      → (name == queue) ≡ false
      → sent queue ((publish name a q).1) ≡ sent queue q
  unfolding publish
  sent-publish_other queue name a q other = rw other refl

  sent-publish_rows :
      (queue : String) (rows : List (OutboxMessage A)) (q : InMemoryQueue A)
      → sent queue (publish_rows rows q) ≡ sent queue q ++ envelopes_for queue rows
  unfolding publish_rows
  sent-publish_rows queue [] q = sym (append-nil (sent queue q))
  sent-publish_rows queue (r ∷ rows) q = elim (Bool-cases (r.queue == queue)) [
    | inl here ↦
        let next = (publish r.queue r.envelope q).1 in
        let first : sent queue next ≡ sent queue q ++ r.envelope ∷ [] =
          subst
            (λ (n : String).
              sent queue ((publish n r.envelope q).1) ≡ sent queue q ++ r.envelope ∷ [])
            (sym ((eq_iff r.queue queue).0 here)) (sent-publish queue r.envelope q) in
        rw here (
          sent-publish_rows queue rows next
          ∙ ap (λ (es : List A). es ++ envelopes_for queue rows) first
          ∙ append_assoc (sent queue q) _ (envelopes_for queue rows))
    | inr there ↦
        let next = (publish r.queue r.envelope q).1 in
        rw there (
          sent-publish_rows queue rows next
          ∙ ap (λ (es : List A). es ++ envelopes_for queue rows)
              (sent-publish_other queue r.queue r.envelope q there))
  ]

  contains-insert_row :
      (id : String) (r : OutboxMessage A) (rows : List (OutboxMessage A))
      → contains id (ids_of (insert_row r rows)) ≡ ((r.id == id) || contains id (ids_of rows))
  unfolding insert_row
  contains-insert_row id r [] = refl
  contains-insert_row id r (s ∷ rows) = elim (Bool-cases (ltb s.created_at r.created_at)) [
    | inl older ↦ rw (older, contains-insert_row id r rows) (ground arith)
    | inr younger ↦ rw younger refl
  ]

  contains-by_age :
      (id : String) (rows : List (OutboxMessage A))
      → contains id (ids_of (by_age rows)) ≡ contains id (ids_of rows)
  unfolding by_age
  contains-by_age id [] = refl
  contains-by_age id (r ∷ rows) =
      contains-insert_row id r (by_age rows)
      ∙ ap (λ (b : Bool). (r.id == id) || b) (contains-by_age id rows)

  length-insert_row :
      (r : OutboxMessage A) (rows : List (OutboxMessage A))
      → length (insert_row r rows) ≡ length rows + 1
  unfolding insert_row
  length-insert_row r [] = refl
  length-insert_row r (s ∷ rows) = elim (Bool-cases (ltb s.created_at r.created_at)) [
    | inl older ↦ rw older (omega (arith, length-insert_row r rows))
    | inr younger ↦ rw younger (omega arith)
  ]

  length-by_age : (rows : List (OutboxMessage A)) → length (by_age rows) ≡ length rows
  unfolding by_age
  length-by_age [] = refl
  length-by_age (r ∷ rows) = omega (arith, length-insert_row r (by_age rows), length-by_age rows)

  take-all : (n : ℕ) (rows : List (OutboxMessage A)) → length rows ≤ n → take n rows ≡ rows
  take-all zero [] h = refl
  take-all zero (r ∷ rows) h = absurd (omega (arith, h))
  take-all (suc n) [] h = refl
  take-all (suc n) (r ∷ rows) h = ap (◌∷◌ r) (take-all n rows (omega (arith, h)))

  -- A row is left when it waits and is not in the batch.
  none_left :
      (now : String → ℕ) (ids : List String) (rows : List (OutboxMessage A))
      → ((id : String) → contains id (ids_of (undispatched rows)) ≡ true → contains id ids ≡ true)
      → undispatched (mark_rows now ids rows) ≡ []
  unfolding mark_rows
  none_left now ids [] covered = refl
  none_left now ids (r ∷ rows) covered = elim (Bool-cases r.dispatched) [
    | inl done ↦
        let rest = none_left now ids rows (λ id c. covered id (rw done c)) in
        elim (Bool-cases (contains r.id ids)) [
          | inl chosen ↦ rw chosen rest
          | inr passed ↦ rw (passed, done) rest
        ]
    | inr waiting ↦
        let chosen = covered r.id (rw (waiting, eq_refl r.id) refl) in
        let later = λ (id : String) (c : contains id (ids_of (undispatched rows)) ≡ true).
          covered id (rw (waiting, c) (ground arith)) in
        rw chosen (none_left now ids rows later)
  ]

  -- Oldest first.
  pub IsSorted : List (OutboxMessage A) → Type 0
  IsSorted [] = Unit
  IsSorted (r ∷ rows) =
      All (λ (s : OutboxMessage A). r.created_at ≤ s.created_at) rows × IsSorted rows

  All-insert_row :
      (P : OutboxMessage A → Type 0) (r : OutboxMessage A) (rows : List (OutboxMessage A))
      → P r
      → All P rows
      → All P (insert_row r rows)
  unfolding insert_row
  All-insert_row P r [] p h = (p, tt)
  All-insert_row P r (s ∷ rows) p h = elim (Bool-cases (ltb s.created_at r.created_at)) [
    | inl older ↦ rw older (h.0, All-insert_row P r rows p h.1)
    | inr younger ↦ rw younger (p, h)
  ]

  insert_row-IsSorted :
      (r : OutboxMessage A) (rows : List (OutboxMessage A))
      → IsSorted rows
      → IsSorted (insert_row r rows)
  unfolding insert_row IsSorted
  insert_row-IsSorted r [] h = (tt, tt)
  insert_row-IsSorted r (s ∷ rows) h = elim (Bool-cases (ltb s.created_at r.created_at)) [
    | inl older ↦
        let before : s.created_at ≤ r.created_at = ground arith in
        rw older (All-insert_row _ r rows before h.0, insert_row-IsSorted r rows h.1)
    | inr younger ↦
        let before : r.created_at ≤ s.created_at = ground arith in
        rw younger ((before, All-map _ _ rows (λ x le. omega (arith, before, le)) h.0), h)
  ]

  by_age-IsSorted : (rows : List (OutboxMessage A)) → IsSorted (by_age rows)
  unfolding by_age IsSorted
  by_age-IsSorted [] = tt
  by_age-IsSorted (r ∷ rows) = insert_row-IsSorted r (by_age rows) (by_age-IsSorted rows)

  All-take :
      (P : OutboxMessage A → Type 0) (n : ℕ) (rows : List (OutboxMessage A))
      → All P rows
      → All P (take n rows)
  All-take P zero rows h = tt
  All-take P (suc n) [] h = tt
  All-take P (suc n) (r ∷ rows) h = (h.0, All-take P n rows h.1)

  take-IsSorted : (n : ℕ) (rows : List (OutboxMessage A)) → IsSorted rows → IsSorted (take n rows)
  unfolding IsSorted
  take-IsSorted zero rows h = tt
  take-IsSorted (suc n) [] h = tt
  take-IsSorted (suc n) (r ∷ rows) h = (All-take _ n rows h.0, take-IsSorted n rows h.1)

  pub drain_once-relays :
      (now : String → ℕ) (batch_size : ℕ) (table : List (OutboxMessage A)) (q : InMemoryQueue A)
      → let d = drain_once now batch_size table q in
        let batch = pending_rows batch_size table in
        IsSorted batch
        × ((queue : String) → sent queue d.broker ≡ sent queue q ++ envelopes_for queue batch)
        × (length (undispatched table) ≤ batch_size → undispatched d.table ≡ [])
  unfolding drain_once pending_rows
  drain_once-relays now batch_size table q =
      let waiting = undispatched table in
      (
        take-IsSorted batch_size (by_age waiting) (by_age-IsSorted waiting),
        λ queue. sent-publish_rows queue (pending_rows batch_size table) q,
        λ enough.
            let whole : take batch_size (by_age waiting) ≡ by_age waiting =
              take-all batch_size (by_age waiting) (omega (arith, length-by_age waiting, enough)) in
            subst
              (λ (rows : List (OutboxMessage A)).
                undispatched (mark_rows now (ids_of rows) table) ≡ [])
              (sym whole)
              (none_left now (ids_of (by_age waiting)) table
                (λ id c. contains-by_age id waiting ∙ c)),
      )
