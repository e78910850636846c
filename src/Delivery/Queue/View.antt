-- ===== src/Delivery/Queue/View.antt =====
-- The queue as its group sees it: the list of the messages that are not acknowledged, oldest first.
-- Publishing appends to it, consuming reads its front without taking it, acknowledging removes.
use mathlib.Core.List.{append_assoc}
use land_record_digitalizati.Prelude.{
  ℕ, zero, suc, ◌+◌, String, List, [], ◌∷◌, ◌++◌, map, length, take, drop, take-drop, drop-add,
  drop-taken, ◌≡◌, refl, sym, ap, ap₂, ◌∙◌, inl, inr, arith, eq_refl, Option-cases,
}
use land_record_digitalizati.Delivery.Queue.{
  QueueMessage, Group, InMemoryQueue, position, ensure_group, backlog, redelivered, delivered_batch,
  deliver, consume, with_group, counted_once,
}

module _ {A : Type 0} where
  -- A message's sequence id and data, as the stream has them.
  abbrev pub entry_of : QueueMessage A → ℕ × A
  entry_of m = (m.sequence_id, m.data_of)

  abbrev pub view_of : List (ℕ × A) → Group A → List (ℕ × A)
  view_of stream g = map entry_of g.pending ++ drop (position g.cursor) stream

  -- The messages that a group has not acknowledged.
  unfoldable pub view : String → String → InMemoryQueue A → List (ℕ × A)
  view queue group q = view_of (q.streams queue) (q.groups queue group)

  redelivered-entries :
      (n : ℕ) (ms : List (QueueMessage A)) (counts : ℕ → ℕ)
      → map entry_of ((redelivered n ms counts).0) ≡ take n (map entry_of ms)
  unfolding redelivered
  redelivered-entries zero ms counts = refl
  redelivered-entries (suc n) [] counts = refl
  redelivered-entries (suc n) (m ∷ ms) counts =
      ap (◌∷◌ (entry_of m)) (redelivered-entries n ms (counted_once m.sequence_id counts))

  delivered_batch-entries :
      (batch : List (ℕ × A)) (counts : ℕ → ℕ)
      → map entry_of ((delivered_batch batch counts).0) ≡ batch
  unfolding delivered_batch
  delivered_batch-entries [] counts = refl
  delivered_batch-entries ((n, a) ∷ batch) counts =
      ap (◌∷◌ (n, a)) (delivered_batch-entries batch (counted_once n counts))

  map-drop :
      (n : ℕ) (ms : List (QueueMessage A)) → map entry_of (drop n ms) ≡ drop n (map entry_of ms)
  map-drop zero ms = refl
  map-drop (suc n) [] = refl
  map-drop (suc n) (m ∷ ms) = map-drop n ms

  map-append :
      (ms ns : List (QueueMessage A)) → map entry_of (ms ++ ns) ≡ map entry_of ms ++ map entry_of ns
  map-append [] ns = refl
  map-append (m ∷ ms) ns = ap (◌∷◌ (entry_of m)) (map-append ms ns)

  unread-view :
      (c n : ℕ) (stream : List (ℕ × A))
      → let batch = take n (drop c stream) in
        batch ++ drop (c + length batch) stream ≡ drop c stream
  unread-view c n stream =
      let batch = take n (drop c stream) in
      ap (◌++◌ batch) (drop-add c (length batch) stream ∙ drop-taken n (drop c stream))
      ∙ take-drop n (drop c stream)

  -- A delivery leaves the view as it was.
  pub deliver-view :
      (count : ℕ) (stream : List (ℕ × A)) (g : Group A) (ms : List (QueueMessage A))
      → view_of stream (deliver count stream g ms).group
        ≡ map entry_of ms ++ drop (position g.cursor) stream
  unfolding deliver
  deliver-view count stream g (m ∷ ms) =
      let again = (redelivered count (m ∷ ms) g.delivery_counts).0 in
      let entries = redelivered-entries count (m ∷ ms) g.delivery_counts in
      ap (λ (es : List (ℕ × A)). es ++ drop (position g.cursor) stream)
        (map-append again (drop count (m ∷ ms))
          ∙ ap₂ ◌++◌ entries (map-drop count (m ∷ ms))
          ∙ take-drop count (map entry_of (m ∷ ms)))
  deliver-view count stream g [] =
      let c = position g.cursor in
      let batch = take count (drop c stream) in
      ap (λ (es : List (ℕ × A)). es ++ drop (c + length batch) stream)
        (delivered_batch-entries batch g.delivery_counts)
      ∙ unread-view c count stream

  -- What is delivered is the front of the view.
  deliver-front :
      (count : ℕ) (stream : List (ℕ × A)) (g : Group A) (ms : List (QueueMessage A))
      → (rest : List (ℕ × A)) × (map entry_of ms ++ drop (position g.cursor) stream
          ≡ map entry_of (deliver count stream g ms).messages ++ rest)
  unfolding deliver
  deliver-front count stream g (m ∷ ms) =
      let unread = drop (position g.cursor) stream in
      let entries = redelivered-entries count (m ∷ ms) g.delivery_counts in
      let all_entries = map entry_of (m ∷ ms) in
      (
        drop count all_entries ++ unread,
        ap (λ (es : List (ℕ × A)). es ++ unread) (sym (take-drop count all_entries))
            ∙ append_assoc (take count all_entries) _ unread
            ∙ ap (λ (es : List (ℕ × A)). es ++ (drop count all_entries ++ unread)) (sym entries),
      )
  deliver-front count stream g [] =
      let unread = drop (position g.cursor) stream in
      (
        drop count unread,
        sym (take-drop count unread)
            ∙ ap (λ (es : List (ℕ × A)). es ++ drop count unread)
                (sym (delivered_batch-entries (take count unread) g.delivery_counts)),
      )

  batch-some :
      (n : ℕ) (counts : ℕ → ℕ) (unread : List (ℕ × A))
      → (delivered_batch (take (suc n) unread) counts).0 ≡ []
      → unread ≡ []
  unfolding delivered_batch
  batch-some n counts [] h = refl
  batch-some n counts (e ∷ unread) h = absurd (ground arith)

  -- Something is delivered when something is there.
  pub deliver-some :
      (n : ℕ) (stream : List (ℕ × A)) (g : Group A) (ms : List (QueueMessage A))
      → (deliver (suc n) stream g ms).messages ≡ []
      → map entry_of ms ++ drop (position g.cursor) stream ≡ []
  unfolding deliver redelivered
  deliver-some n stream g (m ∷ ms) h = absurd (ground arith)
  deliver-some n stream g [] h = batch-some n g.delivery_counts _ h

  pub group-with_group :
      (queue group : String) (g : Group A) (q : InMemoryQueue A)
      → (with_group queue group g q).groups queue group ≡ g
  group-with_group queue group g q = rw (eq_refl queue, eq_refl group) refl

  pub started-view :
      (queue group : String) (q : InMemoryQueue A)
      → view queue group (ensure_group queue group backlog q) ≡ view queue group q
  unfolding view ensure_group
  started-view queue group q = elim (Option-cases ((q.groups queue group).cursor)) [
    | inl h ↦ rw (eq_refl queue, eq_refl group, h) refl
    | inr (c, h) ↦ rw (eq_refl queue, eq_refl group, h) refl
  ]

  -- The messages that `consume` returns are the front of the group's view, which it leaves as it was:
  -- nothing is lost before it is acknowledged.
  pub consume-view :
      (queue group : String) (n : ℕ) (q : InMemoryQueue A)
      → let r = consume queue group (suc n) q in
        (view queue group (r.1) ≡ view queue group q)
        × ((rest : List (ℕ × A)) × (view queue group q ≡ map entry_of (r.0) ++ rest))
        × (r.0 ≡ [] → view queue group q ≡ [])
  unfolding consume view
  consume-view queue group n q =
      let s = ensure_group queue group backlog q in
      let stream = s.streams queue in
      let g = s.groups queue group in
      let before = started-view queue group q in
      let (rest, front) = deliver-front (suc n) stream g g.pending in
      (
        ap (view_of stream)
              (group-with_group queue group (deliver (suc n) stream g g.pending).group s)
            ∙ deliver-view (suc n) stream g g.pending
            ∙ before,
        (rest, sym before ∙ front),
        λ empty. sym before ∙ deliver-some n stream g g.pending empty,
      )
