-- ===== src/Delivery/Queue/Load.antt =====
-- How much work a group has left: each unacknowledged message weighs one, and one more for each
-- delivery below the limit that it has not had yet.
use land_record_digitalizati.Prelude.{
  eqb_iff, ℕ, zero, suc, ◌+◌, ◌-◌, ◌≤◌, ◌<◌, Bool, true, Option, none, List, [], ◌∷◌, ◌++◌, map,
  filter, not, take, drop, ◌≡◌, refl, ap, subst, eqb, arith, Bool-cases, inl, inr,
}
use land_record_digitalizati.Delivery.Queue.{
  QueueMessage, Group, Delivery, counted_once, position, redelivered, delivered_batch, deliver,
  acked,
}
use land_record_digitalizati.Delivery.Queue.View.{entry_of, view_of, deliver-view}

-- No count is smaller.
abbrev pub Grows : (ℕ → ℕ) → (ℕ → ℕ) → Type 0
Grows counts later = (k : ℕ) → counts k ≤ later k

counted_once-Grows : (n : ℕ) (counts : ℕ → ℕ) → Grows counts (counted_once n counts)
counted_once-Grows n counts k = elim (Bool-cases (eqb n k)) [
  | inl h ↦ rw h (omega (arith, ap counts ((eqb_iff n k).0 h)))
  | inr h ↦ rw h (omega arith)
]

eqb_refl : (n : ℕ) → eqb n n ≡ true
eqb_refl n = (eqb_iff n n).1 refl

counted_once-here : (n : ℕ) (counts : ℕ → ℕ) → counted_once n counts n ≡ counts n + 1
counted_once-here n counts = rw (eqb_refl n) refl

module _ {A : Type 0} where
  redelivered-Grows :
      (n : ℕ) (ms : List (QueueMessage A)) (counts : ℕ → ℕ)
      → Grows counts ((redelivered n ms counts).1)
  unfolding redelivered
  redelivered-Grows zero ms counts k = omega arith
  redelivered-Grows (suc n) [] counts k = omega arith
  redelivered-Grows (suc n) (m ∷ ms) counts k = omega (
    arith,
    counted_once-Grows m.sequence_id counts k,
    redelivered-Grows n ms (counted_once m.sequence_id counts) k,
  )

  delivered_batch-Grows :
      (batch : List (ℕ × A)) (counts : ℕ → ℕ) → Grows counts ((delivered_batch batch counts).1)
  unfolding delivered_batch
  delivered_batch-Grows [] counts k = omega arith
  delivered_batch-Grows ((n, a) ∷ batch) counts k =
      omega (
        arith,
        counted_once-Grows n counts k,
        delivered_batch-Grows batch (counted_once n counts) k,
      )

  pub deliver-Grows :
      (count : ℕ) (stream : List (ℕ × A)) (g : Group A) (ms : List (QueueMessage A))
      → Grows g.delivery_counts (deliver count stream g ms).group.delivery_counts
  unfolding deliver
  deliver-Grows count stream g (m ∷ ms) = redelivered-Grows count (m ∷ ms) g.delivery_counts
  deliver-Grows count stream g [] =
      delivered_batch-Grows (take count (drop (position g.cursor) stream)) g.delivery_counts

  -- The weight of the messages of a view.
  unfoldable pub weigh : ℕ → (ℕ → ℕ) → List (ℕ × A) → ℕ
  weigh limit counts [] = 0
  weigh limit counts ((n, a) ∷ es) = 1 + (limit - counts n) + weigh limit counts es

  pub weigh-Grows :
      (limit : ℕ) (counts later : ℕ → ℕ) (es : List (ℕ × A))
      → Grows counts later
      → weigh limit later es ≤ weigh limit counts es
  unfolding weigh
  weigh-Grows limit counts later [] grows = omega arith
  weigh-Grows limit counts later ((n, a) ∷ es) grows =
      omega (arith, grows n, weigh-Grows limit counts later es grows)

  weigh-append :
      (limit : ℕ) (counts : ℕ → ℕ) (es fs : List (ℕ × A))
      → weigh limit counts (es ++ fs) ≡ weigh limit counts es + weigh limit counts fs
  unfolding weigh
  weigh-append limit counts [] fs = omega arith
  weigh-append limit counts ((n, a) ∷ es) fs = omega (arith, weigh-append limit counts es fs)

  -- The work that a group has left.
  unfoldable pub load_of : ℕ → List (ℕ × A) → Group A → ℕ
  unfolding weigh
  load_of limit stream g = weigh limit g.delivery_counts (view_of stream g)

  weigh-filter :
      (limit : ℕ) (counts : ℕ → ℕ) (p : QueueMessage A → Bool) (ms : List (QueueMessage A))
      → weigh limit counts (map entry_of (filter p ms)) ≤ weigh limit counts (map entry_of ms)
  unfolding weigh
  weigh-filter limit counts p [] = omega arith
  weigh-filter limit counts p (m ∷ ms) = elim (Bool-cases (p m)) [
    | inl h ↦ rw h (omega (arith, weigh-filter limit counts p ms))
    | inr h ↦ rw h (omega (arith, weigh-filter limit counts p ms))
  ]

  -- An acknowledgement never adds work, and takes some away when it is of the first pending message.
  pub acked-load :
      (limit : ℕ) (stream : List (ℕ × A)) (n : ℕ) (g : Group A)
      → load_of limit stream (acked n g) ≤ load_of limit stream g
  unfolding load_of acked
  acked-load limit stream n g =
      let unread = drop (position g.cursor) stream in
      let kept = filter (λ (m : QueueMessage A). not (eqb m.sequence_id n)) g.pending in
      omega (
        arith,
        weigh-append limit g.delivery_counts (map entry_of kept) unread,
        weigh-append limit g.delivery_counts (map entry_of g.pending) unread,
        weigh-filter limit g.delivery_counts (λ m. not (eqb m.sequence_id n)) g.pending,
      )

  pub acked-first :
      (limit : ℕ) (stream : List (ℕ × A)) (g : Group A) (m : QueueMessage A)
      (ps : List (QueueMessage A))
      → g.pending ≡ m ∷ ps
      → load_of limit stream (acked m.sequence_id g) < load_of limit stream g
  unfolding load_of acked weigh
  acked-first limit stream g m ps first =
      let unread = drop (position g.cursor) stream in
      let counts = g.delivery_counts in
      let others = λ (x : QueueMessage A). not (eqb x.sequence_id m.sequence_id) in
      rw (first, eqb_refl m.sequence_id)
        (omega (
          arith,
          weigh-append limit counts (map entry_of (filter others ps)) unread,
          weigh-append limit counts (map entry_of ps) unread,
          weigh-filter limit counts others ps,
        ))

  -- The first message of a delivery is the first pending one, counted once more.
  unfoldable pub First : Group A → (ℕ → ℕ) → List (QueueMessage A) → Type 0
  First g counts [] = Unit
  First g counts (m ∷ ms) =
      ((ps : List (QueueMessage A)) × (g.pending ≡ m ∷ ps))
      × (counts m.sequence_id < m.delivery_count)
      × (m.delivery_count ≤ g.delivery_counts m.sequence_id)

  batch-First :
      (batch : List (ℕ × A)) (cursor : Option ℕ) (counts : ℕ → ℕ)
      → First
          (record {
            cursor = cursor;
            pending = (delivered_batch batch counts).0;
            delivery_counts = (delivered_batch batch counts).1;
          })
          counts
          ((delivered_batch batch counts).0)
  unfolding First delivered_batch
  batch-First [] cursor counts = tt
  batch-First ((n, a) ∷ batch) cursor counts = (
    (_, refl),
    omega arith,
    omega
        (arith, counted_once-here n counts, delivered_batch-Grows batch (counted_once n counts) n),
  )

  pub deliver-First :
      (n : ℕ) (stream : List (ℕ × A)) (g : Group A) (ms : List (QueueMessage A))
      → First
          (deliver (suc n) stream g ms).group
          g.delivery_counts
          (deliver (suc n) stream g ms).messages
  unfolding deliver First redelivered
  deliver-First n stream g (m ∷ ms) = (
    (_, refl),
    omega arith,
    omega (
      arith,
      counted_once-here m.sequence_id g.delivery_counts,
      redelivered-Grows n ms (counted_once m.sequence_id g.delivery_counts) m.sequence_id,
    ),
  )
  deliver-First n stream g [] =
      batch-First (take (suc n) (drop (position g.cursor) stream)) none g.delivery_counts

  -- The counts' growth takes work away from a first message that is below the limit.
  First-load :
      (limit : ℕ) (counts : ℕ → ℕ) (stream : List (ℕ × A)) (g : Group A) (m : QueueMessage A)
      (ms : List (QueueMessage A))
      → Grows counts g.delivery_counts
      → First g counts (m ∷ ms)
      → m.delivery_count < limit
      → load_of limit stream g < weigh limit counts (view_of stream g)
  unfolding load_of weigh First
  First-load limit counts stream g m ms grows ((ps, first), counted, bounded) below =
      let unread = drop (position g.cursor) stream in
      let rest = weigh-Grows limit counts g.delivery_counts (map entry_of ps ++ unread) grows in
      rw first (omega (arith, counted, bounded, below, rest))

  module _ (limit n : ℕ) (stream : List (ℕ × A)) (g : Group A) where
    abbrev pub delivery : Delivery A
    delivery = deliver (suc n) stream g g.pending

    same_view :
        weigh limit g.delivery_counts (view_of stream delivery.group) ≡ load_of limit stream g
    unfolding load_of
    same_view = ap (weigh limit g.delivery_counts) (deliver-view (suc n) stream g g.pending)

    -- A delivery adds no work, and takes some away when its first message is below the limit.
    pub deliver-load : load_of limit stream delivery.group ≤ load_of limit stream g
    unfolding load_of
    deliver-load =
        let grows = deliver-Grows (suc n) stream g g.pending in
        let less = weigh-Grows limit g.delivery_counts _ (view_of stream delivery.group) grows in
        omega (arith, less, same_view)

    pub deliver-first_load :
        (m : QueueMessage A) (ms : List (QueueMessage A))
        → delivery.messages ≡ m ∷ ms
        → m.delivery_count < limit
        → load_of limit stream delivery.group < load_of limit stream g
    deliver-first_load m ms h below =
        let grows = deliver-Grows (suc n) stream g g.pending in
        let first : First delivery.group g.delivery_counts (m ∷ ms) =
          subst (First delivery.group g.delivery_counts) h (deliver-First n stream g g.pending) in
        omega (
          arith,
          First-load limit g.delivery_counts stream delivery.group m ms grows first below,
          same_view,
        )

    pub deliver-pending :
        (m : QueueMessage A) (ms : List (QueueMessage A))
        → delivery.messages ≡ m ∷ ms
        → (ps : List (QueueMessage A)) × (delivery.group.pending ≡ m ∷ ps)
    unfolding First
    deliver-pending m ms h =
        let first : First delivery.group g.delivery_counts (m ∷ ms) =
          subst (First delivery.group g.delivery_counts) h (deliver-First n stream g g.pending) in
        first.0
