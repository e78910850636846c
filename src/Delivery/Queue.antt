-- ===== src/Delivery/Queue.antt =====
-- libs/queue/src/landqueue/port.py and testing.py: the in-memory queue that the drivers are judged
-- against. A sequence id is the number whose decimal text the source uses. `consume` is one pass of its
-- loop: with nothing to deliver it returns the empty list, as it does when the time is up.
pub mod View
pub mod Load
use land_record_digitalizati.Prelude.{
  ℕ, zero, suc, ◌+◌, String, Bool, true, false, Option, none, some, List, [], ◌∷◌, ◌++◌, length,
  take, drop, filter, not, eqb, ◌==◌, if◌then◌else◌,
}

pub record QueueMessage (A : Type 0) : Type 0 where
  pub sequence_id : ℕ
  pub data_of : A
  pub delivery_count : ℕ

-- What the queue keeps for one group of one queue: the position of the next unread entry, the messages
-- that were delivered and not acknowledged, and how often each one was delivered.
pub record Group (A : Type 0) : Type 0 where
  pub cursor : Option ℕ
  pub pending : List (QueueMessage A)
  pub delivery_counts : ℕ → ℕ

pub record InMemoryQueue (A : Type 0) : Type 0 where
  pub streams : String → List (ℕ × A)
  pub next_seq : ℕ
  pub groups : String → String → Group A

-- `d[key] = value` of a dictionary that is a function of its keys.
abbrev pub at {ℓ} : {B : Type ℓ} → String → B → (String → B) → String → B
at key value d k = if key == k then value else d k

abbrev pub at_seq : ℕ → ℕ → (ℕ → ℕ) → ℕ → ℕ
at_seq n value d k = if eqb n k then value else d k

-- `start="0"` and `start="$"`
pub data Start : Type 0 where
  backlog : Start
  now : Start

abbrev pub started : Start → ℕ → ℕ
started backlog stream_len = 0
started now stream_len = stream_len

-- What a delivery returns beside the group's new state.
pub record Delivery (A : Type 0) : Type 0 where
  pub messages : List (QueueMessage A)
  pub group : Group A

abbrev pub counted_once : ℕ → (ℕ → ℕ) → ℕ → ℕ
counted_once seq_id counts = at_seq seq_id (counts seq_id + 1) counts

abbrev pub position : Option ℕ → ℕ
position none = 0
position (some c) = c

module _ {A : Type 0} where
  unfoldable pub publish : String → A → InMemoryQueue A → ℕ × InMemoryQueue A
  publish queue message q =
      let seq_id = q.next_seq + 1 in
      (
        seq_id,
        record q {
          next_seq = seq_id;
          streams = at queue (q.streams queue ++ (seq_id, message) ∷ []) q.streams;
        },
      )

  abbrev pub with_group : String → String → Group A → InMemoryQueue A → InMemoryQueue A
  with_group queue group g q = record q { groups = at queue (at group g (q.groups queue)) q.groups }

  abbrev pub group_started : Start → ℕ → Group A → Option ℕ → Group A
  group_started start stream_len g none = record g { cursor = some (started start stream_len) }
  group_started start stream_len g (some c) = g

  unfoldable pub ensure_group : String → String → Start → InMemoryQueue A → InMemoryQueue A
  ensure_group queue group start q =
      let g = q.groups queue group in
      with_group queue group (group_started start (length (q.streams queue)) g g.cursor) q

  -- One more delivery of a message to the group.
  abbrev pub delivered : ℕ → A → (ℕ → ℕ) → QueueMessage A
  delivered seq_id message counts = record {
    sequence_id = seq_id;
    data_of = message;
    delivery_count = counts seq_id + 1;
  }

  -- The first `count` pending messages, each delivered once more, and the counts after that.
  unfoldable pub redelivered : ℕ → List (QueueMessage A) → (ℕ → ℕ) → List (QueueMessage A) × (ℕ → ℕ)
  redelivered zero ms counts = ([], counts)
  redelivered (suc n) [] counts = ([], counts)
  redelivered (suc n) (m ∷ ms) counts =
      let rest = redelivered n ms (counted_once m.sequence_id counts) in
      (delivered m.sequence_id m.data_of counts ∷ rest.0, rest.1)

  -- A batch of unread entries, each delivered, and the counts after that.
  unfoldable pub delivered_batch : List (ℕ × A) → (ℕ → ℕ) → List (QueueMessage A) × (ℕ → ℕ)
  delivered_batch [] counts = ([], counts)
  delivered_batch ((seq_id, message) ∷ batch) counts =
      let rest = delivered_batch batch (counted_once seq_id counts) in
      (delivered seq_id message counts ∷ rest.0, rest.1)

  -- Pending messages come first. Else a batch of unread ones becomes the pending dictionary, which is
  -- empty then.
  unfoldable pub deliver : ℕ → List (ℕ × A) → Group A → List (QueueMessage A) → Delivery A
  unfolding redelivered delivered_batch
  deliver count stream g (m ∷ ms) =
      let again = redelivered count (m ∷ ms) g.delivery_counts in
      record {
        messages = again.0;
        group = record g { pending = again.0 ++ drop count (m ∷ ms); delivery_counts = again.1 };
      }
  deliver count stream g [] =
      let cursor = position g.cursor in
      let batch = take count (drop cursor stream) in
      let fresh = delivered_batch batch g.delivery_counts in
      record {
        messages = fresh.0;
        group = record g {
          cursor = some (cursor + length batch);
          pending = fresh.0;
          delivery_counts = fresh.1;
        };
      }

  unfoldable pub consume :
      String → String → ℕ → InMemoryQueue A → List (QueueMessage A) × InMemoryQueue A
  unfolding ensure_group deliver
  consume queue group count q =
      let started_q = ensure_group queue group backlog q in
      let g = started_q.groups queue group in
      let d = deliver count (started_q.streams queue) g g.pending in
      (d.messages, with_group queue group d.group started_q)

  unfoldable pub acked : ℕ → Group A → Group A
  acked seq_id g = record g {
    pending = filter (λ (m : QueueMessage A). not (eqb m.sequence_id seq_id)) g.pending;
  }

  unfoldable pub ack : String → String → ℕ → InMemoryQueue A → InMemoryQueue A
  unfolding acked
  ack queue group seq_id q = with_group queue group (acked seq_id (q.groups queue group)) q

  -- The position behind the entry with a sequence id.
  unfoldable pub position_behind : ℕ → List (ℕ × A) → Option ℕ
  position_behind seq_id [] = none
  position_behind seq_id ((n, message) ∷ stream) =
      let rest = position_behind seq_id stream in if eqb n seq_id then some 1 else one_more rest
    where
      one_more : Option ℕ → Option ℕ
      one_more none = none
      one_more (some i) = some (i + 1)

  unfoldable pub replay_from : String → String → ℕ → InMemoryQueue A → InMemoryQueue A
  unfolding position_behind
  replay_from queue group seq_id q =
      let g = q.groups queue group in
      let cursor = position (position_behind seq_id (q.streams queue)) in
      with_group queue group (record g { cursor = some cursor; pending = [] }) q

  unfoldable pub pending_count : String → String → InMemoryQueue A → ℕ
  pending_count queue group q = length ((q.groups queue group).pending)
