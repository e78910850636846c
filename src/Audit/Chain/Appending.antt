-- ===== src/Audit/Chain/Appending.antt =====
-- `append` keeps the chain of every shard sound as long as the clock goes forward.
use land_record_digitalizati.Prelude.{
  ℕ, ◌+◌, ◌<◌, ◌≡◌, refl, Bool, true, none, List, [], ◌∷◌, ◌++◌, arith, Bool-cases, inl, inr,
  eq_refl, same_text_iff, eqb_iff,
}
use land_record_digitalizati.Audit.World.{World, IsForward}
use land_record_digitalizati.Audit.Chain.{
  AuditEntry, Log, Request, append, new_entry, expected_hash, chains, first_broken, shard_entries,
  shard_head, in_shard, verify_shard, returned, resolve_shard,
}
use land_record_digitalizati.Audit.Chain.Order.{Before, shard_entries-later, shard_entries-other}
use land_record_digitalizati.Audit.Chain.Walk.{end_hash-hash_of_last, first_broken-append}

module _ (w : World) where
  new_entry-chains :
      (r : Request) (log : Log)
      → chains w (shard_head log (resolve_shard w r)) (new_entry w r log) ≡ true
  unfolding new_entry expected_hash
  new_entry-chains r log =
      rw ((same_text_iff (shard_head log (resolve_shard w r)) _).1 refl) (eq_refl _)

  shard-new_entry : (r : Request) (log : Log) → (new_entry w r log).shard_id ≡ resolve_shard w r
  unfolding new_entry
  shard-new_entry r log = refl

  at-new_entry : (r : Request) (log : Log) → (new_entry w r log).at ≡ w.clock log.ticks
  unfolding new_entry
  at-new_entry r log = refl

  -- Every shard recomputes, and every entry was made before the next reading of the clock.
  pub record IsSound (log : Log) : Type 0 where
    pub sound : (s : ℕ) → first_broken w none (shard_entries log.entries s) ≡ none
    pub past : Before (w.clock log.ticks) log.entries

  pub Before-append :
      (t u : ℕ) (xs : List AuditEntry) (e : AuditEntry)
      → Before t xs
      → t < u
      → e.at < u
      → Before u (xs ++ e ∷ [])
  Before-append t u [] e h lt k = (k, tt)
  Before-append t u (x ∷ xs) e h lt k = (omega arith, Before-append t u xs e h.1 lt k)

  -- The loop of `verify_shard` after any entry that chains from the head of its shard.
  sound_later :
      (log : Log) (e : AuditEntry) (s : ℕ)
      → first_broken w none (shard_entries log.entries s) ≡ none
      → Before e.at log.entries
      → (in_shard s e ≡ true → chains w (shard_head log s) e ≡ true)
      → first_broken w none (shard_entries (log.entries ++ e ∷ []) s) ≡ none
  unfolding shard_head
  sound_later log e s h past link = elim (Bool-cases (in_shard s e)) [
    | inl same ↦ rw (shard_entries-later s log.entries e past same) (
        first_broken-append w none _ e h
          (rw (end_hash-hash_of_last w (shard_entries log.entries s)) (link same)))
    | inr other ↦ rw (shard_entries-other s log.entries e other) h
  ]

  new_entry-link :
      (r : Request) (log : Log) (s : ℕ)
      → in_shard s (new_entry w r log) ≡ true
      → chains w (shard_head log s) (new_entry w r log) ≡ true
  unfolding new_entry
  new_entry-link r log s same =
      rw (← (eqb_iff _ _).0 same) (rw (shard-new_entry r log) (new_entry-chains r log))

  -- Appending an entry keeps every shard sound, if the clock goes forward.
  pub append-IsSound :
      (r : Request) (log : Log) → IsForward w → IsSound log → IsSound (append w r log).1
  unfolding append
  append-IsSound r log forward h = record {
    sound = λ s.
        sound_later log (new_entry w r log) s (h.sound s) (rw (at-new_entry r log) h.past)
          (new_entry-link r log s);
    past =
        Before-append (w.clock log.ticks) (w.clock (log.ticks + 1)) log.entries (new_entry w r log)
          h.past (forward log.ticks) (rw (at-new_entry r log) (forward log.ticks));
  }

  -- The log after a sequence of calls of `append`.
  unfoldable pub append_all : List Request → Log → Log
  append_all [] log = log
  append_all (r ∷ rs) log = append_all rs (append w r log).1

  append_all-IsSound :
      (rs : List Request) (log : Log) → IsForward w → IsSound log → IsSound (append_all rs log)
  unfolding append_all
  append_all-IsSound [] log forward h = h
  append_all-IsSound (r ∷ rs) log forward h =
      append_all-IsSound rs (append w r log).1 forward (append-IsSound r log forward h)

abbrev pub empty_log : Log
empty_log = record { entries = []; ticks = 0 }

pub empty_log-IsSound : (w : World) → IsSound w empty_log
unfolding shard_entries first_broken
empty_log-IsSound w = record { sound = λ t. refl; past = tt }

-- Whatever is appended to an empty log, in whatever order over the shards, every shard verifies,
-- if each reading of the clock is later than the one before.
pub verify_shard-append_all :
    (w : World) (rs : List Request) (s : ℕ) (raise_on_mismatch : Bool)
    → IsForward w
    → verify_shard w (append_all w rs empty_log) s raise_on_mismatch ≡ returned true
unfolding verify_shard
verify_shard-append_all w rs s raise_on_mismatch forward =
    rw ((append_all-IsSound w rs empty_log forward (empty_log-IsSound w)).sound s) refl
