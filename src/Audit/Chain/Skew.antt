-- ===== src/Audit/Chain/Skew.antt =====
-- An entry whose clock reading lies before the shard's rows breaks the shard's own verification.
use land_record_digitalizati.Prelude.{
  ℕ, String, ◌<◌, ◌≡◌, refl, Bool, true, false, none, some, List, [], ◌∷◌, ◌++◌, arith, All, filter,
  filter-append, eqb_iff,
}
use land_record_digitalizati.Audit.World.{World}
use land_record_digitalizati.Audit.Chain.{
  AuditEntry, Log, Request, append, new_entry, insert, in_order, in_shard, chains, first_broken,
  shard_entries, shard_head, verify_shard, returned, resolve_shard,
}

-- Every entry of the list was made after a time.
abbrev pub After : ℕ → List AuditEntry → Type 0
After t = All (λ e. t < e.at)

insert-earliest :
    (x e : AuditEntry) (ys : List AuditEntry) → e.at < x.at → insert x (e ∷ ys) ≡ e ∷ insert x ys
unfolding insert
insert-earliest x e ys h = ground arith

in_order-earliest :
    (e : AuditEntry) (xs : List AuditEntry)
    → After e.at xs
    → in_order (xs ++ e ∷ []) ≡ e ∷ in_order xs
unfolding in_order insert
in_order-earliest e [] h = refl
in_order-earliest e (x ∷ xs) h =
    rw (in_order-earliest e xs h.1) (insert-earliest x e (in_order xs) h.0)

filter-After :
    (p : AuditEntry → Bool) (t : ℕ) (xs : List AuditEntry) → After t xs → After t (filter p xs)
filter-After p t [] h = tt
filter-After p t (x ∷ xs) h = ground (arith, filter-After p t xs h.1)

shard_entries-earliest :
    (s : ℕ) (xs : List AuditEntry) (e : AuditEntry)
    → After e.at xs
    → in_shard s e ≡ true
    → shard_entries (xs ++ e ∷ []) s ≡ e ∷ shard_entries xs s
unfolding shard_entries
shard_entries-earliest s xs e h same =
    rw (filter-append (in_shard s) xs (e ∷ []))
      (rw same (in_order-earliest e _ (filter-After (in_shard s) e.at xs h)))

linked-not_first :
    (w : World) (e : AuditEntry) (h : String) → e.prev_hash ≡ some h → chains w none e ≡ false
linked-not_first w e h p = rw p

-- If the clock reads a time before every row, and the shard that the entry goes to has rows, then
-- the shard does not verify after the call of `append`, though nobody has changed a row.
pub verify_shard-append_skewed :
    (w : World) (r : Request) (log : Log) {h : String}
    → After (w.clock log.ticks) log.entries
    → shard_head log (resolve_shard w r) ≡ some h
    → verify_shard w (append w r log).1 (resolve_shard w r) false ≡ returned false
unfolding verify_shard append new_entry first_broken
verify_shard-append_skewed w r log {h} late head =
    rw
      (shard_entries-earliest (resolve_shard w r) log.entries (new_entry w r log) late
        ((eqb_iff (resolve_shard w r) (resolve_shard w r)).1 refl))
      (rw (linked-not_first w (new_entry w r log) h head) refl)
