-- ===== src/Audit/Chain/Order.antt =====
-- The order of a shard's rows: an entry that is later than all others comes last.
use mathlib.Core.List.{append-nil}
use land_record_digitalizati.Prelude.{
  ℕ, ◌<◌, ◌≡◌, refl, Bool, true, false, List, [], ◌∷◌, ◌++◌, arith, filter, filter-append, All,
  Bool-cases, inl, inr,
}
use land_record_digitalizati.Audit.Chain.{
  AuditEntry, before, insert, in_order, in_shard, shard_entries,
}

-- Every entry of the list was made before a time.
abbrev pub Before : ℕ → List AuditEntry → Type 0
Before t = All (λ e. e.at < t)

not-before : (e x : AuditEntry) → x.at < e.at → before e x ≡ false
not-before e x h = ground arith

insert-append_last :
    (x e : AuditEntry) (ys : List AuditEntry)
    → x.at < e.at
    → insert x (ys ++ e ∷ []) ≡ insert x ys ++ e ∷ []
unfolding insert
insert-append_last x e [] h = rw (not-before e x h) refl
insert-append_last x e (y ∷ ys) h = ground (arith, insert-append_last x e ys h)

in_order-append_last :
    (e : AuditEntry) (xs : List AuditEntry)
    → Before e.at xs
    → in_order (xs ++ e ∷ []) ≡ in_order xs ++ e ∷ []
unfolding in_order insert
in_order-append_last e [] h = refl
in_order-append_last e (x ∷ xs) h =
    rw (in_order-append_last e xs h.1) (insert-append_last x e (in_order xs) h.0)

filter-Before :
    (p : AuditEntry → Bool) (t : ℕ) (xs : List AuditEntry) → Before t xs → Before t (filter p xs)
filter-Before p t [] h = tt
filter-Before p t (x ∷ xs) h = ground (arith, filter-Before p t xs h.1)

module _ (s : ℕ) (xs : List AuditEntry) (e : AuditEntry) where
  -- A later entry of the shard extends the rows of the shard.
  pub shard_entries-later :
      Before e.at xs
      → in_shard s e ≡ true
      → shard_entries (xs ++ e ∷ []) s ≡ shard_entries xs s ++ e ∷ []
  unfolding shard_entries
  shard_entries-later h same =
      rw (filter-append (in_shard s) xs (e ∷ []))
        (rw same (in_order-append_last e _ (filter-Before (in_shard s) e.at xs h)))

  -- An entry of another shard leaves them alone.
  pub shard_entries-other :
      in_shard s e ≡ false → shard_entries (xs ++ e ∷ []) s ≡ shard_entries xs s
  unfolding shard_entries
  shard_entries-other other = rw (filter-append (in_shard s) xs (e ∷ [])) (rw other (rw append-nil))

module _ {κ} (P : AuditEntry → Type κ) where
  All-insert : (x : AuditEntry) (ys : List AuditEntry) → P x → All P ys → All P (insert x ys)
  unfolding insert
  All-insert x [] a b = (a, tt)
  All-insert x (y ∷ ys) a b = elim (Bool-cases (before y x)) [
    | inl first ↦ rw first (b.0, All-insert x ys a b.1)
    | inr last ↦ rw last (a, b)
  ]

  All-in_order : (xs : List AuditEntry) → All P xs → All P (in_order xs)
  unfolding in_order
  All-in_order [] a = tt
  All-in_order (x ∷ xs) a = All-insert x (in_order xs) a.0 (All-in_order xs a.1)

  -- What holds of a shard's rows in the table holds of them in chain order.
  pub All-shard_entries :
      (s : ℕ) (rows : List AuditEntry)
      → All P (filter (in_shard s) rows)
      → All P (shard_entries rows s)
  unfolding shard_entries
  All-shard_entries s rows a = All-in_order (filter (in_shard s) rows) a
