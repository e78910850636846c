-- ===== src/Audit/Verify/Order.antt =====
-- The rolls in the order of their times, and the last of them that recorded a head.
use land_record_digitalizati.Prelude.{
  ℕ, String, ◌≤◌, ◌<◌, ◌≡◌, ◌⊎◌, refl, sym, ◌∙◌, none, some, List, [], ◌∷◌, ◌++◌, All, All-map,
  All-append, Any, ltb, arith, inl, inr, Bool-cases, Option-cases,
}
use land_record_digitalizati.Audit.Chain.{AuditEntry}
use land_record_digitalizati.Audit.Verify.{ChainRoot, recorded_head, rolls_in_order, insert_roll}
use land_record_digitalizati.Audit.Verify.Window.{last_recorded}

module _ (P : ChainRoot → Type 0) where
  insert_roll-All :
      (x : ChainRoot) (ys : List ChainRoot) → All P (insert_roll x ys) → P x × All P ys
  unfolding insert_roll
  insert_roll-All x [] h = h
  insert_roll-All x (y ∷ ys) h = elim (Bool-cases (ltb y.rolled_at x.rolled_at)) [
    | inl less ↦
        let shown : P y × All P (insert_roll x ys) = rw less at h in
        let (first, rest) = insert_roll-All x ys shown.1 in (first, (shown.0, rest))
    | inr more ↦ let shown : P x × (P y × All P ys) = rw more at h in shown
  ]

  pub ordered-All : (xs : List ChainRoot) → All P (rolls_in_order xs) → All P xs
  unfolding rolls_in_order
  ordered-All [] h = tt
  ordered-All (x ∷ xs) h =
      let (first, rest) = insert_roll-All x (rolls_in_order xs) h in (first, ordered-All xs rest)

  insert_roll-Any :
      (x : ChainRoot) (ys : List ChainRoot) → Any P (insert_roll x ys) → P x ⊎ Any P ys
  unfolding insert_roll
  insert_roll-Any x [] h = h
  insert_roll-Any x (y ∷ ys) h = elim (Bool-cases (ltb y.rolled_at x.rolled_at)) [
    | inl less ↦
        let shown : P y ⊎ Any P (insert_roll x ys) = rw less at h in
        elim shown [
          | inl here ↦ inr (inl here)
          | inr later ↦ elim (insert_roll-Any x ys later) [
            | inl this ↦ inl this
            | inr other ↦ inr (inr other)
          ]
        ]
    | inr more ↦ let shown : P x ⊎ Any P (y ∷ ys) = rw more at h in shown
  ]

  pub ordered-Any : (xs : List ChainRoot) → Any P (rolls_in_order xs) → Any P xs
  unfolding rolls_in_order
  ordered-Any [] h = h
  ordered-Any (x ∷ xs) h = elim (insert_roll-Any x (rolls_in_order xs) h) [
    | inl here ↦ inl here
    | inr later ↦ inr (ordered-Any xs later)
  ]

  insert_roll-back :
      (x : ChainRoot) (ys : List ChainRoot) → P x → All P ys → All P (insert_roll x ys)
  unfolding insert_roll
  insert_roll-back x [] p h = (p, tt)
  insert_roll-back x (y ∷ ys) p h = elim (Bool-cases (ltb y.rolled_at x.rolled_at)) [
    | inl less ↦ rw less (h.0, insert_roll-back x ys p h.1)
    | inr more ↦ rw more (p, h)
  ]

-- No roll stands before an earlier one.
unfoldable pub IsSorted : List ChainRoot → Type 0
IsSorted [] = Unit
IsSorted (x ∷ xs) = All (λ y. x.rolled_at ≤ y.rolled_at) xs × IsSorted xs

insert_roll-IsSorted :
    (x : ChainRoot) (ys : List ChainRoot) → IsSorted ys → IsSorted (insert_roll x ys)
unfolding insert_roll IsSorted
insert_roll-IsSorted x [] h = (tt, tt)
insert_roll-IsSorted x (y ∷ ys) h = elim (Bool-cases (ltb y.rolled_at x.rolled_at)) [
  | inl less ↦ rw less (
    insert_roll-back (λ z. y.rolled_at ≤ z.rolled_at) x ys (ground arith) h.0,
    insert_roll-IsSorted x ys h.1,
  )
  | inr more ↦
      let first : x.rolled_at ≤ y.rolled_at = ground arith in
      rw more ((first, All-map _ _ ys (λ z le. omega (arith, le, first)) h.0), h)
]

pub ordered-IsSorted : (xs : List ChainRoot) → IsSorted (rolls_in_order xs)
unfolding rolls_in_order IsSorted
ordered-IsSorted [] = tt
ordered-IsSorted (x ∷ xs) = insert_roll-IsSorted x (rolls_in_order xs) (ordered-IsSorted xs)

pub IsSorted-left : (xs ys : List ChainRoot) → IsSorted (xs ++ ys) → IsSorted xs
unfolding IsSorted
IsSorted-left [] ys h = tt
IsSorted-left (x ∷ xs) ys h = (from_left xs h.0, IsSorted-left xs ys h.1)
  where
    from_left :
        (zs : List ChainRoot)
        → All (λ z. x.rolled_at ≤ z.rolled_at) (zs ++ ys)
        → All (λ z. x.rolled_at ≤ z.rolled_at) zs
    from_left [] a = tt
    from_left (z ∷ zs) a = (a.0, from_left zs a.1)

-- The rolls in front of one are no later, and those behind it are no earlier.
pub IsSorted-sides :
    (xs : List ChainRoot) (x : ChainRoot) (ys : List ChainRoot)
    → IsSorted (xs ++ x ∷ ys)
    → All (λ z. z.rolled_at ≤ x.rolled_at) xs × All (λ z. x.rolled_at ≤ z.rolled_at) ys
unfolding IsSorted
IsSorted-sides [] x ys h = (tt, h.0)
IsSorted-sides (z ∷ xs) x ys h =
    let (before, behind) = IsSorted-sides xs x ys h.1 in ((reaches xs h.0, before), behind)
  where
    reaches :
        (zs : List ChainRoot)
        → All (λ y. z.rolled_at ≤ y.rolled_at) (zs ++ x ∷ ys)
        → z.rolled_at ≤ x.rolled_at
    reaches [] a = a.0
    reaches (y ∷ zs) a = reaches zs a.1

-- What holds of the rolls in front of one holds of every strictly earlier roll.
pub strictly_before :
    (P : ChainRoot → Type 0) (xs : List ChainRoot) (x : ChainRoot) (ys : List ChainRoot)
    → IsSorted (xs ++ x ∷ ys)
    → All P xs
    → All (λ z. z.rolled_at < x.rolled_at → P z) (xs ++ x ∷ ys)
strictly_before P xs x ys sorted h =
    let behind = (IsSorted-sides xs x ys sorted).1 in
    All-append _ xs (x ∷ ys) (All-map _ _ xs (λ z p less. p) h) (
      λ less. absurd (omega (arith, less)),
      All-map _ _ ys (λ z le less. absurd (omega (arith, le, less))) behind,
    )

module _ (rows : List AuditEntry) (s : ℕ) where
  abbrev pub HasHead : ChainRoot → Type 0
  HasHead roll = (h : String) × (recorded_head roll s ≡ some h)

  -- The last roll that recorded a head is one of the list, and no other that did is later.
  abbrev pub IsLast : List ChainRoot → ChainRoot → Type 0
  IsLast rolls a =
      Any (λ r. (r ≡ a) × HasHead r) rolls × All (λ r. HasHead r → r.rolled_at ≤ a.rolled_at) rolls

  IsLast-from :
      (f : ChainRoot) (rolls : List ChainRoot)
      → HasHead f
      → IsSorted (f ∷ rolls)
      → (a : ChainRoot) × (last_recorded rows s (some f) rolls ≡ some a)
        × (f.rolled_at ≤ a.rolled_at)
        × IsLast (f ∷ rolls) a
  unfolding IsSorted
  IsLast-from f [] head h = (f, refl, omega arith, (inl (refl, head), (λ p. omega arith, tt)))
  IsLast-from f (r ∷ rolls) head h = elim (Option-cases (recorded_head r s)) [
    | inl skip ↦
        let sorted : IsSorted (f ∷ rolls) = ((h.0).1, (h.1).1) in
        let (a, last, le, (found, top)) = IsLast-from f rolls head sorted in
        (
          a,
          rw skip last,
          le,
          (
            elim found [ inl here ↦ inl here | inr later ↦ inr (inr later) ],
            (top.0, (λ p. absurd (ground (arith, sym skip ∙ p.1)), top.1)),
          ),
        )
    | inr (k, seen) ↦
        let (a, last, le, (found, top)) = IsLast-from r rolls (k, seen) h.1 in
        let first : f.rolled_at ≤ r.rolled_at = (h.0).0 in
        (
          a,
          rw seen last,
          omega (arith, first, le),
          (inr found, (λ p. omega (arith, first, le), top)),
        )
  ]

  pub last_lem :
      (rolls : List ChainRoot)
      → IsSorted rolls
      → ((last_recorded rows s none rolls ≡ none) × All (λ r. recorded_head r s ≡ none) rolls)
        ⊎ ((a : ChainRoot) × (last_recorded rows s none rolls ≡ some a) × IsLast rolls a)
  unfolding IsSorted
  last_lem [] h = inl (refl, tt)
  last_lem (r ∷ rolls) h = elim (Option-cases (recorded_head r s)) [
    | inr (k, seen) ↦
        let (a, last, le, is_last) = IsLast-from r rolls (k, seen) h in
        inr (a, rw seen last, is_last)
    | inl skip ↦ elim (last_lem rolls h.1) [
      | inl (nothing, bare) ↦ inl (rw skip nothing, (skip, bare))
      | inr (a, last, (found, top)) ↦
          inr (a, rw skip last, (inr found, (λ p. absurd (ground (arith, sym skip ∙ p.1)), top)))
    ]
  ]
