-- ===== src/Audit/Verify/Named.antt =====
-- What a tamper window names, and what its absence means, for the rolls as they are in the table.
use land_record_digitalizati.Prelude.{
  ℕ, String, ◌≤◌, ◌<◌, ◌≡◌, ◌≢◌, ◌⊎◌, ◌↔◌, refl, sym, ap, ◌∙◌, subst, true, Option, none, some,
  List, [], ◌∷◌, ◌++◌, All, All-map, All-Any, Any, Any-map, Any-any, any-Any, Any-left, Any-right,
  eqb, arith, inl, inr, Bool-cases, find, ◌&&◌, ◌==◌, eq_iff, &&-eq-true,
}
use land_record_digitalizati.Audit.World.{World}
use land_record_digitalizati.Audit.Chain.{AuditEntry, Log, in_shard}
use land_record_digitalizati.Audit.Merkle.{ShardHeadRecord}
use land_record_digitalizati.Audit.Verify.{
  ChainRoot, TamperWindow, recorded_head, still_present, window_at, rolls_in_order,
  bound_tamper_window,
}
use land_record_digitalizati.Audit.Verify.Window.{
  Agrees, last_recorded, walked-Agrees, walked-Names,
}
use land_record_digitalizati.Audit.Verify.Order.{
  ordered-All, ordered-Any, IsSorted, ordered-IsSorted, IsSorted-left, IsSorted-sides,
  strictly_before, HasHead, last_lem,
}

-- The first record of the shard in a roll has the head.
abbrev pub HeadIn : ℕ → String → List ShardHeadRecord → Type 0
HeadIn s h [] = ⊥
HeadIn s h (r ∷ rs) =
    ((r.shard_id ≡ s) × (r.head_hash ≡ some h)) ⊎ ((r.shard_id ≢ s) × HeadIn s h rs)

abbrev pub Records : ℕ → ChainRoot → String → Type 0
Records s roll h = HeadIn s h roll.shard_heads

-- A row of the shard has the hash.
abbrev pub Present : List AuditEntry → ℕ → String → Type 0
Present rows s h = Any (λ (e : AuditEntry). (e.shard_id ≡ s) × (e.hash ≡ h)) rows

head_of : ℕ → List ShardHeadRecord → Option String
head_of s rs = elim (find (λ (r : ShardHeadRecord). eqb r.shard_id s) rs) [
  | none ↦ none
  | some r ↦ r.head_hash
]

HeadIn-iff :
    (s : ℕ) (h : String) (rs : List ShardHeadRecord) → HeadIn s h rs ↔ (head_of s rs ≡ some h)
unfolding head_of
HeadIn-iff s h [] = (λ lost. elim lost [ ], λ e. absurd (ground (arith, e)))
HeadIn-iff s h (r ∷ rs) = elim (Bool-cases (eqb r.shard_id s)) [
  | inl here ↦
      let same : r.shard_id ≡ s = ground arith in
      (
        λ p. elim p [ inl q ↦ rw (head_of, here) q.1 | inr q ↦ absurd (q.0 same) ],
        λ e. inl (same, rw (head_of, here) at e),
      )
  | inr other ↦
      let (there, back) = HeadIn-iff s h rs in
      let differs : r.shard_id ≢ s = λ e. absurd (ground (arith, e)) in
      (
        λ p. elim p [ inl q ↦ absurd (differs q.0) | inr q ↦ rw (head_of, other) (there q.1) ],
        λ e. inr (differs, back (rw (head_of, other) at e)),
      )
]

Records-iff :
    (s : ℕ) (roll : ChainRoot) (h : String) → Records s roll h ↔ (recorded_head roll s ≡ some h)
unfolding recorded_head head_of
Records-iff s roll h = HeadIn-iff s h roll.shard_heads

Present-row :
    (rows : List AuditEntry) (s : ℕ) (h : String) → still_present rows s h ≡ true → Present rows s h
unfolding still_present
Present-row rows s h p =
    Any-map _ _ rows
      (λ e both.
        let (own, same) = &&-eq-true (in_shard s e) (e.hash == h) both in
        (ground arith, (eq_iff e.hash h).0 same))
      (any-Any (λ (e : AuditEntry). in_shard s e && e.hash == h) rows p)

row-Present :
    (rows : List AuditEntry) (s : ℕ) (h : String) → Present rows s h → still_present rows s h ≡ true
unfolding still_present
row-Present rows s h p =
    Any-any (λ (e : AuditEntry). in_shard s e && e.hash == h) rows
      (Any-map _ _ rows (λ e both. rw ((eq_iff e.hash h).1 both.1) (ground (arith, both.0))) p)

-- Every head that the roll recorded for the shard is the hash of one of its rows.
abbrev pub Confirmed : List AuditEntry → ℕ → ChainRoot → Type 0
Confirmed rows s roll = (h : String) → Records s roll h → Present rows s h

Agrees-Confirmed :
    (rows : List AuditEntry) (s : ℕ) (roll : ChainRoot) → Agrees rows s roll → Confirmed rows s roll
Agrees-Confirmed rows s roll a h p = Present-row rows s h (a h ((Records-iff s roll h).0 p))

-- If no tamper window is found for a shard, then whatever head a roll of the table recorded for the
-- shard, a row of the shard still has that hash.
pub Agrees-bound_tamper_window :
    (w : World) (log : Log) (rolls : List ChainRoot) (s : ℕ)
    → bound_tamper_window w log rolls s ≡ none
    → All (Confirmed log.entries s) rolls
Agrees-bound_tamper_window w log rolls s h =
    All-map _ _ rolls (λ roll a. Agrees-Confirmed log.entries s roll a)
      (ordered-All (Agrees log.entries s) rolls (walked-Agrees w log rolls s h))

module _ (w : World) (rows : List AuditEntry) (rolls : List ChainRoot) (s : ℕ) where
  -- The last agreeing roll of a window: none where no strictly earlier roll recorded a head, or a roll
  -- of the table, no later than the disagreeing one, whose recorded head is a row's hash, with no
  -- strictly earlier roll that recorded a head behind it.
  abbrev pub LastAgreeing : ChainRoot → TamperWindow → Type 0
  LastAgreeing roll x =
      (All (λ r. r.rolled_at < roll.rolled_at → (h : String) → Records s r h → ⊥) rolls
        × (x.last_agreeing_root_id ≡ none)
        × (x.last_agreeing_rolled_at ≡ none))
      ⊎ ((a : ChainRoot) × (h : String) × Any (λ r. r ≡ a) rolls
          × (a.rolled_at ≤ roll.rolled_at)
          × Records s a h
          × Present rows s h
          × All
              (λ r.
                r.rolled_at < roll.rolled_at
                → (k : String) → Records s r k
                → r.rolled_at ≤ a.rolled_at)
              rolls
          × (x.last_agreeing_root_id ≡ some a.id)
          × (x.last_agreeing_rolled_at ≡ some (w.isoformat a.rolled_at)))

  -- The disagreeing roll of a window: a roll of the table whose recorded head no row of the shard has,
  -- while the heads of the strictly earlier rolls are all there.
  abbrev pub Disagreeing : ChainRoot → TamperWindow → Type 0
  Disagreeing roll x =
      (h : String) × Any (λ r. r ≡ roll) rolls
      × Records s roll h
      × (Present rows s h → ⊥)
      × All (λ r. r.rolled_at < roll.rolled_at → Confirmed rows s r) rolls
      × (x.shard_id ≡ s)
      × (x.earliest_disagreeing_root_id ≡ roll.id)
      × (x.earliest_disagreeing_rolled_at ≡ w.isoformat roll.rolled_at)

  module _ (earlier : List ChainRoot) (roll : ChainRoot) (later : List ChainRoot)
      (split : rolls_in_order rolls ≡ earlier ++ roll ∷ later) where
    in_split : IsSorted (earlier ++ roll ∷ later)
    in_split = subst IsSorted split (ordered-IsSorted rolls)

    -- What holds of the rolls that were walked before holds of every strictly earlier roll.
    walked_before :
        (P : ChainRoot → Type 0)
        → All P earlier
        → All (λ r. r.rolled_at < roll.rolled_at → P r) rolls
    walked_before P h =
        ordered-All (λ r. r.rolled_at < roll.rolled_at → P r) rolls
          (subst (All (λ (r : ChainRoot). r.rolled_at < roll.rolled_at → P r)) (sym split)
            (strictly_before P earlier roll later in_split h))

    walked-Any : (P : ChainRoot → Type 0) → Any P (earlier ++ roll ∷ later) → Any P rolls
    walked-Any P h = ordered-Any P rolls (subst (Any P) (sym split) h)

    last_agreeing :
        All (Agrees rows s) earlier
        → LastAgreeing roll (window_at w s (last_recorded rows s none earlier) roll)
    unfolding window_at
    last_agreeing agree =
        elim (last_lem rows s earlier (IsSorted-left earlier (roll ∷ later) in_split)) [
          | inl (nothing, bare) ↦ rw nothing (
              inl (
                walked_before (λ r. (h : String) → Records s r h → ⊥)
                    (All-map _ _ earlier
                      (λ r bare_roll h p.
                        absurd (ground (arith, sym bare_roll ∙ (Records-iff s r h).0 p)))
                      bare),
                refl,
                refl,
              ))
          | inr (a, last, (found, top)) ↦
              let sides = (IsSorted-sides earlier roll later in_split).0 in
              let all_three = All-Any _ _ earlier agree (All-Any _ _ earlier sides found) in
              let (h, head, there, le) = found_head earlier a all_three in
              rw last (
                inr (
                  a,
                  h,
                  walked-Any (λ r. r ≡ a)
                      (Any-left _ earlier (roll ∷ later)
                        (Any-map _ _ earlier (λ r both. both.0) found)),
                  le,
                  (Records-iff s a h).1 head,
                  there,
                  walked_before (λ r. (k : String) → Records s r k → r.rolled_at ≤ a.rolled_at)
                      (All-map _ _ earlier (λ r le k p. le (k, (Records-iff s r k).0 p)) top),
                  refl,
                  refl,
                ))
        ]
      where
        found_head :
            (rs : List ChainRoot) (a : ChainRoot)
            → Any
                (λ r.
                  Agrees rows s r × ((r.rolled_at ≤ roll.rolled_at) × ((r ≡ a) × HasHead rows s r)))
                rs
            → (h : String) × (recorded_head a s ≡ some h)
              × Present rows s h
              × (a.rolled_at ≤ roll.rolled_at)
        found_head [] a lost = elim lost [ ]
        found_head (r ∷ rs) a (inr found) = found_head rs a found
        found_head (r ∷ rs) a (inl (agree, (le, (same, (h, head))))) =
            subst
              (λ (q : ChainRoot).
                (k : String) × (recorded_head q s ≡ some k)
                × Present rows s k
                × (q.rolled_at ≤ roll.rolled_at))
              same (h, head, Present-row rows s h (agree h head), le)

-- If a tamper window is found for a shard, its disagreeing roll is a roll of the table whose recorded
-- head no row of the shard has, and the head of every strictly earlier roll is still there. Its last
-- agreeing roll is a roll that is no later, whose recorded head is there, with no strictly earlier
-- roll that recorded a head behind it; or it names none, and no strictly earlier roll recorded a head.
-- The window carries the ids and the times of these rolls.
pub Names-bound_tamper_window :
    (w : World) (log : Log) (rolls : List ChainRoot) (s : ℕ) (x : TamperWindow)
    → bound_tamper_window w log rolls s ≡ some x
    → (roll : ChainRoot) × Disagreeing w log.entries rolls s roll x
      × LastAgreeing w log.entries rolls s roll x
unfolding window_at
Names-bound_tamper_window w log rolls s x found =
    let (earlier, roll, later, h, split, agree, head, gone, names) =
      walked-Names w log rolls s x found in
    let rows = log.entries in
    let there =
      walked-Any w rows rolls s earlier roll later split (λ r. r ≡ roll)
        (Any-right _ earlier (roll ∷ later) (inl refl)) in
    let before =
      walked_before w rows rolls s earlier roll later split (Confirmed rows s)
        (All-map _ _ earlier (λ r a. Agrees-Confirmed rows s r a) agree) in
    let lost =
      λ (p : Present rows s h). absurd (ground (arith, sym gone ∙ row-Present rows s h p)) in
    (
      roll,
      (
        h,
        there,
        (Records-iff s roll h).1 head,
        lost,
        before,
        ap (λ (y : TamperWindow). y.shard_id) names,
        ap (λ (y : TamperWindow). y.earliest_disagreeing_root_id) names,
        ap (λ (y : TamperWindow). y.earliest_disagreeing_rolled_at) names,
      ),
      subst (LastAgreeing w rows rolls s roll) (sym names)
          (last_agreeing w rows rolls s earlier roll later split agree),
    )
