-- ===== src/Audit/Verify/Window.antt =====
-- The window that `bound_tamper_window` reports.
use land_record_digitalizati.Prelude.{
  ℕ, String, ◌≡◌, refl, sym, ap, subst, ◌∙◌, inl, inr, true, false, Option, none, some, List, [],
  ◌∷◌, ◌++◌, arith, All, Bool-cases, Option-cases, ltb,
}
use land_record_digitalizati.Audit.World.{World}
use land_record_digitalizati.Audit.Chain.{AuditEntry, Log}
use land_record_digitalizati.Audit.Verify.{
  ChainRoot, TamperWindow, recorded_head, still_present, window_at, walk_rolls, rolls_in_order,
  insert_roll, bound_tamper_window,
}

module _ (w : World) (rows : List AuditEntry) (s : ℕ) (found : Option ChainRoot) where
  walk_rolls-skip :
      (roll : ChainRoot) (rolls : List ChainRoot)
      → recorded_head roll s ≡ none
      → walk_rolls w rows s found (roll ∷ rolls) ≡ walk_rolls w rows s found rolls
  unfolding walk_rolls
  walk_rolls-skip roll rolls p = ground arith

  walk_rolls-present :
      (roll : ChainRoot) (rolls : List ChainRoot) {h : String}
      → recorded_head roll s ≡ some h
      → still_present rows s h ≡ true
      → walk_rolls w rows s found (roll ∷ rolls) ≡ walk_rolls w rows s (some roll) rolls
  unfolding walk_rolls
  walk_rolls-present roll rolls p q = ground arith

  walk_rolls-gone :
      (roll : ChainRoot) (rolls : List ChainRoot) {h : String}
      → recorded_head roll s ≡ some h
      → still_present rows s h ≡ false
      → walk_rolls w rows s found (roll ∷ rolls) ≡ some (window_at w s found roll)
  unfolding walk_rolls
  walk_rolls-gone roll rolls p q = ground arith

module _ (rows : List AuditEntry) (s : ℕ) where
  -- A head that a roll recorded, if it recorded one, is still the hash of a row of the shard.
  abbrev pub Agrees : ChainRoot → Type 0
  Agrees roll = (h : String) → recorded_head roll s ≡ some h → still_present rows s h ≡ true

  -- The last roll of a list that recorded a head, or `found` where none did.
  abbrev pub last_recorded : Option ChainRoot → List ChainRoot → Option ChainRoot
  last_recorded found [] = found
  last_recorded found (roll ∷ rolls) =
      last_recorded (elim (recorded_head roll s) [ none ↦ found | some h ↦ some roll ]) rolls

  module _ (w : World) where
    -- A window names the first roll whose head is gone and the last roll before it whose head is
    -- there.
    abbrev pub Names : Option ChainRoot → List ChainRoot → TamperWindow → Type 0
    Names found rolls x =
        (earlier : List ChainRoot) × (roll : ChainRoot) × (later : List ChainRoot) × (h : String)
        × (rolls ≡ earlier ++ roll ∷ later)
        × All Agrees earlier
        × (recorded_head roll s ≡ some h)
        × (still_present rows s h ≡ false)
        × (x ≡ window_at w s (last_recorded found earlier) roll)

    Spec : Option ChainRoot → List ChainRoot → Option TamperWindow → Type 0
    Spec found rolls none = All Agrees rolls
    Spec found rolls (some x) = Names found rolls x

    abbrev next_found : Option ChainRoot → ChainRoot → Option ChainRoot
    next_found found roll = elim (recorded_head roll s) [ none ↦ found | some h ↦ some roll ]

    -- A roll that agrees, in front of the rolls that are left.
    extend :
        (found : Option ChainRoot) (roll : ChainRoot) (rolls : List ChainRoot)
        (o : Option TamperWindow)
        → Agrees roll
        → Spec (next_found found roll) rolls o
        → Spec found (roll ∷ rolls) o
    unfolding Spec
    extend found roll rolls none a rest = (a, rest)
    extend found roll rolls (some x) a (earlier, bad, later, h, split, agree, head, gone, names) = (
      roll ∷ earlier,
      bad,
      later,
      h,
      ap (λ (l : List ChainRoot). roll ∷ l) split,
      (a, agree),
      head,
      gone,
      names,
    )

    walk_rolls_lem :
        (found : Option ChainRoot) (rolls : List ChainRoot)
        → Spec found rolls (walk_rolls w rows s found rolls)
    unfolding Spec walk_rolls
    walk_rolls_lem found [] = tt
    walk_rolls_lem found (roll ∷ rolls) = elim (Option-cases (recorded_head roll s)) [
      | inl skip ↦
          subst (Spec found (roll ∷ rolls)) (sym (walk_rolls-skip w rows s found roll rolls skip)) (
            extend found roll rolls (walk_rolls w rows s found rolls) (λ h p. cc)
              (subst (λ f. Spec f rolls (walk_rolls w rows s found rolls))
                (sym
                  (ap (λ (o : Option String). elim o [ none ↦ found | some h ↦ some roll ]) skip))
                (walk_rolls_lem found rolls)))
      | inr (h, head) ↦ elim (Bool-cases (still_present rows s h)) [
        | inl here ↦
            subst (Spec found (roll ∷ rolls))
              (sym (walk_rolls-present w rows s found roll rolls head here))
              (extend found roll rolls (walk_rolls w rows s (some roll) rolls)
                (λ h' p. ground arith)
                (subst (λ f. Spec f rolls (walk_rolls w rows s (some roll) rolls))
                  (sym (
                    ap (λ (o : Option String). elim o [ none ↦ found | some h' ↦ some roll ]) head))
                  (walk_rolls_lem (some roll) rolls)))
        | inr gone ↦
            subst (Spec found (roll ∷ rolls))
              (sym (walk_rolls-gone w rows s found roll rolls head gone))
              ([], roll, rolls, h, refl, tt, head, gone, refl)
      ]
    ]

pub walked-Agrees :
    (w : World) (log : Log) (rolls : List ChainRoot) (s : ℕ)
    → bound_tamper_window w log rolls s ≡ none
    → All (Agrees log.entries s) (rolls_in_order rolls)
unfolding bound_tamper_window Spec
walked-Agrees w log rolls s h =
    subst (Spec log.entries s w none (rolls_in_order rolls)) h
      (walk_rolls_lem log.entries s w none (rolls_in_order rolls))

pub walked-Names :
    (w : World) (log : Log) (rolls : List ChainRoot) (s : ℕ) (x : TamperWindow)
    → bound_tamper_window w log rolls s ≡ some x
    → Names log.entries s w none (rolls_in_order rolls) x
unfolding bound_tamper_window Spec
walked-Names w log rolls s x h =
    subst (Spec log.entries s w none (rolls_in_order rolls)) h
      (walk_rolls_lem log.entries s w none (rolls_in_order rolls))

-- If every recorded head is there, there is no window.
walk_rolls-none :
    (w : World) (rows : List AuditEntry) (s : ℕ) (found : Option ChainRoot) (rolls : List ChainRoot)
    → All (Agrees rows s) rolls
    → walk_rolls w rows s found rolls ≡ none
unfolding walk_rolls
walk_rolls-none w rows s found [] a = refl
walk_rolls-none w rows s found (roll ∷ rolls) a = elim (Option-cases (recorded_head roll s)) [
  | inl skip ↦
      walk_rolls-skip w rows s found roll rolls skip ∙ walk_rolls-none w rows s found rolls a.1
  | inr (h, head) ↦
      walk_rolls-present w rows s found roll rolls head (a.0 h head)
      ∙ walk_rolls-none w rows s (some roll) rolls a.1
]

All-insert_roll :
    (rows : List AuditEntry) (s : ℕ) (x : ChainRoot) (ys : List ChainRoot)
    → Agrees rows s x
    → All (Agrees rows s) ys
    → All (Agrees rows s) (insert_roll x ys)
unfolding insert_roll
All-insert_roll rows s x [] a b = (a, tt)
All-insert_roll rows s x (y ∷ ys) a b = elim (Bool-cases (ltb y.rolled_at x.rolled_at)) [
  | inl less ↦ rw less (b.0, All-insert_roll rows s x ys a b.1)
  | inr more ↦ rw more (a, b)
]

All-rolls_in_order :
    (rows : List AuditEntry) (s : ℕ) (xs : List ChainRoot)
    → All (Agrees rows s) xs
    → All (Agrees rows s) (rolls_in_order xs)
unfolding rolls_in_order
All-rolls_in_order rows s [] a = tt
All-rolls_in_order rows s (x ∷ xs) a =
    All-insert_roll rows s x (rolls_in_order xs) a.0 (All-rolls_in_order rows s xs a.1)

pub bound_tamper_window-none :
    (w : World) (log : Log) (rolls : List ChainRoot) (s : ℕ)
    → All (Agrees log.entries s) rolls
    → bound_tamper_window w log rolls s ≡ none
unfolding bound_tamper_window
bound_tamper_window-none w log rolls s a =
    walk_rolls-none w log.entries s none (rolls_in_order rolls)
      (All-rolls_in_order log.entries s rolls a)
