-- ===== src/Modelwork/Splits/Isolation.antt =====
-- Lemmas on the pages of a split and the labels that stand on them.
use mathlib.Core.List.{Perm, perm_middle}
use mathlib.Core.List.Perm
use land_record_digitalizati.Prelude.{
  ℕ, zero, suc, String, Bool, true, false, ◌||◌, List, [], ◌∷◌, ◌++◌, any, take, drop, length, All,
  ◌≡◌, refl, ap, ◌∙◌, subst, arith, inl, inr, ◌==◌, eq_iff, eq_refl, Bool-cases, leb,
}
use land_record_digitalizati.Backend.Session.{contains}
use land_record_digitalizati.Modelwork.Errors.{ok}
use land_record_digitalizati.Modelwork.Runtime.{Texts, is_filled, insert_text, sorted, distinct}
use land_record_digitalizati.Modelwork.Runtime.Groups.{differs_sym}
use land_record_digitalizati.Modelwork.Training.{CorrectionLabel}
use land_record_digitalizati.Modelwork.Splits.{
  assert_no_leakage, split_pages, labels_of, digests_of, page_digests,
  partition_training_and_evaluation,
}

-- No text stands twice.
Distinct : List String → Type 0
Distinct [] = Unit
Distinct (t ∷ ts) = (contains t ts ≡ false) × Distinct ts

contains-distinct : (x : String) (ts : List String) → contains x (distinct ts) ≡ contains x ts
unfolding distinct
contains-distinct x [] = refl
contains-distinct x (t ∷ ts) = elim (Bool-cases (contains t (distinct ts))) [
  | inl seen ↦ elim (Bool-cases (t == x)) [
    | inl same ↦
        let there =
          subst (λ (y : String). contains y (distinct ts) ≡ true) ((eq_iff t x).0 same) seen in
        rw (seen, same) there
    | inr other ↦ rw (seen, other) (contains-distinct x ts)
  ]
  | inr new ↦ rw new (ap (λ (b : Bool). (t == x) || b) (contains-distinct x ts))
]

distinct-Distinct : (ts : List String) → Distinct (distinct ts)
unfolding distinct Distinct
distinct-Distinct [] = tt
distinct-Distinct (t ∷ ts) = elim (Bool-cases (contains t (distinct ts))) [
  | inl seen ↦ rw seen (distinct-Distinct ts)
  | inr new ↦ rw new (new, distinct-Distinct ts)
]

module _ ⦃tx : Texts⦄ where
  contains-insert_text :
      (x t : String) (us : List String)
      → contains x (insert_text t us) ≡ ((t == x) || contains x us)
  unfolding insert_text
  contains-insert_text x t [] = refl
  contains-insert_text x t (u ∷ us) = elim (Bool-cases (tx.text_lt u t)) [
    | inl before ↦ rw (before, contains-insert_text x t us) (ground arith)
    | inr behind ↦ rw behind refl
  ]

  insert_text-Distinct :
      (t : String) (us : List String)
      → contains t us ≡ false
      → Distinct us
      → Distinct (insert_text t us)
  unfolding insert_text Distinct
  insert_text-Distinct t [] new h = (new, tt)
  insert_text-Distinct t (u ∷ us) new h = elim (Bool-cases (tx.text_lt u t)) [
    | inl before ↦
        let other : (u == t) ≡ false = ground arith in
        let later : contains t us ≡ false = ground arith in
        let apart = differs_sym u t other in
        rw before (rw (contains-insert_text u t us, apart) h.0, insert_text-Distinct t us later h.1)
    | inr behind ↦ rw behind (new, h)
  ]

  contains-sorted : (x : String) (ts : List String) → contains x (sorted ts) ≡ contains x ts
  unfolding sorted
  contains-sorted x [] = refl
  contains-sorted x (t ∷ ts) =
      contains-insert_text x t (sorted ts) ∙ ap (λ (b : Bool). (t == x) || b) (contains-sorted x ts)

  sorted-Distinct : (ts : List String) → Distinct ts → Distinct (sorted ts)
  unfolding sorted Distinct
  sorted-Distinct [] h = tt
  sorted-Distinct (t ∷ ts) h =
      insert_text-Distinct t (sorted ts) (contains-sorted t ts ∙ h.0) (sorted-Distinct ts h.1)

-- One part of a split, and not the other.
abbrev InOne : List String → List String → String → Type 0
InOne ds es x =
    ((contains x ds || contains x es) ≡ true) × (contains x ds ≡ true → contains x es ≡ false)

absent-drop :
    (n : ℕ) (ts : List String) (x : String) → contains x ts ≡ false → contains x (drop n ts) ≡ false
absent-drop zero ts x h = h
absent-drop (suc n) [] x h = refl
absent-drop (suc n) (t ∷ ts) x h = absent-drop n ts x (ground arith)

take-drop-InOne :
    (n : ℕ) (ts : List String) (x : String)
    → Distinct ts
    → contains x ts ≡ true
    → InOne (take n ts) (drop n ts) x
unfolding Distinct
take-drop-InOne zero ts x h here = (here, λ no. absurd (ground arith))
take-drop-InOne (suc n) [] x h here = absurd (ground arith)
take-drop-InOne (suc n) (t ∷ ts) x h here = elim (Bool-cases (t == x)) [
  | inl same ↦
      let gone = subst (λ (y : String). contains y ts ≡ false) ((eq_iff t x).0 same) h.0 in
      (rw same refl, λ yes. absent-drop n ts x gone)
  | inr other ↦
      let (either, one) = take-drop-InOne n ts x h.1 (ground arith) in
      (rw other either, λ yes. one (rw other at yes))
]

split_pages-InOne :
    (portion : ℕ → ℕ) (ds : List String) (x : String)
    → Distinct ds
    → contains x ds ≡ true
    → InOne ((split_pages portion ds).0) ((split_pages portion ds).1) x
unfolding split_pages
split_pages-InOne portion ds x h here = elim (Bool-cases (leb (length ds) 1)) [
  | inl single ↦ rw single (ground arith, λ yes. refl)
  | inr several ↦ rw several (take-drop-InOne _ ds x h here)
]

-- Texts of which none is in the other list leak nothing.
no_leak :
    (es xs : List String)
    → ((x : String) → contains x xs ≡ true → contains x es ≡ false)
    → any (λ (d : String). contains d es) xs ≡ false
no_leak es [] apart = refl
no_leak es (x ∷ xs) apart =
    let first = apart x (rw (eq_refl x) refl) in
    let rest = no_leak es xs (λ y h. apart y (rw h (ground arith))) in rw (first, rest) refl

module _ {F : Type 0} where
  -- No label of the pages has a digest that is not among them.
  foreign :
      (es : List String) (x : String) (labels : List (CorrectionLabel F))
      → contains x es ≡ false
      → any (λ (l : CorrectionLabel F). l.source_page_digest == x) (labels_of es labels) ≡ false
  foreign es x [] h = refl
  foreign es x (l ∷ labels) h = elim (Bool-cases (contains l.source_page_digest es)) [
    | inl kept ↦ elim (Bool-cases (l.source_page_digest == x)) [
      | inl same ↦
          let found =
            subst (λ (y : String). contains y es ≡ true) ((eq_iff l.source_page_digest x).0 same)
              kept in
          absurd (ground arith)
      | inr other ↦ rw (kept, other) (foreign es x labels h)
    ]
    | inr left ↦ rw left (foreign es x labels h)
  ]

  -- A trained label shares its page with no evaluated one.
  abbrev pub Isolated : List (CorrectionLabel F) × List (CorrectionLabel F) → Type 0
  Isolated r =
      All
        (λ (t : CorrectionLabel F).
          any (λ (e : CorrectionLabel F). e.source_page_digest == t.source_page_digest) (r.1)
          ≡ false)
        (r.0)

  Placed : List String → List String → List (CorrectionLabel F) → Type 0
  Placed ds es = All (λ (l : CorrectionLabel F). InOne ds es l.source_page_digest)

  trained-Isolated :
      (ds es : List String) (labels all_labels : List (CorrectionLabel F))
      → Placed ds es labels
      → Isolated (labels_of ds labels, labels_of es all_labels)
  unfolding Placed
  trained-Isolated ds es [] all_labels h = tt
  trained-Isolated ds es (l ∷ labels) all_labels h =
      elim (Bool-cases (contains l.source_page_digest ds)) [
        | inl kept ↦ rw kept (
          foreign es l.source_page_digest all_labels ((h.0).1 kept),
          trained-Isolated ds es labels all_labels h.1,
        )
        | inr left ↦ rw left (trained-Isolated ds es labels all_labels h.1)
      ]

  parts-Placed :
      (ds es : List String) (labels : List (CorrectionLabel F))
      → Placed ds es labels
      → Perm (labels_of ds labels ++ labels_of es labels) labels
  unfolding Placed
  parts-Placed ds es [] h = Perm.refl []
  parts-Placed ds es (l ∷ labels) h = elim (Bool-cases (contains l.source_page_digest ds)) [
    | inl kept ↦ rw (kept, (h.0).1 kept) (Perm.cons l (parts-Placed ds es labels h.1))
    | inr left ↦
        let evaluated : contains l.source_page_digest es ≡ true = ground (arith, (h.0).0) in
        rw (left, evaluated)
          (Perm.trans (perm_middle (labels_of ds labels) (labels_of es labels))
            (Perm.cons l (parts-Placed ds es labels h.1)))
  ]

  labels-Placed :
      (ds es : List String) (labels : List (CorrectionLabel F))
      → ((x : String) → contains x (digests_of labels) ≡ true → InOne ds es x)
      → Placed ds es labels
  unfolding Placed
  labels-Placed ds es [] h = tt
  labels-Placed ds es (l ∷ labels) h = (
    h l.source_page_digest (rw (eq_refl l.source_page_digest) refl),
    labels-Placed ds es labels (λ x there. h x (rw there (ground arith))),
  )

absent-take :
    (n : ℕ) (ts : List String) (x : String) → contains x ts ≡ false → contains x (take n ts) ≡ false
absent-take zero ts x h = refl
absent-take (suc n) [] x h = refl
absent-take (suc n) (t ∷ ts) x h =
    let later = absent-take n ts x (ground arith) in
    let other : (t == x) ≡ false = ground arith in rw (other, later) refl

absent-split_pages :
    (portion : ℕ → ℕ) (ds : List String) (x : String)
    → contains x ds ≡ false
    → contains x ((split_pages portion ds).0) ≡ false
unfolding split_pages
absent-split_pages portion ds x h = elim (Bool-cases (leb (length ds) 1)) [
  | inl single ↦ rw single h
  | inr several ↦ rw several (absent-take _ ds x h)
]

split_pages-apart :
    (portion : ℕ → ℕ) (ds : List String) (x : String)
    → Distinct ds
    → contains x ((split_pages portion ds).0) ≡ true
    → contains x ((split_pages portion ds).1) ≡ false
split_pages-apart portion ds x h trained = elim (Bool-cases (contains x ds)) [
  | inl here ↦ (split_pages-InOne portion ds x h here).1 trained
  | inr away ↦ let gone = absent-split_pages portion ds x away in absurd (ground arith)
]

module _ {F : Type 0} ⦃tx : Texts⦄ where
  page_digests-Distinct : (labels : List (CorrectionLabel F)) → Distinct (page_digests labels)
  unfolding page_digests
  page_digests-Distinct labels =
      sorted-Distinct (distinct (digests_of labels)) (distinct-Distinct (digests_of labels))

  contains-page_digests :
      (x : String) (labels : List (CorrectionLabel F))
      → contains x (page_digests labels) ≡ contains x (digests_of labels)
  unfolding page_digests
  contains-page_digests x labels =
      contains-sorted x (distinct (digests_of labels)) ∙ contains-distinct x (digests_of labels)

  -- When no page of the labels is in the exclusion list, partition_training_and_evaluation does not
  -- raise: its two lists, one behind the other, are the labels in another order, each as often as it
  -- was given, and no trained label has a page of which a label is evaluated.
  pub partition-Isolated :
      (portion : ℕ → ℕ) (exclusion : List String) (labels : List (CorrectionLabel F))
      → any (λ (d : String). contains d exclusion) (page_digests labels) ≡ false
      → (r : List (CorrectionLabel F) × List (CorrectionLabel F))
        × (partition_training_and_evaluation portion exclusion labels ≡ ok r)
        × Isolated r
        × Perm (r.0 ++ r.1) labels
  unfolding partition_training_and_evaluation assert_no_leakage
  partition-Isolated portion exclusion labels clean =
      let ds = page_digests labels in
      let once = page_digests-Distinct labels in
      let pages = split_pages portion ds in
      let apart =
        no_leak (pages.1) (pages.0) (λ x trained. split_pages-apart portion ds x once trained) in
      let placed =
        labels-Placed (pages.0) (pages.1) labels (λ x there.
          split_pages-InOne portion ds x once (contains-page_digests x labels ∙ there)) in
      (
        (labels_of (pages.0) labels, labels_of (pages.1) labels),
        elim (Bool-cases (is_filled exclusion)) [
          | inl excluding ↦ rw (excluding, clean, apart) refl
          | inr free ↦ rw (free, apart) refl
        ],
        trained-Isolated (pages.0) (pages.1) labels labels placed,
        parts-Placed (pages.0) (pages.1) labels placed,
      )
