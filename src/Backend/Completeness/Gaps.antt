-- ===== src/Backend/Completeness/Gaps.antt =====
-- Which positions count as missing.
use land_record_digitalizati.Prelude.{
  ℕ, zero, suc, ◌+◌, ◌-◌, ◌≤◌, ◌<◌, ◌≡◌, ◌↔◌, refl, sym, ap, ◌∙◌, Bool, true, false, not, ◌&&◌,
  Option, none, some, List, [], ◌∷◌, filter, last?, eqb, eqb_iff, arith, Bool-cases, inl, inr,
}
use land_record_digitalizati.Audit.Merkle.{range_from}
use land_record_digitalizati.Backend.Completeness.{among, expected_of, gaps_of}

among-range_from : (i a n : ℕ) → (among i (range_from a n) ≡ true) ↔ ((a ≤ i) × (i < a + n))
among-range_from i a zero = (λ h. absurd (ground arith), λ h. absurd (omega (arith, h.0, h.1)))
among-range_from i a (suc n) = elim (Bool-cases (eqb i a)) [
  | inl e ↦ rw e (ground (arith, (eqb_iff i a).0 e))
  | inr e ↦ rw e (ground (arith, among-range_from i (suc a) n, (eqb_iff i a).1))
]

among-filter : (p : ℕ → Bool) (i : ℕ) (xs : List ℕ) → among i (filter p xs) ≡ (among i xs && p i)
among-filter p i [] = refl
among-filter p i (x ∷ xs) = elim (Bool-cases (p x)) [
  | inl q ↦ elim (Bool-cases (eqb i x)) [
    | inl e ↦ rw (q, e) (sym (ap p ((eqb_iff i x).0 e) ∙ q))
    | inr e ↦ rw (q, e) (among-filter p i xs)
  ]
  | inr q ↦ elim (Bool-cases (eqb i x)) [
    | inl e ↦ rw (q, e) (among-filter p i xs ∙ ground (arith, ap p ((eqb_iff i x).0 e) ∙ q))
    | inr e ↦ rw (q, e) (among-filter p i xs)
  ]
]

expected_of-range :
    (a b : ℕ) (rest : List ℕ)
    → last? (a ∷ rest) ≡ some b
    → expected_of (a ∷ rest) ≡ range_from a (b + 1 - a)
unfolding expected_of
expected_of-range a b rest h =
    ap (λ (o : Option ℕ). elim o [ none ↦ [] | some j ↦ range_from a (j + 1 - a) ]) h

-- For observed positions whose first is `a` and whose last is `b`, the gaps are exactly the positions from `a` to `b`
-- that were not observed.
pub gaps_of_iff :
    (a b : ℕ) (rest : List ℕ) (i : ℕ)
    → last? (a ∷ rest) ≡ some b
    → (among i (gaps_of (a ∷ rest)) ≡ true) ↔ ((a ≤ i) × (i ≤ b) × (among i (a ∷ rest) ≡ false))
unfolding gaps_of
gaps_of_iff a b rest i h =
    let within = among-range_from i a (b + 1 - a) in
    rw
      (
        among-filter (λ j. not (among j (a ∷ rest))) i (expected_of (a ∷ rest)),
        expected_of-range a b rest h,
      )
      (split (among i (range_from a (b + 1 - a))) (among i (a ∷ rest)) within)
  where
    split :
        (p q : Bool)
        → (p ≡ true) ↔ ((a ≤ i) × (i < a + (b + 1 - a)))
        → ((p && not q) ≡ true) ↔ ((a ≤ i) × (i ≤ b) × (q ≡ false))
    split true true e = (λ x. absurd (ground arith), λ x. absurd (ground (arith, x.2)))
    split true false e =
        (λ x. ((e.0 refl).0, omega (arith, (e.0 refl).0, (e.0 refl).1), refl), λ x. refl)
    split false q e = (λ x. absurd (ground arith), λ x. e.1 (x.0, omega (arith, x.0, x.1)))
