-- ===== src/Backend/EditDistance/Table.antt =====
-- The table of `edit_distance` holds the distances of all prefixes, read from their ends; so the
-- result is the length of a shortest edit script.
use Prim.Native.Char.{Char}
use mathlib.Core.List.{reverse, reverse-reverse, reverse_aux}
use text.Mathlib.TextLemmas.{length-cons, length-nil}
use land_record_digitalizati.Prelude.{
  ℕ, suc, ◌+◌, ◌≤◌, String, count, ◌≡◌, refl, ap, ap₂, sym, ◌∙◌, subst, Option, none, some, List,
  [], ◌∷◌, length, last?, ◌==◌, eq_iff, arith, Bool-cases, inl, inr,
}
use land_record_digitalizati.Backend.EditDistance.{
  chars, fill, rows, range_from, last_cell, edit_distance,
}
use land_record_digitalizati.Backend.EditDistance.Scripts.{
  Edits, distance, distance-same, distance-Edits, Edits-distance, Edits-reverse,
}

-- The row of a prefix, behind its first cell: the other text is read on from the prefix `p`.
abbrev tail_cells : List Char → List Char → List Char → List ℕ
tail_cells xs p [] = []
tail_cells xs p (c ∷ b) = distance xs (c ∷ p) ∷ tail_cells xs (c ∷ p) b

abbrev cells : List Char → List Char → List Char → List ℕ
cells xs p b = distance xs p ∷ tail_cells xs p b

fill-cells :
    (ca : Char) (xs p b : List Char)
    → fill ca (distance (ca ∷ xs) p) (cells xs p b) b ≡ tail_cells (ca ∷ xs) p b
unfolding fill
fill-cells ca xs p [] = refl
fill-cells ca xs p (cb ∷ b) =
    ap (λ (l : List ℕ). distance (ca ∷ xs) (cb ∷ p) ∷ l) (fill-cells ca xs (cb ∷ p) b)

rows-cells :
    (xs a b : List Char) → rows (length xs + 1) (cells xs [] b) a b ≡ cells (reverse_aux a xs) [] b
unfolding rows
rows-cells xs [] b = refl
rows-cells xs (ca ∷ a) b =
    ap (λ (k : ℕ). rows (k + 1) (k ∷ fill ca k (cells xs [] b) b) a b) (first (length xs))
    ∙ ap (λ (l : List ℕ). rows (suc (length xs) + 1) (suc (length xs) ∷ l) a b)
        (fill-cells ca xs [] b)
    ∙ rows-cells (ca ∷ xs) a b
  where
    first : (n : ℕ) → n + 1 ≡ suc n
    first n = omega arith

range-cells : (p b : List Char) → range_from (length p) (suc (length b)) ≡ cells [] p b
range-cells p [] = refl
range-cells p (c ∷ b) = ap (λ (l : List ℕ). length p ∷ l) (range-cells (c ∷ p) b)

last-cells : (xs p b : List Char) → last? (cells xs p b) ≡ some (distance xs (reverse_aux b p))
last-cells xs p [] = refl
last-cells xs p (c ∷ b) = last-cells xs (c ∷ p) b

length-chars : (s : String) → length (chars s) ≡ count s
length-chars String.[] = sym length-nil
length-chars (String.◌∷◌ c s) = ap suc (length-chars s) ∙ sym (length-cons c s)

length-reverse_aux : (xs ys : List Char) → length (reverse_aux xs ys) ≡ length xs + length ys
length-reverse_aux [] ys = omega arith
length-reverse_aux (x ∷ xs) ys = omega (arith, length-reverse_aux xs (x ∷ ys))

distance-nil : (xs : List Char) → distance xs [] ≡ length xs
distance-nil [] = refl
distance-nil (x ∷ xs) = refl

-- The last cell of the table.
table : List Char → List Char → ℕ
table a b = last_cell (rows 1 (range_from 0 (length b + 1)) a b)

table-distance : (a b : List Char) → table a b ≡ distance (reverse a) (reverse b)
unfolding table
table-distance a b =
    let width : length b + 1 ≡ suc (length b) = omega arith in
    let start : 1 ≡ length {A = Char} [] + 1 = omega arith in
    ap (λ (n : ℕ). last_cell (rows 1 (range_from 0 n) a b)) width
    ∙ ap (λ (row : List ℕ). last_cell (rows 1 row a b)) (range-cells [] b)
    ∙ ap (λ (n : ℕ). last_cell (rows n (cells [] [] b) a b)) start
    ∙ ap last_cell (rows-cells [] a b)
    ∙ ap (λ (o : Option ℕ). elim o [ none ↦ 0 | some n ↦ n ]) (last-cells (reverse a) [] b)

edit_distance_distance :
    (a b : String) → edit_distance a b ≡ distance (reverse (chars a)) (reverse (chars b))
unfolding edit_distance table
edit_distance_distance a b = elim (Bool-cases (a == b)) [
  | inl same ↦ rw same (
      sym (
        ap (λ (s : String). distance (reverse (chars a)) (reverse (chars s)))
          (sym ((eq_iff a b).0 same))
        ∙ distance-same (reverse (chars a))))
  | inr differ ↦ elim (Bool-cases (a == "")) [
    | inl empty ↦
        rw (differ, empty)
          (sym (
            ap (λ (s : String). distance (reverse (chars s)) (reverse (chars b)))
              ((eq_iff a "").0 empty)
            ∙ length-reverse_aux (chars b) []
            ∙ omega (arith, length-chars b)))
    | inr full ↦ elim (Bool-cases (b == "")) [
      | inl empty ↦
          rw (differ, full, empty)
            (sym (
              ap (λ (s : String). distance (reverse (chars a)) (reverse (chars s)))
                ((eq_iff b "").0 empty)
              ∙ distance-nil (reverse (chars a))
              ∙ length-reverse_aux (chars a) []
              ∙ omega (arith, length-chars a)))
      | inr both ↦ rw (differ, full, both) (table-distance (chars a) (chars b))
    ]
  ]
]

-- The result of `edit_distance` is attained: some script with that many insertions, deletions and
-- replacements of characters turns the first text into the second.
pub edit_distance-Edits : (a b : String) → Edits (chars a) (chars b) (edit_distance a b)
edit_distance-Edits a b = rw (edit_distance_distance a b) (
    subst
      (λ (l : List Char × List Char).
        Edits l.0 l.1 (distance (reverse (chars a)) (reverse (chars b))))
      (ap₂ (λ (x y : List Char). (x, y)) (reverse-reverse (chars a)) (reverse-reverse (chars b)))
      (Edits-reverse (distance-Edits (reverse (chars a)) (reverse (chars b)))))

-- No script of insertions, deletions and replacements that turns the first text into the second is
-- shorter than the result of `edit_distance`.
pub edit_distance-least :
    (a b : String) (n : ℕ) → Edits (chars a) (chars b) n → edit_distance a b ≤ n
edit_distance-least a b n e =
    rw (edit_distance_distance a b)
      (Edits-distance (reverse (chars a)) (reverse (chars b)) n (Edits-reverse e))
