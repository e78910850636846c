-- ===== src/Backend/EditDistance/Scripts.antt =====
-- Edit scripts between two lists of characters, and the number of edits of a shortest one.
use Prim.Native.Char.{Char, code}
use mathlib.Core.List.{reverse, reverse-cons, append-nil}
use text.Mathlib.TextEquality.{Char-path}
use land_record_digitalizati.Prelude.{
  ℕ, suc, ◌+◌, ◌≤◌, ◌≡◌, refl, subst, List, [], ◌∷◌, ◌++◌, length, leb, eqb, eqb_iff, arith,
  Bool-cases, inl, inr,
}
use land_record_digitalizati.Backend.EditDistance.{min3, cost}

-- The second list comes from the first by that many insertions, deletions and replacements.
pub data Edits : List Char → List Char → ℕ → Type 0 where
  done : Edits [] [] 0
  keep : {x : Char} {xs ys : List Char} {n : ℕ} → Edits xs ys n → Edits (x ∷ xs) (x ∷ ys) n
  replace :
      {x y : Char} {xs ys : List Char} {n : ℕ} → Edits xs ys n → Edits (x ∷ xs) (y ∷ ys) (n + 1)
  delete : {x : Char} {xs ys : List Char} {n : ℕ} → Edits xs ys n → Edits (x ∷ xs) ys (n + 1)
  insert : {y : Char} {xs ys : List Char} {n : ℕ} → Edits xs ys n → Edits xs (y ∷ ys) (n + 1)

-- The recurrence of the table, on its own.
abbrev pub distance : List Char → List Char → ℕ
distance [] ys = length ys
distance (x ∷ xs) [] = suc (length xs)
distance (x ∷ xs) (y ∷ ys) =
    min3 (distance xs (y ∷ ys) + 1) (distance (x ∷ xs) ys + 1) (distance xs ys + cost x y)

pub distance-same : (xs : List Char) → distance xs xs ≡ 0
distance-same [] = refl
distance-same (x ∷ xs) = ground (arith, distance-same xs)

distance-insert : (y : Char) (xs ys : List Char) → distance xs (y ∷ ys) ≤ distance xs ys + 1
distance-insert y [] ys = omega arith
distance-insert y (x ∷ xs) ys = ground arith

distance-delete : (x : Char) (xs ys : List Char) → distance (x ∷ xs) ys ≤ distance xs ys + 1
distance-delete x [] [] = omega arith
distance-delete x (z ∷ xs) [] = omega arith
distance-delete x xs (y ∷ ys) = ground arith

-- No script is shorter than the distance.
pub Edits-distance : (xs ys : List Char) (n : ℕ) → Edits xs ys n → distance xs ys ≤ n
Edits-distance _ _ _ done = omega arith
Edits-distance _ _ _ (keep {x} {xs} {ys} {n} e) = ground (arith, Edits-distance xs ys n e)
Edits-distance _ _ _ (replace {x} {y} {xs} {ys} {n} e) = ground (arith, Edits-distance xs ys n e)
Edits-distance _ _ _ (delete {x} {xs} {ys} {n} e) =
    omega (arith, Edits-distance xs ys n e, distance-delete x xs ys)
Edits-distance _ _ _ (insert {y} {xs} {ys} {n} e) =
    omega (arith, Edits-distance xs ys n e, distance-insert y xs ys)

recount : {xs ys : List Char} {m n : ℕ} → m ≡ n → Edits xs ys m → Edits xs ys n
recount {xs} {ys} p e = subst (Edits xs ys) p e

module _ (x y : Char) (xs ys : List Char) where
  cell :
      (d e f : ℕ)
      → Edits xs (y ∷ ys) d
      → Edits (x ∷ xs) ys e
      → Edits (x ∷ xs) (y ∷ ys) f
      → Edits (x ∷ xs) (y ∷ ys) (min3 (d + 1) (e + 1) f)
  cell d e f p q r = elim (Bool-cases (leb (d + 1) (e + 1))) [
    | inl a ↦ elim (Bool-cases (leb (d + 1) f)) [
      | inl b ↦ recount (ground (arith, a, b)) (delete p)
      | inr b ↦ recount (ground (arith, a, b)) r
    ]
    | inr a ↦ elim (Bool-cases (leb (e + 1) f)) [
      | inl b ↦ recount (ground (arith, a, b)) (insert q)
      | inr b ↦ recount (ground (arith, a, b)) r
    ]
  ]

  corner : (n : ℕ) → Edits xs ys n → Edits (x ∷ xs) (y ∷ ys) (n + cost x y)
  corner n e = elim (Bool-cases (eqb (code x) (code y))) [
    | inl same ↦
        subst (λ (z : Char). Edits (x ∷ xs) (z ∷ ys) (n + cost x y))
          (Char-path x y ((eqb_iff (code x) (code y)).0 same))
          (recount (ground (arith, same)) (keep e))
    | inr other ↦ recount (ground (arith, other)) (replace e)
  ]

-- There is a script with as many edits as the distance.
pub distance-Edits : (xs ys : List Char) → Edits xs ys (distance xs ys)
distance-Edits [] [] = done
distance-Edits [] (y ∷ ys) = recount (omega arith) (insert (distance-Edits [] ys))
distance-Edits (x ∷ []) [] = delete done
distance-Edits (x ∷ z ∷ xs) [] = recount (omega arith) (delete (distance-Edits (z ∷ xs) []))
distance-Edits (x ∷ xs) (y ∷ ys) =
    cell x y xs ys _ _ _ (distance-Edits xs (y ∷ ys)) (distance-Edits (x ∷ xs) ys)
      (corner x y xs ys _ (distance-Edits xs ys))

Edits-append :
    {xs ys us vs : List Char} {n m : ℕ}
    → Edits xs ys n
    → Edits us vs m
    → Edits (xs ++ us) (ys ++ vs) (n + m)
Edits-append done f = recount (omega arith) f
Edits-append (keep {x} e) f = keep (Edits-append e f)
Edits-append (replace {x} {y} e) f = recount (omega arith) (replace (Edits-append e f))
Edits-append (delete {x} e) f = recount (omega arith) (delete (Edits-append e f))
Edits-append (insert {y} e) f = recount (omega arith) (insert (Edits-append e f))

-- A script can be run from the other end.
pub Edits-reverse : {xs ys : List Char} {n : ℕ} → Edits xs ys n → Edits (reverse xs) (reverse ys) n
Edits-reverse done = done
Edits-reverse (keep {x} {xs} {ys} {n} e) =
    rw (reverse-cons x xs, reverse-cons x ys)
      (recount (omega arith) (Edits-append (Edits-reverse e) (keep done)))
Edits-reverse (replace {x} {y} {xs} {ys} {n} e) =
    rw (reverse-cons x xs, reverse-cons y ys) (Edits-append (Edits-reverse e) (replace done))
Edits-reverse (delete {x} {xs} {ys} {n} e) = rw (reverse-cons x xs) (
    subst (λ (l : List Char). Edits (reverse xs ++ x ∷ []) l (n + 1)) (append-nil (reverse ys))
      (Edits-append (Edits-reverse e) (delete done)))
Edits-reverse (insert {y} {xs} {ys} {n} e) = rw (reverse-cons y ys) (
    subst (λ (l : List Char). Edits l (reverse ys ++ y ∷ []) (n + 1)) (append-nil (reverse xs))
      (Edits-append (Edits-reverse e) (insert done)))
