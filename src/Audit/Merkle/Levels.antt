-- ===== src/Audit/Merkle/Levels.antt =====
-- A level of the tree, and the loop that climbs from the leaves to the root.
use land_record_digitalizati.Prelude.{
  ℕ, zero, suc, ◌+◌, ◌*◌, ◌%◌, ◌≤◌, String, ◌≡◌, refl, List, [], ◌∷◌, arith, length, ap, sym, ◌∙◌,
}
use land_record_digitalizati.Audit.World.{World}
use land_record_digitalizati.Audit.Merkle.{pair_hash, pad, pairs, next_level, climb, merkle_root}

module _ (w : World) where
  -- The next level, read off in one pass: a last odd node is paired with itself.
  abbrev pub parents : List String → List String
  parents [] = []
  parents (a ∷ []) = pair_hash w a a ∷ []
  parents (a ∷ b ∷ rest) = pair_hash w a b ∷ parents rest

  pad-cons_cons : (a b : String) (rest : List String) → pad (a ∷ b ∷ rest) ≡ a ∷ b ∷ pad rest
  unfolding pad
  pad-cons_cons a b [] = ground arith
  pad-cons_cons a b (c ∷ rest) = ground arith

  pub next_level-parents : (level : List String) → next_level w level ≡ parents level
  unfolding next_level pairs
  next_level-parents [] = ground arith
  next_level-parents (a ∷ []) = ground arith
  next_level-parents (a ∷ b ∷ rest) =
      rw (pad-cons_cons a b rest)
        (ap (λ (l : List String). pair_hash w a b ∷ l) (next_level-parents rest))

  -- A level of n nodes has ⌈n / 2⌉ parents.
  pub length-parents :
      (level : List String) → length (parents level) * 2 ≡ length level + length level % 2
  length-parents [] = omega arith
  length-parents (a ∷ []) = omega arith
  length-parents (a ∷ b ∷ rest) = omega (arith, length-parents rest)

  pub climb-parents :
      (f : ℕ) (x y : String) (xs : List String)
      → climb w (suc f) (x ∷ y ∷ xs) ≡ climb w f (parents (x ∷ y ∷ xs))
  unfolding climb
  climb-parents f x y xs = ap (climb w f) (next_level-parents (x ∷ y ∷ xs))

  -- More rounds than needed make no difference.
  climb-enough :
      (f g : ℕ) (x : String) (xs : List String)
      → length xs ≤ f
      → length xs ≤ g
      → climb w f (x ∷ xs) ≡ climb w g (x ∷ xs)
  unfolding climb
  climb-enough f g x [] p q = refl
  climb-enough zero g x (y ∷ xs) p q = absurd (omega arith)
  climb-enough (suc f) zero x (y ∷ xs) p q = absurd (omega arith)
  climb-enough (suc f) (suc g) x (y ∷ xs) p q =
      climb-parents f x y xs
      ∙ climb-enough f g (pair_hash w x y) (parents xs) (omega (arith, length-parents xs))
          (omega (arith, length-parents xs))
      ∙ sym (climb-parents g x y xs)

  -- The root is the loop's: of no leaves it is the hash of the empty text, of one leaf the leaf, and
  -- of more leaves the root of the next level, which has half as many nodes, rounded up. So the
  -- rounds that `merkle_root` allows are always enough.
  pub merkle_root_lem :
      (a b : String) (rest : List String)
      → (merkle_root w [] ≡ w.sha256 "")
        × (merkle_root w (a ∷ []) ≡ a)
        × (merkle_root w (a ∷ b ∷ rest) ≡ merkle_root w (next_level w (a ∷ b ∷ rest)))
        × (length (next_level w (a ∷ b ∷ rest)) * 2
            ≡ length (a ∷ b ∷ rest) + length (a ∷ b ∷ rest) % 2)
  unfolding merkle_root climb
  merkle_root_lem a b rest = (
    refl,
    refl,
    climb-parents (length rest) a b rest
        ∙ climb-enough (length rest) (length (parents rest)) (pair_hash w a b) (parents rest)
            (omega (arith, length-parents rest)) (omega arith)
        ∙ sym (ap (merkle_root w) (next_level-parents (a ∷ b ∷ rest))),
    rw (next_level-parents (a ∷ b ∷ rest)) (length-parents (a ∷ b ∷ rest)),
  )
