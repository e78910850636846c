-- ===== src/Audit/Merkle/Binding.antt =====
-- The root binds the leaves, and the heads of the shards, if the hash tells the hashed texts apart.
use text.Mathlib.TextLemmas.{append_cancel_left, append_inj}
use land_record_digitalizati.Prelude.{
  ℕ, zero, suc, ◌≤◌, String, ◌<>◌, count, ◌≡◌, refl, sym, ◌∙◌, ap, ap₂, subst, List, [], ◌∷◌, arith,
  length, All, map, decimal, or_empty,
}
use land_record_digitalizati.Audit.World.{World, IsHexDigest, TellsApart}
use land_record_digitalizati.Audit.Chain.{Log, shard_head}
use land_record_digitalizati.Audit.Merkle.{
  leaf_hash, pair_hash, climb, merkle_root, head_record, shards, current_shard_heads, compute_root,
}
use land_record_digitalizati.Audit.Merkle.Levels.{parents, length-parents, climb-parents}

module _ (w : World) (H : String → Type 0) where
  -- The texts that hashing the pairs of a level hashes are in the set.
  abbrev pub PairsIn : List String → Type 0
  PairsIn [] = Unit
  PairsIn (a ∷ []) = H (a <> a)
  PairsIn (a ∷ b ∷ rest) = H (a <> b) × PairsIn rest

  -- The same for all levels of a tree over these nodes.
  abbrev pub LevelsIn : ℕ → List String → Type 0
  LevelsIn f [] = Unit
  LevelsIn f (x ∷ []) = Unit
  LevelsIn zero (x ∷ y ∷ level) = Unit
  LevelsIn (suc f) (x ∷ y ∷ level) =
      PairsIn (x ∷ y ∷ level) × LevelsIn f (parents w (x ∷ y ∷ level))

  -- The same for the tree of `merkle_root`.
  abbrev pub TreeIn : List String → Type 0
  TreeIn [] = Unit
  TreeIn (x ∷ xs) = LevelsIn (length xs) (x ∷ xs)

  -- The texts that hashing the head of a shard hashes are in the set.
  abbrev pub LeafIn : Log → ℕ → Type 0
  LeafIn log s = H (decimal s <> (":" <> or_empty (shard_head log s)))

  -- The texts that computing the global root hashes are in the set.
  abbrev pub RootIn : Log → Type 0
  RootIn log = All (LeafIn log) shards × TreeIn (map (leaf_hash w) (map (head_record log) shards))

module _ (w : World) (d : IsHexDigest w) (H : String → Type 0) (tells : TellsApart w H) where
  -- Leaves and inner nodes are digests.
  abbrev pub Digests : List String → Type 0
  Digests = All (λ s. count s ≡ 64)

  pair_hash-inj :
      (a b x y : String)
      → count a ≡ 64
      → count x ≡ 64
      → H (a <> b)
      → H (x <> y)
      → pair_hash w a b ≡ pair_hash w x y
      → (a ≡ x) × (b ≡ y)
  unfolding pair_hash
  pair_hash-inj a b x y p q i j h = append_inj {s₁ = a} {s₂ = x} (tells _ _ i j h) (p ∙ sym q)

  Digests-parents : (xs : List String) → Digests (parents w xs)
  unfolding pair_hash
  Digests-parents [] = tt
  Digests-parents (a ∷ []) = (d.width _, tt)
  Digests-parents (a ∷ b ∷ rest) = (d.width _, Digests-parents rest)

  list_tail : List String → List String
  list_tail [] = []
  list_tail (x ∷ xs) = xs

  list_head : List String → String
  list_head [] = ""
  list_head (x ∷ xs) = x

  parents-inj :
      (xs ys : List String)
      → Digests xs
      → Digests ys
      → PairsIn w H xs
      → PairsIn w H ys
      → length xs ≡ length ys
      → parents w xs ≡ parents w ys
      → xs ≡ ys
  unfolding list_head list_tail
  parents-inj [] [] p q i j n h = refl
  parents-inj [] (y ∷ ys) p q i j n h = absurd (omega arith)
  parents-inj (x ∷ xs) [] p q i j n h = absurd (omega arith)
  parents-inj (a ∷ []) (x ∷ []) p q i j n h =
      ap (λ (s : String). s ∷ []) (pair_hash-inj a a x x p.0 q.0 i j (ap list_head h)).0
  parents-inj (a ∷ []) (x ∷ y ∷ ys) p q i j n h = absurd (omega arith)
  parents-inj (a ∷ b ∷ xs) (x ∷ []) p q i j n h = absurd (omega arith)
  parents-inj (a ∷ b ∷ xs) (x ∷ y ∷ ys) p q i j n h =
      let (left, right) = pair_hash-inj a b x y p.0 q.0 i.0 j.0 (ap list_head h) in
      let rest = parents-inj xs ys p.1.1 q.1.1 i.1 j.1 (omega arith) (ap list_tail h) in
      ap₂ (λ (s : String) (l : List String). s ∷ l) left
        (ap₂ (λ (s : String) (l : List String). s ∷ l) right rest)

  climb-inj :
      (f : ℕ) (xs ys : List String)
      → length xs ≤ suc f
      → Digests xs
      → Digests ys
      → LevelsIn w H f xs
      → LevelsIn w H f ys
      → length xs ≡ length ys
      → climb w f xs ≡ climb w f ys
      → xs ≡ ys
  unfolding climb
  climb-inj f [] [] l p q i j n h = refl
  climb-inj f [] (y ∷ ys) l p q i j n h = absurd (omega arith)
  climb-inj f (x ∷ xs) [] l p q i j n h = absurd (omega arith)
  climb-inj f (x ∷ []) (y ∷ []) l p q i j n h = ap (λ (s : String). s ∷ []) h
  climb-inj f (x ∷ []) (y ∷ z ∷ ys) l p q i j n h = absurd (omega arith)
  climb-inj f (x ∷ z ∷ xs) (y ∷ []) l p q i j n h = absurd (omega arith)
  climb-inj zero (x ∷ z ∷ xs) (y ∷ u ∷ ys) l p q i j n h = absurd (omega arith)
  climb-inj (suc f) (x ∷ z ∷ xs) (y ∷ u ∷ ys) l p q i j n h =
      parents-inj (x ∷ z ∷ xs) (y ∷ u ∷ ys) p q i.0 j.0 n (
        climb-inj f (parents w (x ∷ z ∷ xs)) (parents w (y ∷ u ∷ ys))
          (omega (arith, length-parents w xs)) (Digests-parents (x ∷ z ∷ xs))
          (Digests-parents (y ∷ u ∷ ys)) i.1 j.1
          (omega (arith, length-parents w xs, length-parents w ys))
          (sym (climb-parents w f x z xs) ∙ h ∙ climb-parents w f y u ys))

  -- Two lists of as many digests have one root only if they are equal.
  pub merkle_root-inj :
      (xs ys : List String)
      → Digests xs
      → Digests ys
      → TreeIn w H xs
      → TreeIn w H ys
      → length xs ≡ length ys
      → merkle_root w xs ≡ merkle_root w ys
      → xs ≡ ys
  unfolding merkle_root
  merkle_root-inj [] [] p q i j n h = refl
  merkle_root-inj [] (y ∷ ys) p q i j n h = absurd (omega arith)
  merkle_root-inj (x ∷ xs) [] p q i j n h = absurd (omega arith)
  merkle_root-inj (x ∷ xs) (y ∷ ys) p q i j n h =
      climb-inj (length xs) (x ∷ xs) (y ∷ ys) (omega arith) p q i
        (subst (λ (k : ℕ). LevelsIn w H k (y ∷ ys)) (omega arith) j) n
        (h ∙ ap (λ (k : ℕ). climb w k (y ∷ ys)) (omega arith))

  leaf_hash-inj :
      (a b : Log) (s : ℕ)
      → LeafIn w H a s
      → LeafIn w H b s
      → leaf_hash w (head_record a s) ≡ leaf_hash w (head_record b s)
      → or_empty (shard_head a s) ≡ or_empty (shard_head b s)
  unfolding leaf_hash
  leaf_hash-inj a b s i j h =
      append_cancel_left ":" _ _ (append_cancel_left (decimal s) _ _ (tells _ _ i j h))

  abbrev pub Agree : Log → Log → ℕ → Type 0
  Agree a b s = or_empty (shard_head a s) ≡ or_empty (shard_head b s)

  Digests-leaves :
      (log : Log) (ss : List ℕ) → Digests (map (leaf_hash w) (map (head_record log) ss))
  unfolding leaf_hash
  Digests-leaves log [] = tt
  Digests-leaves log (s ∷ ss) = (d.width _, Digests-leaves log ss)

  leaves-inj :
      (a b : Log) (ss : List ℕ)
      → All (LeafIn w H a) ss
      → All (LeafIn w H b) ss
      → map (leaf_hash w) (map (head_record a) ss) ≡ map (leaf_hash w) (map (head_record b) ss)
      → All (Agree a b) ss
  unfolding list_head list_tail
  leaves-inj a b [] i j h = tt
  leaves-inj a b (s ∷ ss) i j h =
      (leaf_hash-inj a b s i.0 j.0 (ap list_head h), leaves-inj a b ss i.1 j.1 (ap list_tail h))

  -- The heads are read in the order by which `compute_root` sorts them.
  root-current :
      (log : Log)
      → compute_root w (current_shard_heads log)
        ≡ merkle_root w (map (leaf_hash w) (map (head_record log) shards))
  unfolding compute_root current_shard_heads
  root-current log = refl

  -- Logs with the same global root have the same head in every shard.
  pub compute_root-inj :
      (a b : Log)
      → RootIn w H a
      → RootIn w H b
      → compute_root w (current_shard_heads a) ≡ compute_root w (current_shard_heads b)
      → All (Agree a b) shards
  compute_root-inj a b i j h = leaves-inj a b shards i.0 j.0 (
      merkle_root-inj (map (leaf_hash w) (map (head_record a) shards))
        (map (leaf_hash w) (map (head_record b) shards)) (Digests-leaves a shards)
        (Digests-leaves b shards) i.1 j.1 refl (sym (root-current a) ∙ h ∙ root-current b))
