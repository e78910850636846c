-- ===== src/Audit/Merkle.antt =====
-- libs/audit/src/landaudit/merkle.py: the Merkle root over the heads of the shards.
pub mod Levels
pub mod Binding
use land_record_digitalizati.Prelude.{
  ℕ, zero, suc, ◌%◌, ◌+◌, String, ◌<>◌, Option, none, some, List, [], ◌∷◌, ◌++◌, map, length, last?,
  leb, eqb, ltb, if◌then◌else◌, or_empty, decimal,
}
use land_record_digitalizati.Audit.World.{World}
use land_record_digitalizati.Audit.Chain.{Log, num_shards, shard_head}

pub record ShardHeadRecord : Type 0 where
  pub shard_id : ℕ
  pub head_hash : Option String

unfoldable pub leaf_hash : World → ShardHeadRecord → String
leaf_hash w h = w.sha256 (decimal h.shard_id <> (":" <> or_empty h.head_hash))

unfoldable pub pair_hash : World → String → String → String
pair_hash w left right = w.sha256 (left <> right)

-- `if len(level) % 2 == 1: level.append(level[-1])`
unfoldable pub pad : List String → List String
pad level =
    if eqb (length level % 2) 1
    then elim (last? level) [ none ↦ level | some x ↦ level ++ x ∷ [] ]
    else level

-- The hashes of the pairs at 0 and 1, 2 and 3, and so on.
unfoldable pub pairs : World → List String → List String
pairs w (a ∷ b ∷ rest) = pair_hash w a b ∷ pairs w rest
pairs w _ = []

unfoldable pub next_level : World → List String → List String
unfolding pad pairs
next_level w level = pairs w (pad level)

-- The loop `while len(level) > 1` and `level[0]` behind it.
unfoldable pub climb : World → ℕ → List String → String
climb w fuel [] = ""
climb w fuel (x ∷ []) = x
climb w zero (x ∷ y ∷ level) = ""
climb w (suc fuel) (x ∷ y ∷ level) = climb w fuel (next_level w (x ∷ y ∷ level))

-- A level is shorter than the one before, so as many rounds as there are leaves are enough.
unfoldable pub merkle_root : World → List String → String
unfolding climb
merkle_root w [] = w.sha256 ""
merkle_root w (x ∷ xs) = climb w (length xs) (x ∷ xs)

-- `range(start, start + n)`
abbrev pub range_from : ℕ → ℕ → List ℕ
range_from start zero = []
range_from start (suc n) = start ∷ range_from (suc start) n

abbrev pub shards : List ℕ
shards = range_from 0 num_shards

abbrev pub head_record : Log → ℕ → ShardHeadRecord
head_record log s = record { shard_id = s; head_hash = shard_head log s }

unfoldable pub current_shard_heads : Log → List ShardHeadRecord
current_shard_heads log = map (head_record log) shards

pub insert : ShardHeadRecord → List ShardHeadRecord → List ShardHeadRecord
insert x [] = x ∷ []
insert x (y ∷ ys) =
    let rest = insert x ys in if ltb y.shard_id x.shard_id then y ∷ rest else x ∷ y ∷ ys

-- `sorted(heads, key=lambda h: h.shard_id)`
pub in_order : List ShardHeadRecord → List ShardHeadRecord
unfolding insert
in_order [] = []
in_order (x ∷ xs) = insert x (in_order xs)

unfoldable pub compute_root : World → List ShardHeadRecord → String
unfolding in_order merkle_root next_level leaf_hash
compute_root w heads = merkle_root w (map (leaf_hash w) (in_order heads))

unfoldable pub roll_global_root : World → Log → String × List ShardHeadRecord
roll_global_root w log = let heads = current_shard_heads log in (compute_root w heads, heads)
