-- ===== src/Backend/EditDistance.antt =====
-- `edit_distance` of services/backend/src/backend/domain/correction.py: two rows of a table.
pub mod Scripts
pub mod Table
use Prim.Native.Char.{Char, code}
use land_record_digitalizati.Prelude.{
  ℕ, zero, suc, ◌+◌, String, count, Bool, true, false, Option, none, some, List, [], ◌∷◌, length,
  last?, leb, eqb, ◌==◌, if◌then◌else◌,
}

-- The characters that `enumerate` runs through.
abbrev pub chars : String → List Char
chars String.[] = []
chars (String.◌∷◌ c s) = c ∷ chars s

abbrev pub min : ℕ → ℕ → ℕ
min m n = if leb m n then m else n

-- `min(a, b, c)`
abbrev pub min3 : ℕ → ℕ → ℕ → ℕ
min3 a b c = min (min a b) c

-- `0 if ca == cb else 1`
abbrev pub cost : Char → Char → ℕ
cost ca cb = if eqb (code ca) (code cb) then 0 else 1

-- The inner loop, from the cell on the left and the row above.
unfoldable pub fill : Char → ℕ → List ℕ → List Char → List ℕ
fill ca left (diagonal ∷ above ∷ prev) (cb ∷ b) =
    let cell = min3 (above + 1) (left + 1) (diagonal + cost ca cb) in
    cell ∷ fill ca cell (above ∷ prev) b
fill ca left _ _ = []

-- The outer loop, whose counter starts at one.
unfoldable pub rows : ℕ → List ℕ → List Char → List Char → List ℕ
unfolding fill
rows i prev [] b = prev
rows i prev (ca ∷ a) b = rows (i + 1) (i ∷ fill ca i prev b) a b

-- `range(start, start + n)`
abbrev pub range_from : ℕ → ℕ → List ℕ
range_from start zero = []
range_from start (suc n) = start ∷ range_from (suc start) n

-- `prev[-1]`; a row is never empty.
abbrev pub last_cell : List ℕ → ℕ
last_cell row = elim (last? row) [ none ↦ 0 | some n ↦ n ]

unfoldable pub edit_distance : String → String → ℕ
unfolding rows
edit_distance a b =
    if a == b
    then 0
    else if a == ""
    then count b
    else if b == ""
    then count a
    else last_cell (rows 1 (range_from 0 (length (chars b) + 1)) (chars a) (chars b))
