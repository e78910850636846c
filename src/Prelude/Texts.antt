-- ===== src/Prelude/Texts.antt =====
-- Texts: `str.join`, optional texts, and the comparison of optional texts.
use Prim.Native.Nat.{ℕ, zero, suc, ◌+◌, ◌/◌, ◌%◌, compare, Ordering}
use Prim.Native.String.{String, ◌++◌ as ◌<>◌}
use mathlib.Core.Path.{◌≡◌}
use mathlib.Core.Bool.{Bool, true, false}
use mathlib.Core.List.{List, [], ◌∷◌}
use mathlib.Core.Option.{Option, none, some}
use text.Mathlib.Text.{◌==◌}
use text.Mathlib.TextEquality.{eq_iff}
use mathlib.Core.Logic.{◌↔◌}
use native.Mathlib.Omega.{arith}

-- `sep.join(parts)`
abbrev pub join : String → List String → String
join sep [] = ""
join sep (s ∷ []) = s
join sep (s ∷ t ∷ r) = s <> (sep <> join sep (t ∷ r))

-- `value or ""`
abbrev pub or_empty : Option String → String
or_empty none = ""
or_empty (some s) = s

-- `a == b` where either may be `None`
abbrev pub same_text : Option String → Option String → Bool
same_text none none = true
same_text none (some t) = false
same_text (some s) none = false
same_text (some s) (some t) = s == t

pub same_text_iff : (a b : Option String) → (same_text a b ≡ true) ↔ (a ≡ b)
same_text_iff none none = ground arith
same_text_iff none (some t) = ground arith
same_text_iff (some s) none = ground arith
same_text_iff (some s) (some t) = ground (arith, eq_iff s t)

nth_text : List String → ℕ → String
nth_text [] i = ""
nth_text (x ∷ xs) zero = x
nth_text (x ∷ xs) (suc i) = nth_text xs i

digit : ℕ → String
unfolding nth_text
digit = nth_text ("0" ∷ "1" ∷ "2" ∷ "3" ∷ "4" ∷ "5" ∷ "6" ∷ "7" ∷ "8" ∷ "9" ∷ [])

digits : ℕ → ℕ → String
digits zero n = ""
digits (suc f) n = elim (compare n 10) [
  | Ordering.lt ↦ digit n
  | _ ↦ digits f (n / 10) <> digit (n % 10)
]

-- `str(n)`: a number has fewer digits than its value plus two.
unfoldable pub decimal : ℕ → String
unfolding digits digit
decimal n = digits (n + 1) n
