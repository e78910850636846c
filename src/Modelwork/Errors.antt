-- ===== src/Modelwork/Errors.antt =====
-- The errors that services/modelwork raises, as values.
use land_record_digitalizati.Prelude.{String, Bool, if◌then◌else◌}

pub data Error : Type 0 where
  -- `raise ValueError(...)`, with the message up to the value it quotes
  value_error : String → Error
  overflow_error : Error
  invalid_state_transition : Error
  leakage_detected : Error

pub data Result (A : Type 0) : Type 0 where
  ok : A → Result A
  err : Error → Result A

abbrev pub pure : {A : Type 0} → A → Result A
pure a = ok a

infixl 20 ◌>>=◌
abbrev pub ◌>>=◌ : {A B : Type 0} → Result A → (A → Result B) → Result B
ok a >>= k = k a
err e >>= k = err e

infixl 20 ◌>>◌
abbrev pub ◌>>◌ : {A B : Type 0} → Result A → Result B → Result B
ok a >> r = r
err e >> r = err e

-- `if test: raise e`
abbrev pub raise_if : Bool → Error → Result (Unit {0})
raise_if test e = if test then err e else ok tt
