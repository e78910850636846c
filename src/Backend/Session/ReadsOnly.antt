-- ===== src/Backend/Session/ReadsOnly.antt =====
-- Actions that write nothing, one rule for each way to build one.
use land_record_digitalizati.Prelude.{
  ◌≡◌, refl, ◌∙◌, Bool, true, false, Option, none, some, List, [], ◌∷◌, if◌then◌else◌,
}
use land_record_digitalizati.Backend.Session.{
  Session, Error, Result, ok, err, M, pure, raise, gets, or_raise, raise_if, one_or_none, ◌>>=◌,
}

-- The session is the same after the action, whether it returned or raised.
pub record ReadsOnly {A : Type 0} (m : M A) : Type 0 where
  pub same : (s : Session) → (m s).1 ≡ s

module _ {A : Type 0} where
  pub ReadsOnly-pure : (a : A) → ReadsOnly (pure a)
  ReadsOnly-pure a = record { same = λ s. refl }

  pub ReadsOnly-raise : (e : Error) → ReadsOnly (raise {A = A} e)
  ReadsOnly-raise e = record { same = λ s. refl }

  pub ReadsOnly-gets : (f : Session → A) → ReadsOnly (gets f)
  ReadsOnly-gets f = record { same = λ s. refl }

  pub ReadsOnly-or_raise : (e : Error) (o : Option A) → ReadsOnly (or_raise e o)
  ReadsOnly-or_raise e none = record { same = λ s. refl }
  ReadsOnly-or_raise e (some a) = record { same = λ s. refl }

  pub ReadsOnly-one_or_none : (l : List A) → ReadsOnly (one_or_none l)
  unfolding one_or_none
  ReadsOnly-one_or_none [] = record { same = λ s. refl }
  ReadsOnly-one_or_none (x ∷ []) = record { same = λ s. refl }
  ReadsOnly-one_or_none (x ∷ y ∷ rest) = record { same = λ s. refl }

  pub ReadsOnly-if :
      (b : Bool) (m n : M A) → ReadsOnly m → ReadsOnly n → ReadsOnly (if b then m else n)
  ReadsOnly-if true m n p q = p
  ReadsOnly-if false m n p q = q

pub ReadsOnly-raise_if : (b : Bool) (e : Error) → ReadsOnly (raise_if b e)
ReadsOnly-raise_if b e = record { same = λ s. refl }

module _ {A B : Type 0} where
  continue :
      (r : Result A) (f : A → M B) (s : Session)
      → ((a : A) → ReadsOnly (f a))
      → (elim r as (λ _. Result B × Session) [ ok a ↦ f a s | err e ↦ raise e s ]).1 ≡ s
  continue (ok a) f s h = (h a).same s
  continue (err e) f s h = refl

  pub ReadsOnly-bind :
      (m : M A) (f : A → M B) → ReadsOnly m → ((a : A) → ReadsOnly (f a)) → ReadsOnly (m >>= f)
  ReadsOnly-bind m f p h = record { same = λ s. continue (m s).0 f (m s).1 h ∙ p.same s }

pub ruleset reads_only_rules = (
  ReadsOnly-pure, ReadsOnly-raise, ReadsOnly-gets, ReadsOnly-or_raise, ReadsOnly-one_or_none,
  ReadsOnly-if, ReadsOnly-raise_if, ReadsOnly-bind,
)
