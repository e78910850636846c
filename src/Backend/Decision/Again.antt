-- ===== src/Backend/Decision/Again.antt =====
-- Lemmas on a call of `route` behind another one.
use land_record_digitalizati.Prelude.{
  false, ◌≤◌, String, ◌≡◌, refl, sym, ap, ◌∙◌, subst, Option, List, [], ◌∷◌, ◌++◌, arith, length,
  length-append, Bool-cases, inl, inr, ◌==◌, eq_refl, eq_iff, filter, find, filter-append,
}
use land_record_digitalizati.Audit.World.{World}
use land_record_digitalizati.Backend.Entities.{Extraction, DecisionRecord}
use land_record_digitalizati.Backend.Session.{Session, Error, Result, ok, err}
use land_record_digitalizati.Backend.Decision.{RouteResult, route, decisions_of}
use land_record_digitalizati.Backend.Decision.Once.{
  Undecided, Decided, Settled, known-Settled, route-cases, route-decides,
}

ok-err : (r : RouteResult) (e : Error) → ok r ≡ err e → ⊥
ok-err r e p = ground arith

-- A call of `route` that raises leaves the session as it was.
pub route-raises :
    (w : World) (id : String) (c env : Option String) (s : Session) (e : Error)
    → (route w id c env s).0 ≡ err e
    → (route w id c env s).1 ≡ s
route-raises w id c env s e p = elim (route-cases w id s) [
  | inr h ↦ h c env
  | inl (x, u) ↦
      let (r, t, q, d) = route-decides w x c env s id u in
      elim (ok-err r e (sym (ap (λ (m : Result RouteResult × Session). m.0) q) ∙ p)) [ ]
]

-- The decisions of the extraction itself after a first routing: the new one.
Decided-decisions :
    (x : Extraction) (env : Option String) (s t : Session) (d : Decided x env s t)
    → decisions_of x.id s ≡ []
    → decisions_of x.id t ≡ d.row ∷ []
Decided-decisions x env s t d p =
    let is_own = λ (r : DecisionRecord). r.extraction_id == x.id in
    ap (filter is_own) d.decisions
    ∙ filter-append is_own s.decisions (d.row ∷ [])
    ∙ ap (λ (l : List DecisionRecord). l ++ filter is_own (d.row ∷ [])) p
    ∙ rw (d.of_extraction, eq_refl x.id) refl

Decided-Settled :
    (w : World) (id : String) (x : Extraction) (env : Option String) (s t : Session)
    → Undecided id s x
    → Decided x env s t
    → Settled w id t
Decided-Settled w id x env s t u d =
    known-Settled w id t x _ (ap (find (λ (y : Extraction). y.id == id)) d.extractions ∙ u.found)
      u.valid (Decided-decisions x env s t d u.fresh)

-- A second call of `route` for the same extraction writes nothing, with the same arguments or others.
pub route-again :
    (w : World) (id : String) (c env c' env' : Option String) (s : Session)
    → (route w id c' env' (route w id c env s).1).1 ≡ (route w id c env s).1
route-again w id c env c' env' s = elim (route-cases w id s) [
  | inr h ↦ subst (λ (t : Session). (route w id c' env' t).1 ≡ t) (sym (h c env)) (h c' env')
  | inl (x, u) ↦
      let (r, t, q, d) = route-decides w x c env s id u in
      subst (λ (m : Result RouteResult × Session). (route w id c' env' m.1).1 ≡ m.1) (sym q)
        (Decided-Settled w id x env s t u d c' env')
]

-- Every extraction has at most one decision.
abbrev pub OneDecision : Session → Type 0
OneDecision s = (x : String) → length (decisions_of x s) ≤ 1

Decided-OneDecision :
    (id : String) (x : Extraction) (env : Option String) (s t : Session)
    → Undecided id s x
    → Decided x env s t
    → OneDecision s
    → OneDecision t
Decided-OneDecision id x env s t u d one y = elim (Bool-cases (x.id == y)) [
  | inl e ↦
      subst (λ (z : String). length (decisions_of z t) ≤ 1) ((eq_iff x.id y).0 e)
        (rw (Decided-decisions x env s t d u.fresh) (omega arith))
  | inr n ↦
      let other : (d.row.extraction_id == y) ≡ false = rw d.of_extraction n in
      let shown =
        ap (filter (λ (r : DecisionRecord). r.extraction_id == y)) d.decisions
        ∙ filter-append (λ (r : DecisionRecord). r.extraction_id == y) s.decisions (d.row ∷ []) in
      rw (shown, other, length-append (decisions_of y s) []) (ground (arith, one y))
]

-- `route` keeps the invariant that every extraction has at most one decision, whatever it returns or raises.
pub route-OneDecision :
    (w : World) (id : String) (c env : Option String) (s : Session)
    → OneDecision s
    → OneDecision (route w id c env s).1
route-OneDecision w id c env s one = elim (route-cases w id s) [
  | inr h ↦ subst OneDecision (sym (h c env)) one
  | inl (x, u) ↦
      let (r, t, q, d) = route-decides w x c env s id u in
      subst (λ (m : Result RouteResult × Session). OneDecision m.1) (sym q)
        (Decided-OneDecision id x env s t u d one)
]
