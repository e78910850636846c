-- ===== src/Backend/ReviewWorkflow/Oldest.antt =====
-- The oldest task of a list.
use mathlib.Core.Option.{some-injective}
use land_record_digitalizati.Prelude.{
  ◌≤◌, ◌≡◌, ◌⊎◌, refl, sym, ◌∙◌, subst, Option, none, some, List, [], ◌∷◌, All, All-map, arith,
  Bool-cases, Option-cases, inl, inr, ltb, if◌then◌else◌,
}
use land_record_digitalizati.Backend.Entities.{ReviewTask}
use land_record_digitalizati.Backend.ReviewWorkflow.{oldest}

pub oldest-none : (ts : List ReviewTask) → oldest ts ≡ none → ts ≡ []
unfolding oldest
oldest-none [] h = refl
oldest-none (t ∷ ts) h = elim (Option-cases (oldest ts)) [
  | inl p ↦ absurd (ground arith)
  | inr (u, p) ↦ absurd (ground arith)
]

older : ReviewTask → Option ReviewTask → Option ReviewTask
older u none = some u
older u (some v) = some (if ltb v.opened_at u.opened_at then v else u)

oldest-cons :
    (u : ReviewTask) (ts : List ReviewTask) (o : Option ReviewTask)
    → oldest ts ≡ o
    → oldest (u ∷ ts) ≡ older u o
unfolding oldest older
oldest-cons u ts none p = rw p refl
oldest-cons u ts (some v) p = rw p refl

-- The oldest task is the first one or the oldest of the others, whichever was opened earlier.
oldest-step :
    (u : ReviewTask) (ts : List ReviewTask) (t : ReviewTask)
    → oldest (u ∷ ts) ≡ some t
    → ((t ≡ u) × ((v : ReviewTask) → oldest ts ≡ some v → u.opened_at ≤ v.opened_at))
      ⊎ ((oldest ts ≡ some t) × (t.opened_at ≤ u.opened_at))
unfolding older
oldest-step u ts t h = elim (Option-cases (oldest ts)) [
  | inl p ↦ inl (
    sym (some-injective _ _ (sym (oldest-cons u ts none p) ∙ h)),
    λ v q. absurd (ground (arith, sym p ∙ q)),
  )
  | inr (v, p) ↦ elim (Bool-cases (ltb v.opened_at u.opened_at)) [
    | inl less ↦
        let same : ◌≡◌ {A = Option ReviewTask} (some v) (some t) =
          sym (rw less refl) ∙ sym (oldest-cons u ts (some v) p) ∙ h in
        inr (
          p ∙ same,
          subst (λ (x : ReviewTask). x.opened_at ≤ u.opened_at) (some-injective _ _ same)
              (ground (arith, less)),
        )
    | inr more ↦
        let same : ◌≡◌ {A = Option ReviewTask} (some u) (some t) =
          sym (rw more refl) ∙ sym (oldest-cons u ts (some v) p) ∙ h in
        inl (
          sym (some-injective _ _ same),
          λ x q.
              subst (λ (y : ReviewTask). u.opened_at ≤ y.opened_at) (some-injective _ _ (sym p ∙ q))
                (ground (arith, more)),
        )
  ]
]

-- The oldest task has every property that all tasks have.
pub oldest-All :
    (P : ReviewTask → Type 0) (ts : List ReviewTask) (t : ReviewTask)
    → All P ts
    → oldest ts ≡ some t
    → P t
unfolding oldest
oldest-All P [] t a h = absurd (ground arith)
oldest-All P (u ∷ ts) t a h = elim (oldest-step u ts t h) [
  | inl (e, least) ↦ subst P (sym e) a.0
  | inr (q, le) ↦ oldest-All P ts t a.1 q
]

-- No task was opened before the oldest one.
pub oldest-first :
    (ts : List ReviewTask) (t : ReviewTask)
    → oldest ts ≡ some t
    → All (λ v. t.opened_at ≤ v.opened_at) ts
unfolding oldest
oldest-first [] t h = tt
oldest-first (u ∷ ts) t h = elim (oldest-step u ts t h) [
  | inr (q, le) ↦ (le, oldest-first ts t q)
  | inl (e, least) ↦
      subst (λ (x : ReviewTask). All (λ v. x.opened_at ≤ v.opened_at) (u ∷ ts)) (sym e)
        (
          omega arith,
          elim (Option-cases (oldest ts)) [
            | inl none_left ↦
                subst (λ (l : List ReviewTask). All (λ v. u.opened_at ≤ v.opened_at) l)
                  (sym (oldest-none ts none_left)) tt
            | inr (v, q) ↦
                All-map (λ w. v.opened_at ≤ w.opened_at) (λ w. u.opened_at ≤ w.opened_at) ts
                  (λ w le. omega (arith, le, least v q)) (oldest-first ts v q)
          ],
        )
]
