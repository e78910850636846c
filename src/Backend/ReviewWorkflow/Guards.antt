-- ===== src/Backend/ReviewWorkflow/Guards.antt =====
-- Who may submit and skip, and that a task is submitted once.
use land_record_digitalizati.Prelude.{
  ℕ, String, ◌≡◌, ◌⊎◌, refl, sym, ap, ◌∙◌, subst, true, false, not, Option, none, some, arith,
  Bool-cases, Option-cases, inl, inr, is_some, same_text, same_text_iff,
}
use land_record_digitalizati.Audit.World.{World}
use land_record_digitalizati.Backend.Entities.{ReviewTask}
use land_record_digitalizati.Backend.Session.{
  Session, Error, M, Result, ok, err, key_error, review_task_not_claimable, not_the_claimant, ◌>>=◌,
  ◌>>◌, pure, or_raise, raise_if, audit_append,
}
use land_record_digitalizati.Backend.Rows.{row, row-update}
use land_record_digitalizati.Backend.ReviewWorkflow.Tasks.{ClosedIn, submit_own-Closes}
use land_record_digitalizati.Backend.ReviewWorkflow.{
  closed, task_of, own_task, released, release, skip, submit, submit_own, SubmitResult,
}

-- The task is there, not closed, and claimed by the officer.
pub record Owned (id actor : String) (s : Session) (task : ReviewTask) : Type 0 where
  pub found : task_of id s ≡ some task
  pub unclosed : task.closed_at ≡ none
  pub claimant : task.assignee ≡ some actor

not_some : {A : Type 0} (o : Option A) → is_some o ≡ false → o ≡ none
not_some none h = refl
not_some (some a) h = absurd (ground arith)

module _ (id actor : String) (s : Session) where
  -- `own_task` behind the look-up.
  guarded : Option ReviewTask → Result ReviewTask × Session
  guarded o =
      (or_raise key_error o >>= λ task.
      raise_if (is_some task.closed_at) review_task_not_claimable
      >> (raise_if (not (same_text task.assignee (some actor))) not_the_claimant >> pure task))
        s

  own_task-guarded : (o : Option ReviewTask) → task_of id s ≡ o → own_task id actor s ≡ guarded o
  unfolding own_task guarded
  own_task-guarded o p = ap guarded p

  pub own_task-closed :
      (task : ReviewTask)
      → task_of id s ≡ some task
      → is_some task.closed_at ≡ true
      → own_task id actor s ≡ (err review_task_not_claimable, s)
  unfolding guarded
  own_task-closed task p c = own_task-guarded (some task) p ∙ rw c refl

  -- `own_task` returns the officer's own open task, or raises; it writes nothing.
  pub own_task-cases :
      ((task : ReviewTask) × Owned id actor s task × (own_task id actor s ≡ (ok task, s)))
      ⊎ ((e : Error) × (own_task id actor s ≡ (err e, s)))
  unfolding guarded
  own_task-cases = elim (Option-cases (task_of id s)) [
    | inl p ↦ inr (key_error, own_task-guarded none p)
    | inr (task, p) ↦ elim (Bool-cases (is_some task.closed_at)) [
      | inl c ↦ inr (review_task_not_claimable, own_task-closed task p c)
      | inr c ↦ elim (Bool-cases (same_text task.assignee (some actor))) [
        | inr a ↦ inr (not_the_claimant, own_task-guarded (some task) p ∙ rw (c, a) refl)
        | inl a ↦ inl (
          task,
          record {
            found = p;
            unclosed = not_some task.closed_at c;
            claimant = (same_text_iff _ _).0 a;
          },
          own_task-guarded (some task) p ∙ rw (c, a) refl,
        )
      ]
    ]
  ]

after : {A B : Type 0} → (A → M B) → Result A × Session → Result B × Session
after f r = elim r.0 [ ok a ↦ f a r.1 | err e ↦ (err e, r.1) ]

skip-after :
    (w : World) (id actor : String) (s : Session)
    → skip w id actor s ≡ after (λ task. release w task actor) (own_task id actor s)
unfolding skip after
skip-after w id actor s = refl

submit-after :
    (w : World) (id actor text : String) (verdict : Option String) (s : Session)
    → submit w id actor text verdict s
      ≡ after (λ task. submit_own w task actor text verdict) (own_task id actor s)
unfolding submit after
submit-after w id actor text verdict s = refl

-- The task was the officer's own, and afterwards the row found under its id is the closed task.
pub record Submitted (id actor : String) (s t : Session) : Type 0 where
  pub task : ReviewTask
  pub owned : Owned id actor s task
  pub now : ℕ
  pub kept : task_of id t ≡ some (closed now task)

after_ok :
    {A B : Type 0} (f : A → M B) (r : Result A × Session) (a : A) (s : Session)
    → r ≡ (ok a, s)
    → after f r ≡ f a s
unfolding after
after_ok {A = A} f r a s h =
    ap (λ (m : Result A × Session). elim m.0 [ ok b ↦ f b m.1 | err e ↦ (err e, m.1) ]) h

after_err :
    {A B : Type 0} (f : A → M B) (r : Result A × Session) (e : Error) (s : Session)
    → r ≡ (err e, s)
    → after f r ≡ (err e, s)
unfolding after
after_err {A = A} f r e s h =
    ap (λ (m : Result A × Session). elim m.0 [ ok b ↦ f b m.1 | err d ↦ (err d, m.1) ]) h

ok-err : {A : Type 0} (a : A) (e : Error) → ◌≡◌ {A = Result A} (err e) (ok a) → ⊥
ok-err a e h = ground arith

-- If `submit` returns, the task was not closed and claimed by the officer, and it is closed now.
pub submit-Submitted :
    (w : World) (id actor text : String) (verdict : Option String) (s t : Session)
    (r : SubmitResult)
    → submit w id actor text verdict s ≡ (ok r, t)
    → Submitted id actor s t
submit-Submitted w id actor text verdict s t r h = elim (own_task-cases id actor s) [
  | inr (e, p) ↦
      elim (ok-err r e (
        ap (λ (m : Result SubmitResult × Session). m.0)
          (sym (submit-after w id actor text verdict s ∙ after_err _ _ e s p) ∙ h))) [ ]
  | inl (task, owned, p) ↦
      let run : submit_own w task actor text verdict s ≡ (ok r, t) =
        sym (submit-after w id actor text verdict s ∙ after_ok _ _ task s p) ∙ h in
      let (now, q) =
        subst (ClosedIn task.id s) run ((submit_own-Closes w task actor text verdict).runs s) in
      record {
        task = task;
        owned = owned;
        now = now;
        kept =
            ap (row (λ (u : ReviewTask). u.id) id) q
            ∙ row-update (λ (u : ReviewTask). u.id) (closed now) (λ u. refl) id task s.review_tasks
                owned.found;
      }
]

-- Once `submit` has returned, a later `submit` of the same task, by whomever, raises
-- `ReviewTaskNotClaimable` and writes nothing.
pub submit-once :
    (w : World) (id actor text other text' : String) (verdict verdict' : Option String)
    (s t : Session) (r : SubmitResult)
    → submit w id actor text verdict s ≡ (ok r, t)
    → submit w id other text' verdict' t ≡ (err review_task_not_claimable, t)
submit-once w id actor text other text' verdict verdict' s t r h =
    let done = submit-Submitted w id actor text verdict s t r h in
    submit-after w id other text' verdict' t
    ∙ after_err _ _ review_task_not_claimable t
        (own_task-closed id other t (closed done.now done.task) done.kept refl)

-- The task was the officer's own, and afterwards the row found under its id is the task without an
-- assignee.
pub record Skipped (id actor : String) (s t : Session) : Type 0 where
  pub task : ReviewTask
  pub owned : Owned id actor s task
  pub kept : task_of id t ≡ some (released task)

-- `skip` returns and releases the officer's own open task, or raises and writes nothing.
pub skip-cases :
    (w : World) (id actor : String) (s : Session)
    → ((t : Session) × (skip w id actor s ≡ (ok tt, t)) × Skipped id actor s t)
      ⊎ ((e : Error) × (skip w id actor s ≡ (err e, s)))
unfolding release audit_append
skip-cases w id actor s = elim (own_task-cases id actor s) [
  | inr (e, p) ↦ inr (e, skip-after w id actor s ∙ after_err _ _ e s p)
  | inl (task, owned, p) ↦ inl (
    (release w task actor s).1,
    skip-after w id actor s ∙ after_ok _ _ task s p,
    record {
      task = task;
      owned = owned;
      kept =
          row-update (λ (u : ReviewTask). u.id) released (λ u. refl) id task s.review_tasks
            owned.found;
    },
  )
]
