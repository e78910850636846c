-- ===== src/Backend/ReviewWorkflow/Tasks.antt =====
-- Which actions keep the table of review tasks, and which close a task in it.
use land_record_digitalizati.Prelude.{
  ℕ, String, ◌≡◌, refl, ap, ◌∙◌, Bool, true, false, Option, none, some, List, [], ◌∷◌,
  if◌then◌else◌,
}
use land_record_digitalizati.Audit.World.{World}
use land_record_digitalizati.Audit.Chain.{Request}
use land_record_digitalizati.Backend.Entities.{
  ReviewTask, AuditSample, Correction, PendingCorrection, Extraction, Page,
}
use land_record_digitalizati.Backend.Session.{
  Session, Error, M, Result, ok, err, ◌>>=◌, ◌>>◌, pure, raise, gets, or_raise, raise_if,
  one_or_none, modify, audit_append, fresh,
}
use land_record_digitalizati.Backend.Rows.{update}
use land_record_digitalizati.Backend.Correction.{
  add_pending, add_correction, source_page_digest_for, store_correction, hold_correction,
  write_correction, submit_correction,
}
use land_record_digitalizati.Backend.ReviewWorkflow.{
  update_sample, record_officer_verdict, judge, close, closed, submit_own,
}

pub record KeepsTasks {A : Type 0} (m : M A) : Type 0 where
  pub same : (s : Session) → (m s).1.review_tasks ≡ s.review_tasks

module _ {A : Type 0} where
  KeepsTasks-pure : (a : A) → KeepsTasks (pure a)
  KeepsTasks-pure a = record { same = λ s. refl }

  KeepsTasks-raise : (e : Error) → KeepsTasks (raise {A = A} e)
  KeepsTasks-raise e = record { same = λ s. refl }

  KeepsTasks-gets : (f : Session → A) → KeepsTasks (gets f)
  KeepsTasks-gets f = record { same = λ s. refl }

  KeepsTasks-or_raise : (e : Error) (o : Option A) → KeepsTasks (or_raise e o)
  KeepsTasks-or_raise e none = record { same = λ s. refl }
  KeepsTasks-or_raise e (some a) = record { same = λ s. refl }

  KeepsTasks-one_or_none : (l : List A) → KeepsTasks (one_or_none l)
  unfolding one_or_none
  KeepsTasks-one_or_none [] = record { same = λ s. refl }
  KeepsTasks-one_or_none (x ∷ []) = record { same = λ s. refl }
  KeepsTasks-one_or_none (x ∷ y ∷ rest) = record { same = λ s. refl }

  KeepsTasks-if :
      (b : Bool) (m n : M A) → KeepsTasks m → KeepsTasks n → KeepsTasks (if b then m else n)
  KeepsTasks-if true m n p q = p
  KeepsTasks-if false m n p q = q

KeepsTasks-raise_if : (b : Bool) (e : Error) → KeepsTasks (raise_if b e)
KeepsTasks-raise_if b e = record { same = λ s. refl }

KeepsTasks-audit_append : (w : World) (r : Request) → KeepsTasks (audit_append w r)
unfolding audit_append
KeepsTasks-audit_append w r = record { same = λ s. refl }

KeepsTasks-fresh : KeepsTasks fresh
unfolding fresh
KeepsTasks-fresh = record { same = λ s. refl }

KeepsTasks-add_pending : (p : PendingCorrection) → KeepsTasks (modify (add_pending p))
KeepsTasks-add_pending p = record { same = λ s. refl }

KeepsTasks-add_correction : (c : Correction) → KeepsTasks (modify (add_correction c))
KeepsTasks-add_correction c = record { same = λ s. refl }

KeepsTasks-update_sample :
    (id : String) (f : AuditSample → AuditSample) → KeepsTasks (modify (update_sample id f))
KeepsTasks-update_sample id f = record { same = λ s. refl }

module _ {A B : Type 0} where
  continue_keeps :
      (r : Result A) (f : A → M B) (s : Session)
      → ((a : A) → KeepsTasks (f a))
      → (elim r as (λ _. Result B × Session) [ ok a ↦ f a s | err e ↦ raise e s ]).1.review_tasks
        ≡ s.review_tasks
  continue_keeps (ok a) f s h = (h a).same s
  continue_keeps (err e) f s h = refl

  KeepsTasks-bind :
      (m : M A) (f : A → M B) → KeepsTasks m → ((a : A) → KeepsTasks (f a)) → KeepsTasks (m >>= f)
  KeepsTasks-bind m f p h = record { same = λ s. continue_keeps (m s).0 f (m s).1 h ∙ p.same s }

ruleset task_rules = (
  KeepsTasks-pure, KeepsTasks-raise, KeepsTasks-gets, KeepsTasks-or_raise, KeepsTasks-one_or_none,
  KeepsTasks-if, KeepsTasks-raise_if, KeepsTasks-audit_append, KeepsTasks-fresh,
  KeepsTasks-add_pending, KeepsTasks-add_correction, KeepsTasks-update_sample, KeepsTasks-bind,
)

store_correction-KeepsTasks :
    (w : World) (x : Extraction) (text actor stream digest : String)
    → KeepsTasks (store_correction w x text actor stream digest)
unfolding store_correction hold_correction write_correction
store_correction-KeepsTasks w x text actor stream digest = search task_rules depth 12

source_page_digest_for-KeepsTasks : (page : Page) → KeepsTasks (source_page_digest_for page)
unfolding source_page_digest_for
source_page_digest_for-KeepsTasks page = search task_rules depth 6

submit_correction-KeepsTasks :
    (w : World) (x : Extraction) (text actor stream : String)
    → KeepsTasks (submit_correction w x text actor stream)
unfolding submit_correction
submit_correction-KeepsTasks w x text actor stream =
    search (task_rules, store_correction-KeepsTasks, source_page_digest_for-KeepsTasks) depth 9

judge-KeepsTasks :
    (w : World) (a : Option AuditSample) (v : Option String) (actor : String)
    → KeepsTasks (judge w a v actor)
unfolding judge record_officer_verdict
judge-KeepsTasks w none v actor = search task_rules depth 4
judge-KeepsTasks w (some a) none actor = search task_rules depth 4
judge-KeepsTasks w (some a) (some v) actor = search task_rules depth 9

-- The task of the id is closed, at some time, when the action returns.
abbrev pub ClosedIn : String → Session → {A : Type 0} → Result A × Session → Type 0
ClosedIn id s (ok a, t) =
    (now : ℕ) × (t.review_tasks ≡ update (λ (u : ReviewTask). u.id) id (closed now) s.review_tasks)
ClosedIn id s (err e, t) = Unit

pub record Closes {A : Type 0} (id : String) (m : M A) : Type 0 where
  pub runs : (s : Session) → ClosedIn id s (m s)

module _ {A B : Type 0} (id : String) where
  step_left :
      (r : Result A) (f : A → M B) (s u : Session)
      → u.review_tasks ≡ s.review_tasks
      → ((a : A) → Closes id (f a))
      → ClosedIn id s (elim r as (λ _. Result B × Session) [ ok a ↦ f a u | err e ↦ raise e u ])
  step_left (ok a) f s u p h = from_tasks (f a u) ((h a).runs u)
    where
      from_tasks : (r : Result B × Session) → ClosedIn id u r → ClosedIn id s r
      from_tasks (ok b, t) (now, q) =
          (now, q ∙ ap (update (λ (v : ReviewTask). v.id) id (closed now)) p)
      from_tasks (err e, t) q = tt
  step_left (err e) f s u p h = tt

  Closes-behind :
      (m : M A) (f : A → M B) → KeepsTasks m → ((a : A) → Closes id (f a)) → Closes id (m >>= f)
  Closes-behind m f p h = record { runs = λ s. step_left (m s).0 f s (m s).1 (p.same s) h }

  step_right :
      (r : Result A × Session) (b : B) (s : Session)
      → ClosedIn id s r
      → ClosedIn id s
          (elim r.0 as (λ _. Result B × Session) [ ok a ↦ pure b r.1 | err e ↦ raise e r.1 ])
  step_right (ok a, t) b s h = h
  step_right (err e, t) b s h = tt

  Closes-before : (m : M A) (b : B) → Closes id m → Closes id (m >> pure b)
  Closes-before m b p = record { runs = λ s. step_right (m s) b s (p.runs s) }

close-Closes :
    (w : World) (task : ReviewTask) (actor : String) → Closes task.id (close w task actor)
unfolding close audit_append
close-Closes w task actor = record { runs = λ s. (w.clock s.log.ticks, refl) }

pub submit_own-Closes :
    (w : World) (task : ReviewTask) (actor text : String) (verdict : Option String)
    → Closes task.id (submit_own w task actor text verdict)
unfolding submit_own
submit_own-Closes w task actor text verdict =
    search
      (
        task_rules, Closes-behind, Closes-before, close-Closes, submit_correction-KeepsTasks,
        judge-KeepsTasks,
      )
      depth 14
