-- ===== src/Backend/ReviewWorkflow/Claiming.antt =====
-- Which task is claimed, and that two claims never give the same one.
use land_record_digitalizati.Prelude.{
  ℕ, ◌≤◌, String, ◌≡◌, ◌≢◌, refl, sym, ap, ap₂, ◌∙◌, subst, Bool, true, false, Option, none, some,
  List, [], ◌∷◌, filter, All, All-filter, from_filter, All-filtered, All-map, Any, Any-self,
  Any-map, filter-Any, Any-filter, is_some, arith, Option-cases, inl, inr, if◌then◌else◌,
}
use land_record_digitalizati.Audit.World.{World}
use land_record_digitalizati.Backend.Entities.{ReviewTask, ReviewSession, ℤ}
use land_record_digitalizati.Backend.Session.{
  Session, M, Result, ok, err, ◌>>=◌, pure, gets, modify, fresh,
}
use land_record_digitalizati.Backend.Rows.{All-update}
use land_record_digitalizati.Backend.ReviewSession.{
  touch_session, continue_session, start_session, update_session,
}
use land_record_digitalizati.Backend.ReviewWorkflow.Oldest.{oldest-All, oldest-none, oldest-first}
use land_record_digitalizati.Backend.ReviewWorkflow.{
  is_unclaimed, oldest, next_task, claimed, claim, claim_next, update_task,
}

-- The action returns, and keeps the review tasks.
record Smooth {A : Type 0} (m : M A) : Type 0 where
  runs :
      (s : Session)
      → (a : A) × (t : Session) × (m s ≡ (ok a, t)) × (t.review_tasks ≡ s.review_tasks)

module _ {A : Type 0} where
  Smooth-pure : (a : A) → Smooth (pure a)
  Smooth-pure a = record { runs = λ s. (a, s, refl, refl) }

  Smooth-gets : (f : Session → A) → Smooth (gets f)
  Smooth-gets f = record { runs = λ s. (f s, s, refl, refl) }

  Smooth-if : (b : Bool) (m n : M A) → Smooth m → Smooth n → Smooth (if b then m else n)
  Smooth-if true m n p q = p
  Smooth-if false m n p q = q

Smooth-fresh : Smooth fresh
unfolding fresh
Smooth-fresh = record { runs = λ s. (_, _, refl, refl) }

Smooth-bind :
    {A B : Type 0} (m : M A) (f : A → M B) → Smooth m → ((a : A) → Smooth (f a)) → Smooth (m >>= f)
Smooth-bind {A = A} {B = B} m f p h = record {
  runs = λ s.
      let (a, u, q, same) = p.runs s in
      let (b, t, r, same') = (h a).runs u in
      (
        b,
        t,
        ap
              (λ (x : Result A × Session). elim x.0 as (λ _. Result B × Session) [
                | ok c ↦ f c x.1
                | err e ↦ (err e, x.1)
              ])
              q
            ∙ r,
        same' ∙ same,
      );
}

Smooth-update_session :
    (id : String) (f : ReviewSession → ReviewSession) → Smooth (modify (update_session id f))
Smooth-update_session id f = record { runs = λ s. (_, _, refl, refl) }

ruleset smooth_rules =
    (Smooth-pure, Smooth-gets, Smooth-if, Smooth-fresh, Smooth-bind, Smooth-update_session)

start_session-Smooth : (w : World) (actor : String) (now : ℕ) → Smooth (start_session w actor now)
unfolding start_session
start_session-Smooth w actor now = record { runs = λ s. (_, _, refl, refl) }

continue_session-Smooth :
    (w : World) (actor : String) (now : ℕ) (o : Option ReviewSession)
    → Smooth (continue_session w actor now o)
unfolding continue_session
continue_session-Smooth w actor now none = start_session-Smooth w actor now
continue_session-Smooth w actor now (some r) = search (smooth_rules, start_session-Smooth) depth 8

touch_session-Smooth : (w : World) (actor : String) → Smooth (touch_session w actor)
unfolding touch_session
touch_session-Smooth w actor = search (smooth_rules, continue_session-Smooth) depth 10

-- A task that no officer has claimed and that is not closed.
pub record Free (t : ReviewTask) : Type 0 where
  pub no_assignee : t.assignee ≡ none
  pub not_closed : t.closed_at ≡ none

-- A claim: one of the tasks was free and no free task was opened before it; the officer gets it with
-- its id, and every row with that id is the officer's now.
pub record Claimed (actor : String) (s t : Session) (got : ReviewTask) : Type 0 where
  pub task : ReviewTask
  pub in_table : Any (λ u. u ≡ task) s.review_tasks
  pub was_free : Free task
  pub first : All (λ u. Free u → task.opened_at ≤ u.opened_at) s.review_tasks
  pub id : got.id ≡ task.id
  pub extraction : got.extraction_id ≡ task.extraction_id
  pub assignee : got.assignee ≡ some actor
  pub taken : All (λ u. u.id ≡ got.id → u.assignee ≡ some actor) t.review_tasks

no_value : {A : Type 0} (o : Option A) → is_some o ≡ false → o ≡ none
no_value none h = refl
no_value (some a) h = absurd (ground arith)

unclaimed-Free : (t : ReviewTask) → is_unclaimed t ≡ true → Free t
unclaimed-Free t h = record {
  no_assignee = no_value t.assignee (ground arith);
  not_closed = no_value t.closed_at (ground arith);
}

Free-unclaimed : (t : ReviewTask) → Free t → is_unclaimed t ≡ true
Free-unclaimed t h = rw (h.no_assignee, h.not_closed) refl

-- The oldest task is one of the list.
oldest-Any : (ts : List ReviewTask) (t : ReviewTask) → oldest ts ≡ some t → Any (λ u. u ≡ t) ts
oldest-Any ts t h = oldest-All (λ u. Any (λ v. v ≡ u) ts) ts t (Any-self ts) h

-- A free task is found.
next_task-some : (s : Session) → Any Free s.review_tasks → (t : ReviewTask) × (next_task s ≡ some t)
next_task-some s h = elim (Option-cases (next_task s)) [
  | inr found ↦ found
  | inl p ↦
      let free =
        Any-filter (λ u. Free u) is_unclaimed s.review_tasks
          (Any-map _ _ s.review_tasks (λ u f. (Free-unclaimed u f, f)) h) in
      absurd (subst (Any (λ u. Free u)) (oldest-none _ p) free)
]

module _ (w : World) (actor : String) (s : Session) where
  claim_next-oldest :
      (o : Option ReviewTask) → next_task s ≡ o → claim_next w actor s ≡ claim w actor o s
  unfolding claim_next
  claim_next-oldest o p = ap (λ (q : Option ReviewTask). claim w actor q s) p

  -- When no task is free, `claim_next` returns `None` and writes nothing.
  pub claim_next-empty :
      All (λ u. is_unclaimed u ≡ false) s.review_tasks → claim_next w actor s ≡ (ok none, s)
  unfolding claim oldest
  claim_next-empty h = claim_next-oldest none (ap oldest (filter-none s.review_tasks h))
    where
      filter-none :
          (ts : List ReviewTask)
          → All (λ u. is_unclaimed u ≡ false) ts
          → filter is_unclaimed ts ≡ []
      filter-none [] a = refl
      filter-none (u ∷ ts) a = rw a.0 (filter-none ts a.1)

  claim-Claimed :
      (task : ReviewTask)
      → next_task s ≡ some task
      → (got : ReviewTask) × (t : Session) × (claim w actor (some task) s ≡ (ok (some got), t))
        × (got.id ≡ task.id)
        × Claimed actor s t got
  unfolding claim
  claim-Claimed task p =
      let ((r, hour), u, q, same) = (touch_session-Smooth w actor).runs s in
      (
        claimed actor hour task,
        update_task task.id (claimed actor hour) u,
        ap
            (λ (x : Result (ReviewSession × ℤ) × Session).
              elim x.0 as (λ _. Result (Option ReviewTask) × Session) [
                | ok touch ↦ (
                  ok (some (claimed actor touch.1 task)),
                  update_task task.id (claimed actor touch.1) x.1,
                )
                | err e ↦ (err e, x.1)
              ])
            q,
        refl,
        record {
          task = task;
          in_table =
              Any-map _ _ s.review_tasks (λ u both. both.1)
                (filter-Any (λ u. u ≡ task) is_unclaimed s.review_tasks
                  (oldest-Any (filter is_unclaimed s.review_tasks) task p));
          was_free = unclaimed-Free task (
              oldest-All (λ v. is_unclaimed v ≡ true) (filter is_unclaimed s.review_tasks) task
                (All-filter is_unclaimed s.review_tasks) p);
          first =
              All-map _ _ s.review_tasks (λ v least free. least (Free-unclaimed v free))
                (from_filter (λ v. task.opened_at ≤ v.opened_at) is_unclaimed s.review_tasks
                  (oldest-first (filter is_unclaimed s.review_tasks) task p));
          id = refl;
          extraction = refl;
          assignee = refl;
          taken =
              All-update (λ (v : ReviewTask). v.id) (claimed actor hour) (λ v. refl) task.id
                (λ v. v.assignee ≡ some actor) u.review_tasks (λ v. refl);
        },
      )

  -- If some task is neither claimed nor closed, `claim_next` returns one of those that was opened no
  -- later than any other of them, with the officer as its assignee, and every row with its id is the
  -- officer's afterwards.
  pub claim_next-Claimed :
      Any (λ u. Free u) s.review_tasks
      → (got : ReviewTask) × (t : Session) × (claim_next w actor s ≡ (ok (some got), t))
        × Claimed actor s t got
  claim_next-Claimed h =
      let (free, p) = next_task-some s h in
      let (got, t, q, i, c) = claim-Claimed free p in
      (got, t, claim_next-oldest (some free) p ∙ q, c)

got_or : ReviewTask → Result (Option ReviewTask) → ReviewTask
got_or d (ok (some got)) = got
got_or d (ok none) = d
got_or d (err e) = d

ok_none-some :
    (got : ReviewTask) → ◌≡◌ {A = Result (Option ReviewTask)} (ok none) (ok (some got)) → ⊥
ok_none-some got h = ground arith

-- A claim that returned a task had a task to claim, and returned it.
claim_next-inv :
    (w : World) (actor : String) (s t : Session) (got : ReviewTask)
    → claim_next w actor s ≡ (ok (some got), t)
    → (free : ReviewTask) × (next_task s ≡ some free) × (got.id ≡ free.id) × Claimed actor s t got
unfolding got_or claim
claim_next-inv w actor s t got h = elim (Option-cases (next_task s)) [
  | inl p ↦
      elim (ok_none-some got (
        ap (λ (m : Result (Option ReviewTask) × Session). m.0)
          (sym (claim_next-oldest w actor s none p) ∙ h))) [ ]
  | inr (free, p) ↦
      let (g, u, r, i, c) = claim-Claimed w actor s free p in
      let q = claim_next-oldest w actor s (some free) p ∙ r in
      let same : g ≡ got =
        ap (λ (m : Result (Option ReviewTask) × Session). got_or got m.0) (sym q ∙ h) in
      let after : u ≡ t = ap (λ (m : Result (Option ReviewTask) × Session). m.1) (sym q ∙ h) in
      (
        free,
        p,
        ap (λ (x : ReviewTask). x.id) (sym same) ∙ i,
        subst (λ (x : ReviewTask × Session). Claimed actor s x.1 x.0)
            (ap₂ (λ (x : ReviewTask) (y : Session). (x, y)) same after) c,
      )
]

-- Two officers, or one twice, who fetch a task one after the other never get the same task.
pub claim_next-distinct :
    (w : World) (actor other : String) (s t u : Session) (got got' : ReviewTask)
    → claim_next w actor s ≡ (ok (some got), t)
    → claim_next w other t ≡ (ok (some got'), u)
    → got'.id ≢ got.id
claim_next-distinct w actor other s t u got got' h h' e =
    let (free, p, i, c) = claim_next-inv w actor s t got h in
    let (free', p', i', c') = claim_next-inv w other t u got' h' in
    let taken : free'.assignee ≡ some actor =
      oldest-All (λ v. v.id ≡ got.id → v.assignee ≡ some actor) (filter is_unclaimed t.review_tasks)
        free'
        (All-filtered (λ v. v.id ≡ got.id → v.assignee ≡ some actor) is_unclaimed t.review_tasks
          c.taken)
        p' (sym i' ∙ e) in
    let unclaimed : is_unclaimed free' ≡ true =
      oldest-All (λ v. is_unclaimed v ≡ true) (filter is_unclaimed t.review_tasks) free'
        (All-filter is_unclaimed t.review_tasks) p' in
    ground (arith, taken, unclaimed)
