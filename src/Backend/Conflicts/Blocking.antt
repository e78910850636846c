-- ===== src/Backend/Conflicts/Blocking.antt =====
-- Which conflicts block a publication, and what the gate does then.
use mathlib.Core.Option.{some-injective}
use land_record_digitalizati.Backend.Completeness.{CompletenessAlert, current_alert}
use land_record_digitalizati.Backend.Policy.{blocking_conflict_states}
use land_record_digitalizati.Prelude.{
  String, ◌≡◌, refl, sym, ap, ◌∙◌, Bool, false, true, none, some, List, [], ◌∷◌, filter, any,
  any-Any, Any-any, Any, Any-map, Any-mapped, Any-filter, Any-self, All-map, map, All, arith,
  &&-eq-true, eq_iff, ◌==◌, ◌↔◌, ◌⊎◌, Bool-cases, Option-cases, inl, inr, is_some, if◌then◌else◌,
}
use land_record_digitalizati.Backend.Entities.{Conflict}
use land_record_digitalizati.Backend.Session.{
  Session, Result, ok, err, BlockReason, volume_gap, open_conflict, publish_blocked, contains,
  raise_if, pure, ◌>>◌,
}
use land_record_digitalizati.Backend.Conflicts.{
  CheckFn, GateResult, reasons_of, some_reason, evaluate, attempt_publish, blocks, conflict_reason,
  check_open_conflict, check_volume_completeness, is_publish_blocked,
}

reason_any :
    (record_id : String) (cs : List Conflict)
    → is_some (conflict_reason record_id (filter (blocks record_id) cs)) ≡ any (blocks record_id) cs
reason_any record_id [] = refl
reason_any record_id (c ∷ cs) = elim (Bool-cases (blocks record_id c)) [
  | inl e ↦ rw e refl
  | inr e ↦ rw e (reason_any record_id cs)
]

-- A conflict that names the record and is open, under enquiry or referred.
abbrev pub Disputes : String → Conflict → Type 0
Disputes record_id c =
    Any (λ (r : String). r ≡ record_id) c.records
    × ((c.state ≡ "open") ⊎ (c.state ≡ "under_enquiry") ⊎ (c.state ≡ "referred"))

named_in : (x : String) (ts : List String) → contains x ts ≡ true → Any (λ t. t ≡ x) ts
named_in x ts h = Any-map _ _ ts (λ t e. (eq_iff t x).0 e) (any-Any (λ (y : String). y == x) ts h)

in_named : (x : String) (ts : List String) → Any (λ t. t ≡ x) ts → contains x ts ≡ true
in_named x ts h = Any-any (λ (y : String). y == x) ts (Any-map _ _ ts (λ t e. (eq_iff t x).1 e) h)

in_state :
    (state : String)
    → (state ≡ "open") ⊎ (state ≡ "under_enquiry") ⊎ (state ≡ "referred")
    → contains state blocking_conflict_states ≡ true
in_state state (inl e) = in_named state blocking_conflict_states (inl (sym e))
in_state state (inr (inl e)) = in_named state blocking_conflict_states (inr (inl (sym e)))
in_state state (inr (inr e)) = in_named state blocking_conflict_states (inr (inr (inl (sym e))))

state_in :
    (state : String)
    → Any (λ (t : String). t ≡ state) blocking_conflict_states
    → (state ≡ "open") ⊎ (state ≡ "under_enquiry") ⊎ (state ≡ "referred")
state_in state (inl e) = inl (sym e)
state_in state (inr (inl e)) = inr (inl (sym e))
state_in state (inr (inr (inl e))) = inr (inr (sym e))
state_in state (inr (inr (inr none_left))) = elim none_left [ ]

Disputes-blocks : (id : String) (c : Conflict) → Disputes id c → blocks id c ≡ true
Disputes-blocks id c (named, state) = rw (in_named id c.records named, in_state c.state state) refl

blocks-Disputes : (id : String) (c : Conflict) → blocks id c ≡ true → Disputes id c
blocks-Disputes id c h =
    let (named, state) = &&-eq-true _ _ h in
    (
      named_in id c.records named,
      state_in c.state (named_in c.state blocking_conflict_states state),
    )

-- A record is blocked exactly when some conflict names it and is open, under enquiry or referred.
pub is_publish_blocked_iff :
    (s : Session) (record_id : String)
    → (is_publish_blocked s record_id ≡ true) ↔ Any (Disputes record_id) s.conflicts
unfolding is_publish_blocked check_open_conflict
is_publish_blocked_iff s record_id =
    let same = reason_any record_id s.conflicts in
    (
      λ h.
          Any-map _ _ s.conflicts (blocks-Disputes record_id)
            (any-Any (blocks record_id) s.conflicts (sym same ∙ h)),
      λ h.
          same
          ∙ Any-any (blocks record_id) s.conflicts
              (Any-map _ _ s.conflicts (Disputes-blocks record_id) h),
    )

-- Every conflict that disputes the record is among the ids.
abbrev pub NamesDisputes : Session → String → List String → Type 0
NamesDisputes s record_id ids =
    All (λ c. Disputes record_id c → Any (λ (id : String). id ≡ c.id) ids) s.conflicts

blocking_ids :
    (s : Session) (record_id : String)
    → NamesDisputes s record_id
        (map (λ (c : Conflict). c.id) (filter (blocks record_id) s.conflicts))
blocking_ids s record_id =
    All-map _ _ s.conflicts
      (λ c here disputes.
        Any-mapped (λ (d : Conflict). d.id) (λ (id : String). id ≡ c.id)
          (filter (blocks record_id) s.conflicts)
          (Any-filter (λ d. d.id ≡ c.id) (blocks record_id) s.conflicts
            (Any-map _ _ s.conflicts
              (λ d same. (
                ap (blocks record_id) same ∙ Disputes-blocks record_id c disputes,
                ap (λ (x : Conflict). x.id) same,
              ))
              here)))
      (Any-self s.conflicts)

conflict_reason-some :
    (record_id : String) (cs : List Conflict)
    → is_some (conflict_reason record_id cs) ≡ true
    → (rules : List String) × (conflict_reason record_id cs
        ≡ some (open_conflict record_id (map (λ (d : Conflict). d.id) cs) rules))
conflict_reason-some record_id [] none_left = absurd (ground arith)
conflict_reason-some record_id (c ∷ cs) some_left = (_, refl)

-- A disputed record has a reason, with the ids of the conflicts that dispute it.
pub open_reason :
    (s : Session) (record_id : String)
    → Any (Disputes record_id) s.conflicts
    → (ids : List String) × (rules : List String) × (check_open_conflict s record_id
        ≡ some (open_conflict record_id ids rules))
      × NamesDisputes s record_id ids
unfolding is_publish_blocked check_open_conflict
open_reason s record_id h =
    let cs = filter (blocks record_id) s.conflicts in
    let (rules, found) =
      conflict_reason-some record_id cs ((is_publish_blocked_iff s record_id).1 h) in
    (map (λ (c : Conflict). c.id) cs, rules, found, blocking_ids s record_id)

-- The check of the completeness reports the alert of the batch.
pub check_volume_completeness-alert :
    (s : Session) (batch : String) (alert : CompletenessAlert)
    → current_alert s batch ≡ some alert
    → check_volume_completeness s batch ≡ some (volume_gap batch alert.missing_index_positions)
unfolding check_volume_completeness
check_volume_completeness-alert s batch alert h = rw h refl

-- The reasons are those that some check reports.
reasons_of_iff :
    (s : Session) (subject : String) (checks : List CheckFn) (r : BlockReason)
    → Any (λ x. x ≡ r) (reasons_of s subject checks)
      ↔ Any (λ (check : CheckFn). check s subject ≡ some r) checks
unfolding reasons_of
reasons_of_iff s subject [] r = (λ h. h, λ h. h)
reasons_of_iff s subject (check ∷ checks) r = elim (Option-cases (check s subject)) [
  | inl p ↦
      let (there, back) = reasons_of_iff s subject checks r in
      (
        λ h. inr (there (rw p at h)),
        λ h. elim h [ inl q ↦ absurd (ground (arith, sym p ∙ q)) | inr later ↦ rw p (back later) ],
      )
  | inr (x, p) ↦
      let (there, back) = reasons_of_iff s subject checks r in
      (
        λ h.
            let found : (x ≡ r) ⊎ Any (λ y. y ≡ r) (reasons_of s subject checks) = rw p at h in
            elim found [ inl same ↦ inl (p ∙ ap some same) | inr later ↦ inr (there later) ],
        λ h. elim h [
          | inl q ↦ rw p (inl (some-injective _ _ (sym p ∙ q)))
          | inr later ↦ rw p (inr (back later))
        ],
      )
]

-- Exactly the reasons that the checks report.
abbrev pub AllReasons : Session → String → List CheckFn → List BlockReason → Type 0
AllReasons s subject checks rs =
    (r : BlockReason)
    → Any (λ x. x ≡ r) rs ↔ Any (λ (check : CheckFn). check s subject ≡ some r) checks

no_reason :
    (s : Session) (subject : String) (checks : List CheckFn)
    → any (λ check. is_some (check s subject)) checks ≡ false
    → All (λ (check : CheckFn). check s subject ≡ none) checks
no_reason s subject [] h = tt
no_reason s subject (check ∷ checks) h = elim (Option-cases (check s subject)) [
  | inl p ↦ (p, no_reason s subject checks (rw p at h))
  | inr (r, p) ↦ let reported : true ≡ false = rw p at h in absurd (ground arith)
]

some_any :
    (s : Session) (subject : String) (checks : List CheckFn)
    → any (λ check. is_some (check s subject)) checks ≡ some_reason (reasons_of s subject checks)
unfolding reasons_of
some_any s subject [] = refl
some_any s subject (check ∷ checks) = elim (Option-cases (check s subject)) [
  | inl p ↦ rw p (some_any s subject checks)
  | inr (r, p) ↦ rw p refl
]

answer : Bool → List BlockReason → Session → Result GateResult × Session
answer b rs s =
    (if b then err (publish_blocked rs) else ok (record { blocked = false; reasons = [] }), s)

gate :
    (s : Session) (rs : List BlockReason)
    → let result : GateResult = record { blocked = some_reason rs; reasons = rs } in
      (raise_if (some_reason rs) (publish_blocked rs) >> pure result) s ≡ (
        if some_reason rs
            then err (publish_blocked rs)
            else ok (record { blocked = false; reasons = [] }),
        s,
      )
gate s [] = refl
gate s (r ∷ rs) = refl

pub attempt_publish-answer :
    (s : Session) (subject : String) (checks : List CheckFn)
    → attempt_publish subject checks s ≡ (
      if any (λ check. is_some (check s subject)) checks
          then err (publish_blocked (reasons_of s subject checks))
          else ok (record { blocked = false; reasons = [] }),
      s,
    )
unfolding attempt_publish evaluate answer
attempt_publish-answer s subject checks =
    gate s (reasons_of s subject checks)
    ∙ ap (λ (b : Bool). answer b (reasons_of s subject checks) s) (sym (some_any s subject checks))

-- If some check reports a reason, the gate raises with that reason among the others.
pub reported :
    (s : Session) (subject : String) (checks : List CheckFn)
    → any (λ check. is_some (check s subject)) checks ≡ true
    → (rs : List BlockReason) × (attempt_publish subject checks s ≡ (err (publish_blocked rs), s))
      × AllReasons s subject checks rs
reported s subject checks h = (
  reasons_of s subject checks,
  attempt_publish-answer s subject checks ∙ rw h refl,
  reasons_of_iff s subject checks,
)

-- The gate writes nothing. Either no check reports a reason and it passes, or some check does and it
-- raises with exactly the reasons that the checks report, every one of them included.
pub attempt_publish-gate :
    (s : Session) (subject : String) (checks : List CheckFn)
    → (All (λ (check : CheckFn). check s subject ≡ none) checks
        × (attempt_publish subject checks s ≡ (ok (record { blocked = false; reasons = [] }), s)))
      ⊎ ((rs : List BlockReason) × Any
            (λ (check : CheckFn). is_some (check s subject) ≡ true)
            checks
          × (attempt_publish subject checks s ≡ (err (publish_blocked rs), s))
          × AllReasons s subject checks rs)
attempt_publish-gate s subject checks =
    elim (Bool-cases (any (λ check. is_some (check s subject)) checks)) [
      | inr h ↦
          inl (no_reason s subject checks h, attempt_publish-answer s subject checks ∙ rw h refl)
      | inl h ↦
          let (rs, p, q) = reported s subject checks h in
          inr (rs, any-Any (λ (check : CheckFn). is_some (check s subject)) checks h, p, q)
    ]
