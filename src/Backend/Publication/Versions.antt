-- ===== src/Backend/Publication/Versions.antt =====
-- The gate in front of a publication, and the version that it writes.
use land_record_digitalizati.Prelude.{
  ℕ, String, ◌≡◌, ◌≢◌, ◌⊎◌, refl, sym, ap, ◌∙◌, subst, inl, inr, Bool, false, Option, some, List,
  [], ◌∷◌, ◌++◌, any, is_some, if◌then◌else◌, Any, Any-map, Any-any, Any-left, Any-right,
}
use land_record_digitalizati.Audit.World.{World}
use land_record_digitalizati.Audit.Chain.{truthy}
use land_record_digitalizati.Backend.Entities.{Record}
use land_record_digitalizati.Backend.Session.{
  Session, Result, ok, err, BlockReason, volume_gap, open_conflict, publish_blocked, audit_append,
}
use land_record_digitalizati.Backend.Completeness.{CompletenessAlert, current_alert}
use land_record_digitalizati.Backend.Conflicts.{
  CheckFn, GateResult, reasons_of, attempt_publish, check_open_conflict,
}
use land_record_digitalizati.Backend.Conflicts.Blocking.{
  Disputes, NamesDisputes, attempt_publish-answer, reported, open_reason,
  check_volume_completeness-alert,
}
use land_record_digitalizati.Backend.Publication.{
  Publish, previous_of, batch_checks, conflict_checks, checks_of, subject_of, next_version,
  new_version, write_version, publish_new_version, record_publish,
}
use land_record_digitalizati.Backend.Publication.Latest.{
  IsLatest, IsNext, previous_of-named, latest-IsLatest, next_version-IsNext,
}

module _ (w : World) (p : Publish) (s : Session) where
  -- The checks of this publication, on its subject.
  abbrev pub checks : List CheckFn
  checks = checks_of p.batch_id (previous_of s p.record_group_id)

  abbrev pub is_blocked : Bool
  is_blocked = any (λ check. is_some (check s (subject_of p.record_group_id p.batch_id))) checks

  after_gate : Result GateResult × Session → Result Record × Session
  after_gate r = elim r.0 [
    | ok a ↦ write_version w p (previous_of s p.record_group_id) r.1
    | err e ↦ (err e, r.1)
  ]

  publish-gate :
      publish_new_version w p s
      ≡ after_gate (
        if is_blocked
            then err
                (publish_blocked (reasons_of s (subject_of p.record_group_id p.batch_id) checks))
            else ok (record { blocked = false; reasons = [] }),
        s,
      )
  unfolding publish_new_version after_gate
  publish-gate =
      ap after_gate (attempt_publish-answer s (subject_of p.record_group_id p.batch_id) checks)

  -- What stands against the publication: an alert of its batch, or a conflict that names the latest
  -- version of its group and is open, under enquiry or referred.
  abbrev pub Obstacle : Type 0
  Obstacle =
      ((batch : String) × (alert : CompletenessAlert) × (p.batch_id ≡ some batch)
        × (current_alert s batch ≡ some alert))
      ⊎ ((group : String) × (r : Record) × (p.record_group_id ≡ some group)
          × (group ≢ "")
          × IsLatest s group r
          × Any (Disputes r.id) s.conflicts)

  -- The reasons name the obstacle.
  abbrev pub Reported : List BlockReason → Obstacle → Type 0
  Reported rs (inl (batch, alert, _, _)) =
      Any (λ x. x ≡ volume_gap batch alert.missing_index_positions) rs
  Reported rs (inr (group, r, _, _, _, _)) =
      (ids : List String) × (rules : List String) × Any (λ x. x ≡ open_conflict r.id ids rules) rs
      × NamesDisputes s r.id ids

  abbrev subject : String
  subject = subject_of p.record_group_id p.batch_id

  publish-reason :
      (x : BlockReason)
      → Any (λ (check : CheckFn). check s subject ≡ some x) checks
      → (rs : List BlockReason) × (publish_new_version w p s ≡ (err (publish_blocked rs), s))
        × Any (λ y. y ≡ x) rs
  unfolding publish_new_version after_gate attempt_publish
  publish-reason x h =
      let some_check =
        Any-any (λ (check : CheckFn). is_some (check s subject)) checks
          (Any-map _ _ checks (λ check e. ap is_some e) h) in
      let (rs, stopped, all_reasons) = reported s subject checks some_check in
      (rs, ap after_gate stopped, (all_reasons x).1 h)

  alert_check :
      (batch : String) (alert : CompletenessAlert)
      → p.batch_id ≡ some batch
      → current_alert s batch ≡ some alert
      → Any
          (λ (check : CheckFn).
            check s subject ≡ some (volume_gap batch alert.missing_index_positions))
          checks
  unfolding checks_of
  alert_check batch alert given found =
      Any-left _ (batch_checks p.batch_id) (conflict_checks (previous_of s p.record_group_id))
        (rw given (inl (check_volume_completeness-alert s batch alert found)))

  conflict_check :
      (group : String) (r : Record) (x : BlockReason)
      → p.record_group_id ≡ some group
      → group ≢ ""
      → IsLatest s group r
      → check_open_conflict s r.id ≡ some x
      → Any (λ (check : CheckFn). check s subject ≡ some x) checks
  unfolding checks_of
  conflict_check group r x given named latest found =
      let previous =
        ap (previous_of s) given
        ∙ previous_of-named s group named
        ∙ latest-IsLatest s group r latest in
      Any-right _ (batch_checks p.batch_id) (conflict_checks (previous_of s p.record_group_id)) (
        subst
          (λ (o : Option Record).
            Any (λ (check : CheckFn). check s subject ≡ some x) (conflict_checks o))
          (sym previous) (inl found))

  -- If the batch of the publication has an alert, or a conflict that is open, under enquiry or referred
  -- names the latest version of its group (the only row with the group's highest version),
  -- `publish_new_version` writes nothing and raises with reasons of which one is that alert's gap, or
  -- names that version and every such conflict of it.
  pub publish-blocked :
      (o : Obstacle)
      → (rs : List BlockReason) × (publish_new_version w p s ≡ (err (publish_blocked rs), s))
        × Reported rs o
  publish-blocked (inl (batch, alert, given, found)) =
      publish-reason _ (alert_check batch alert given found)
  publish-blocked (inr (group, r, given, named, latest, disputed)) =
      let (ids, rules, found, named_all) = open_reason s r.id disputed in
      let (rs, stopped, here) =
        publish-reason _ (conflict_check group r _ given named latest found) in
      (rs, stopped, (ids, rules, here, named_all))

  -- The version of the returned row: for a named group, one more than the highest of its rows, or the
  -- first one where there is none; without a group, the first one.
  abbrev pub Versioned : Record → Type 0
  Versioned r =
      (truthy p.record_group_id ≡ false → r.version ≡ 1)
      × ((group : String)
          → p.record_group_id ≡ some group
          → group ≢ ""
          → (r.record_group_id ≡ group) × IsNext s group r)

  new_version-Versioned :
      (tick : ℕ) → Versioned (new_version w p (previous_of s p.record_group_id) tick)
  unfolding new_version
  new_version-Versioned tick = (
    λ unnamed. rw unnamed refl,
    λ group given named. (
      rw given refl,
      next_version-IsNext s group (new_version w p (previous_of s p.record_group_id) tick)
          (ap next_version (ap (previous_of s) given ∙ previous_of-named s group named)),
    ),
  )

  -- If no check of the publication reports a reason, `publish_new_version` returns and adds exactly the
  -- returned row, which counts as published. For a named group it is a row of that group, and its
  -- version is one more than the highest of the group, or 1 where the group has no row; without a group
  -- its version is 1.
  pub publish-writes :
      is_blocked ≡ false
      → (r : Record) × (t : Session) × (publish_new_version w p s ≡ (ok r, t))
        × (t.records ≡ s.records ++ r ∷ [])
        × Versioned r
        × (r.status ≡ "published")
  unfolding after_gate write_version record_publish audit_append new_version
  publish-writes h = (
    new_version w p (previous_of s p.record_group_id) s.log.ticks,
    (write_version w p (previous_of s p.record_group_id) s).1,
    publish-gate ∙ rw h refl,
    refl,
    new_version-Versioned s.log.ticks,
    refl,
  )
