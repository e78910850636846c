-- ===== src/Backend/Correction/Confirming.antt =====
-- Confirming a held correction: who may do it, what it writes, and that it happens once.
use land_record_digitalizati.Prelude.{
  ◌+◌, String, ◌≡◌, ◌≢◌, ◌⊎◌, refl, sym, ap, ap₂, ◌∙◌, subst, true, false, not, Option, none, some,
  [], ◌∷◌, ◌++◌, map, find, arith, Bool-cases, Option-cases, inl, inr, ◌==◌, eq_iff, if◌then◌else◌,
  same_text_iff,
}
use land_record_digitalizati.Audit.World.{World}
use land_record_digitalizati.Backend.Entities.{Correction, PendingCorrection}
use land_record_digitalizati.Backend.Session.{
  Session, Error, Result, ok, err, key_error, pending_correction_already_resolved,
  same_actor_cannot_confirm, ◌>>=◌, ◌>>◌, gets, or_raise, raise_if, audit_append,
}
use land_record_digitalizati.Backend.Rows.{row-update}
use land_record_digitalizati.Backend.Correction.{
  pending_of, claimant_of, same_actor, confirmed_correction, resolve, confirm, reject, confirm_by,
  confirm_pending_correction,
}

-- The correction that waits, before and after the second officer confirmed it.
pub record Confirmed (id actor : String) (s t : Session) (c : Correction) : Type 0 where
  pub held : PendingCorrection
  pub found : pending_of id s ≡ some held
  pub waits : held.state ≡ "pending"
  pub not_maker : actor ≢ held.first_actor
  pub not_claimant : claimant_of held.extraction_id s ≢ some actor
  pub text : c.corrected ≡ held.corrected
  pub actor_of : c.actor ≡ actor
  pub corrections : t.corrections ≡ s.corrections ++ c ∷ []
  pub now : PendingCorrection
  pub kept : pending_of id t ≡ some now
  pub state : now.state ≡ "confirmed"
  pub result : now.resulting_correction_id ≡ some c.id

-- No correction and no held correction has changed.
pub record Unconfirmed (s t : Session) : Type 0 where
  pub corrections : t.corrections ≡ s.corrections
  pub pending : t.pending ≡ s.pending

module _ (w : World) (id actor : String) (s : Session) where
  confirm-missing :
      pending_of id s ≡ none → confirm_pending_correction w id actor s ≡ (err key_error, s)
  unfolding confirm_pending_correction
  confirm-missing p =
      ap
        (λ (o : Option PendingCorrection).
          (or_raise key_error o >>= λ q.
          (raise_if (not (q.state == "pending")) pending_correction_already_resolved
            >> (gets (claimant_of q.extraction_id) >>= confirm_by w q actor)))
            s)
        p

  module _ (p : PendingCorrection) (found : pending_of id s ≡ some p) where
    known : Result Correction × Session
    known =
        (raise_if (not (p.state == "pending")) pending_correction_already_resolved
            >> (gets (claimant_of p.extraction_id) >>= confirm_by w p actor))
          s

    confirm-found : confirm_pending_correction w id actor s ≡ known
    unfolding confirm_pending_correction known
    confirm-found =
        ap
          (λ (o : Option PendingCorrection).
            (or_raise key_error o >>= λ q.
            (raise_if (not (q.state == "pending")) pending_correction_already_resolved
              >> (gets (claimant_of q.extraction_id) >>= confirm_by w q actor)))
              s)
          found

    confirm-resolved :
        (p.state == "pending") ≡ false
        → confirm_pending_correction w id actor s ≡ (err pending_correction_already_resolved, s)
    unfolding known
    confirm-resolved h = confirm-found ∙ rw h refl

    confirm-rejected :
        (p.state == "pending") ≡ true
        → same_actor actor p (claimant_of p.extraction_id s) ≡ true
        → confirm_pending_correction w id actor s ≡ reject w p actor s
    unfolding known confirm_by
    confirm-rejected h a = confirm-found ∙ rw (h, a) refl

    confirm-confirmed :
        (p.state == "pending") ≡ true
        → same_actor actor p (claimant_of p.extraction_id s) ≡ false
        → confirm_pending_correction w id actor s ≡ confirm w p actor s
    unfolding known confirm_by
    confirm-confirmed h a = confirm-found ∙ rw (h, a) refl

    -- The held correction after it was confirmed.
    resolved_now : PendingCorrection
    resolved_now = resolve actor (w.clock (s.log.ticks + 1)) (w.uuid4 s.log.ticks) p

    resolved-found :
        find
          (λ (q : PendingCorrection). q.id == id)
          (map
            (λ q.
              if q.id == p.id
              then resolve actor (w.clock (s.log.ticks + 1)) (w.uuid4 s.log.ticks) q
              else q)
            s.pending)
        ≡ some resolved_now
    unfolding resolved_now resolve
    resolved-found =
        row-update (λ (q : PendingCorrection). q.id)
          (resolve actor (w.clock (s.log.ticks + 1)) (w.uuid4 s.log.ticks)) (λ q. refl) id p
          s.pending found

    confirm-Confirmed :
        (p.state == "pending") ≡ true
        → same_actor actor p (claimant_of p.extraction_id s) ≡ false
        → (c : Correction) × (t : Session) × (confirm_pending_correction w id actor s ≡ (ok c, t))
          × Confirmed id actor s t c
    unfolding confirm same_actor resolve resolved_now confirmed_correction audit_append
    confirm-Confirmed h a = (
      _,
      _,
      confirm-confirmed h a,
      record {
        held = p;
        found = found;
        waits = (eq_iff p.state "pending").0 h;
        not_maker = λ e. ground (arith, (eq_iff actor p.first_actor).1 e);
        not_claimant = λ e.
            ground (arith, (same_text_iff (some actor) (claimant_of p.extraction_id s)).1 (sym e));
        text = refl;
        actor_of = refl;
        corrections = refl;
        now = resolved_now;
        kept = resolved-found;
        state = refl;
        result = refl;
      },
    )

    rejected-Unconfirmed :
        same_actor actor p (claimant_of p.extraction_id s) ≡ true
        → (t : Session) × (reject w p actor s ≡ (err same_actor_cannot_confirm, t))
          × Unconfirmed s t
    unfolding reject audit_append
    rejected-Unconfirmed h = (_, refl, record { corrections = refl; pending = refl })

abbrev Refused : Session → Result Correction × Session → Type 0
Refused s r = (e : Error) × (t : Session) × (r ≡ (err e, t)) × Unconfirmed s t

abbrev Accepted : String → String → Session → Result Correction × Session → Type 0
Accepted id actor s r =
    (c : Correction) × (t : Session) × (r ≡ (ok c, t)) × Confirmed id actor s t c

-- Confirming succeeds for a second officer, or else leaves the corrections alone.
confirm-cases :
    (w : World) (id actor : String) (s : Session)
    → Accepted id actor s (confirm_pending_correction w id actor s)
      ⊎ Refused s (confirm_pending_correction w id actor s)
confirm-cases w id actor s = elim (Option-cases (pending_of id s)) [
  | inl none_held ↦ inr (
    key_error,
    s,
    confirm-missing w id actor s none_held,
    record { corrections = refl; pending = refl },
  )
  | inr (p, found) ↦ elim (Bool-cases (p.state == "pending")) [
    | inr past ↦ inr (
      pending_correction_already_resolved,
      s,
      confirm-resolved w id actor s p found past,
      record { corrections = refl; pending = refl },
    )
    | inl waits ↦ elim (Bool-cases (same_actor actor p (claimant_of p.extraction_id s))) [
      | inr other ↦ inl (confirm-Confirmed w id actor s p found waits other)
      | inl same ↦
          let (t, r, u) = rejected-Unconfirmed w id actor s p found same in
          inr
            (same_actor_cannot_confirm, t, confirm-rejected w id actor s p found waits same ∙ r, u)
    ]
  ]
]

value_or : Correction → Result Correction → Correction
value_or c (ok d) = d
value_or c (err e) = c

ok-injective :
    (c d : Correction) (s t : Session)
    → ◌≡◌ {A = Result Correction × Session} (ok c, s) (ok d, t)
    → (c ≡ d) × (s ≡ t)
unfolding value_or
ok-injective c d s t h = (
  ap (λ (r : Result Correction × Session). value_or c r.0) h,
  ap (λ (r : Result Correction × Session). r.1) h,
)

ok-err : (c : Correction) (e : Error) → ◌≡◌ {A = Result Correction} (ok c) (err e) → ⊥
ok-err c e h = ground arith

-- If `confirm_pending_correction` returns, the held correction was waiting, the officer is neither the
-- one who made it nor the claimant of the extraction's first task, exactly the returned correction has
-- been added, with the held text and the officer's name, and the held row is confirmed and names it.
pub confirm-distinct :
    (w : World) (id actor : String) (s t : Session) (c : Correction)
    → confirm_pending_correction w id actor s ≡ (ok c, t)
    → Confirmed id actor s t c
confirm-distinct w id actor s t c h = elim (confirm-cases w id actor s) [
  | inl (d, u, r, done) ↦
      let (same, after) = ok-injective d c u t (sym r ∙ h) in
      subst (λ (x : Correction × Session). Confirmed id actor s x.1 x.0)
        (ap₂ (λ (a : Correction) (b : Session). (a, b)) same after) done
  | inr (e, u, r, out) ↦
      elim (ok-err c e (ap (λ (x : Result Correction × Session). x.0) (sym h ∙ r))) [ ]
]

-- If `confirm_pending_correction` raises, no correction and no held correction has changed.
pub confirm-raises :
    (w : World) (id actor : String) (s : Session) (e : Error)
    → (confirm_pending_correction w id actor s).0 ≡ err e
    → Unconfirmed s (confirm_pending_correction w id actor s).1
confirm-raises w id actor s e h = elim (confirm-cases w id actor s) [
  | inl (d, u, r, done) ↦
      elim (ok-err d e (ap (λ (x : Result Correction × Session). x.0) (sym r) ∙ h)) [ ]
  | inr (f, u, r, out) ↦ subst (λ (x : Result Correction × Session). Unconfirmed s x.1) (sym r) out
]

-- Once `confirm_pending_correction` has returned, a later call for the same held correction, by
-- whomever, raises `PendingCorrectionAlreadyResolved` and writes nothing.
pub confirm-once :
    (w : World) (id actor other : String) (s t : Session) (c : Correction)
    → confirm_pending_correction w id actor s ≡ (ok c, t)
    → confirm_pending_correction w id other t ≡ (err pending_correction_already_resolved, t)
confirm-once w id actor other s t c h =
    let done = confirm-distinct w id actor s t c h in
    confirm-resolved w id other t done.now done.kept (rw done.state refl)
