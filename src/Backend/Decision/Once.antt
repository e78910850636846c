-- ===== src/Backend/Decision/Once.antt =====
-- Routing an extraction once and again: what the first time writes, and that nothing follows it.
use land_record_digitalizati.Prelude.{
  ◌+◌, String, ◌≡◌, ◌⊎◌, refl, ap, ◌∙◌, true, ◌||◌, Option, some, List, [], ◌∷◌, ◌++◌, length,
  Bool-cases, Option-cases, inl, inr, ◌==◌, or_empty,
}
use land_record_digitalizati.Audit.World.{World}
use land_record_digitalizati.Backend.Entities.{Extraction, DecisionRecord}
use land_record_digitalizati.Backend.Session.{Session, Result, ok, err}
use land_record_digitalizati.Backend.Policy.{is_valid_outcome}
use land_record_digitalizati.Backend.Decision.{
  Routed, RouteResult, decide, conclude, route, route_first, extraction_of, decisions_of,
  new_decision,
}
use land_record_digitalizati.Backend.Decision.Effects.{
  Writes, Returned, one_if, decide-Writes, conclude-decision,
}
use land_record_digitalizati.Backend.Decision.Replay.{
  route-found, route-missing, route_known-invalid, route_known-first, route_known-decided,
  route_known-several, route_decided-ReadsOnly,
}

-- The extraction that a first routing finds: a valid outcome and no decision so far.
pub record Undecided (id : String) (s : Session) (x : Extraction) : Type 0 where
  pub found : extraction_of id s ≡ some x
  pub valid : is_valid_outcome x.routing_outcome ≡ true
  pub fresh : decisions_of x.id s ≡ []

-- The session after a first decision.
pub record Decided (x : Extraction) (env : Option String) (s t : Session) : Type 0 where
  pub row : DecisionRecord
  pub decisions : t.decisions ≡ s.decisions ++ row ∷ []
  pub of_extraction : row.extraction_id ≡ x.id
  pub of_outcome : row.outcome ≡ or_empty x.routing_outcome
  pub of_envelope : row.envelope_id ≡ env
  pub extractions : t.extractions ≡ s.extractions
  pub tasks :
      length t.review_tasks
      ≡ length s.review_tasks
        + one_if
            (or_empty x.routing_outcome == "review" || or_empty x.routing_outcome == "audit_sample")
  pub samples :
      length t.audit_samples
      ≡ length s.audit_samples + one_if (or_empty x.routing_outcome == "audit_sample")
  pub conflicts :
      length t.conflicts ≡ length s.conflicts + one_if (or_empty x.routing_outcome == "conflict")

module _ (w : World) (x : Extraction) (c env : Option String) (s : Session) where
  abbrev Outcome : Result RouteResult × Session → Type 0
  Outcome r = (res : RouteResult) × (t : Session) × (r ≡ (ok res, t)) × Decided x env s t

  concluded :
      (r : Result Routed × Session)
      → Returned (Writes (or_empty x.routing_outcome) s) r
      → Outcome (elim r.0 [
        | ok a ↦ conclude w x (or_empty x.routing_outcome) env a r.1
        | err e ↦ (err e, r.1)
      ])
  unfolding new_decision
  concluded (err e, u) h = elim h [ ]
  concluded (ok a, u) h =
      let (l, p) = conclude-decision w x (or_empty x.routing_outcome) env a u in
      (
        _,
        _,
        p,
        record {
          row = new_decision w x (or_empty x.routing_outcome) env u.log.ticks;
          decisions =
              ap (λ ds. ds ++ new_decision w x (or_empty x.routing_outcome) env u.log.ticks ∷ [])
                h.decisions;
          of_extraction = refl;
          of_outcome = refl;
          of_envelope = refl;
          extractions = h.extractions;
          tasks = h.tasks;
          samples = h.samples;
          conflicts = h.conflicts;
        },
      )

  route_first-decides : Outcome (route_first w x (or_empty x.routing_outcome) c env s)
  unfolding route_first
  route_first-decides =
      concluded (decide w x (or_empty x.routing_outcome) c s)
        (decide-Writes w x (or_empty x.routing_outcome) c s)

  -- When the extraction is found, its outcome is one of the five and no decision names it, `route`
  -- returns; it adds one decision record, which names the extraction, its outcome and the envelope,
  -- leaves the extractions alone, and adds one review task for a review or an audit sample, one audit
  -- sample for an audit sample, one conflict for a conflict, and no such row for another outcome.
  pub route-decides : (id : String) → Undecided id s x → Outcome (route w id c env s)
  route-decides id u =
      let (r, t, p, d) = route_first-decides in
      (
        r,
        t,
        route-found w c env s id x u.found ∙ route_known-first w c env s x u.valid u.fresh ∙ p,
        d,
      )

-- Nothing is written, whatever cluster and envelope the caller passes.
abbrev pub Settled : World → String → Session → Type 0
Settled w id s = (c env : Option String) → (route w id c env s).1 ≡ s

pub known-Settled :
    (w : World) (id : String) (s : Session) (x : Extraction) (d : DecisionRecord)
    → extraction_of id s ≡ some x
    → is_valid_outcome x.routing_outcome ≡ true
    → decisions_of x.id s ≡ d ∷ []
    → Settled w id s
known-Settled w id s x d p v q c env =
    ap (λ (r : Result RouteResult × Session). r.1)
      (route-found w c env s id x p ∙ route_known-decided w c env s x d v q)
    ∙ (route_decided-ReadsOnly x (or_empty x.routing_outcome) d).same s

known-cases :
    (w : World) (id : String) (s : Session) (x : Extraction)
    → extraction_of id s ≡ some x
    → is_valid_outcome x.routing_outcome ≡ true
    → (ds : List DecisionRecord) → decisions_of x.id s ≡ ds
    → Undecided id s x ⊎ Settled w id s
known-cases w id s x p v [] q = inl (record { found = p; valid = v; fresh = q })
known-cases w id s x p v (d ∷ []) q = inr (known-Settled w id s x d p v q)
known-cases w id s x p v (d ∷ e ∷ rest) q = inr (λ c env.
    ap (λ (r : Result RouteResult × Session). r.1)
      (route-found w c env s id x p ∙ route_known-several w c env s x d e rest v q))

-- Either this is the first routing, or routing writes nothing.
pub route-cases :
    (w : World) (id : String) (s : Session) → ((x : Extraction) × Undecided id s x) ⊎ Settled w id s
route-cases w id s = elim (Option-cases (extraction_of id s)) [
  | inl p ↦
      inr (λ c env. ap (λ (r : Result RouteResult × Session). r.1) (route-missing w c env s id p))
  | inr (x, p) ↦ elim (Bool-cases (is_valid_outcome x.routing_outcome)) [
    | inr v ↦ inr (λ c env.
        ap (λ (r : Result RouteResult × Session). r.1)
          (route-found w c env s id x p ∙ route_known-invalid w c env s x v))
    | inl v ↦ elim (known-cases w id s x p v (decisions_of x.id s) refl) [
      | inl u ↦ inl (x, u)
      | inr h ↦ inr h
    ]
  ]
]
