-- ===== src/Backend/Decision/Effects.antt =====
-- What a first decision writes: the rows of its outcome, one decision record, and the log.
use land_record_digitalizati.Prelude.{
  ℕ, ◌+◌, String, ◌<>◌, ◌≡◌, refl, ap, Bool, true, false, ◌||◌, Option, none, some, arith, length,
  length-snoc, Bool-cases, inl, inr, ◌==◌, eq_iff, if◌then◌else◌,
}
use land_record_digitalizati.Audit.World.{World}
use land_record_digitalizati.Audit.Chain.{Log, append}
use land_record_digitalizati.Backend.Entities.{Extraction, OperationalAlert}
use land_record_digitalizati.Backend.Session.{
  Session, Result, ok, err, with_log, audit_append, entry,
}
use land_record_digitalizati.Backend.PageLifecycle.{
  mark_processed_if_terminal, already_processed, all_terminal, page_outcomes, district_for_page,
  page_processed,
}
use land_record_digitalizati.Backend.Decision.{
  Routed, decide, audit_sample, targeted_review, open_conflict_placeholder,
  outside_calibrated_regime, raise_alert, new_decision, add_decision, conclude, cluster_or,
  new_task, new_sample, new_conflict,
}

abbrev pub one_if : Bool → ℕ
one_if b = if b then 1 else 0

-- The tables that a decision leaves alone, and the number of rows that it adds to the others.
pub record Writes (outcome : String) (s t : Session) : Type 0 where
  pub entries : t.log.entries ≡ s.log.entries
  pub batches : t.batches ≡ s.batches
  pub documents : t.documents ≡ s.documents
  pub pages : t.pages ≡ s.pages
  pub extractions : t.extractions ≡ s.extractions
  pub decisions : t.decisions ≡ s.decisions
  pub corrections : t.corrections ≡ s.corrections
  pub tasks :
      length t.review_tasks
      ≡ length s.review_tasks + one_if (outcome == "review" || outcome == "audit_sample")
  pub samples : length t.audit_samples ≡ length s.audit_samples + one_if (outcome == "audit_sample")
  pub conflicts : length t.conflicts ≡ length s.conflicts + one_if (outcome == "conflict")

-- The action returned, and its session stands in a relation to the one before.
abbrev pub Returned : {A : Type 0} → (Session → Type 0) → Result A × Session → Type 0
Returned P (ok _, t) = P t
Returned P (err _, t) = ⊥

raise_alert-Writes :
    (w : World) (x : Extraction) (outcome key : String) (o : Option OperationalAlert) (s : Session)
    → (outcome == "review") ≡ false
    → (outcome == "audit_sample") ≡ false
    → (outcome == "conflict") ≡ false
    → Returned (Writes outcome s) (raise_alert w x key o s)
unfolding raise_alert
raise_alert-Writes w x outcome key none s a b c = ground arith
raise_alert-Writes w x outcome key (some e) s a b c = ground arith

Writes-tick :
    (outcome : String) (s t : Session) (n : ℕ)
    → Writes outcome (with_log (record s.log { ticks = n }) s) t
    → Writes outcome s t
Writes-tick outcome s t n h = record {
  entries = h.entries;
  batches = h.batches;
  documents = h.documents;
  pages = h.pages;
  extractions = h.extractions;
  decisions = h.decisions;
  corrections = h.corrections;
  tasks = h.tasks;
  samples = h.samples;
  conflicts = h.conflicts;
}

Returned-tick :
    (outcome : String) (s : Session) (n : ℕ) (r : Result Routed × Session)
    → Returned (Writes outcome (with_log (record s.log { ticks = n }) s)) r
    → Returned (Writes outcome s) r
Returned-tick outcome s n (ok a, t) h = Writes-tick outcome s t n h
Returned-tick outcome s n (err e, t) h = elim h [ ]

outside-Writes :
    (w : World) (x : Extraction) (outcome key : String) (s : Session)
    → (outcome == "review") ≡ false
    → (outcome == "audit_sample") ≡ false
    → (outcome == "conflict") ≡ false
    → Returned (Writes outcome s) (outside_calibrated_regime w x key s)
unfolding outside_calibrated_regime
outside-Writes w x outcome key s a b c =
    Returned-tick outcome s (s.log.ticks + 1) _ (raise_alert-Writes w x outcome key _ _ a b c)

-- A text that equals one outcome equals no other.
apart : (o a b : String) → (o == a) ≡ true → (a == b) ≡ false → (o == b) ≡ false
apart o a b p q = rw ((eq_iff o a).0 p) q

pub decide-Writes :
    (w : World) (x : Extraction) (o : String) (c : Option String) (s : Session)
    → Returned (Writes o s) (decide w x o c s)
unfolding decide
decide-Writes w x o c s = elim (Bool-cases (o == "auto_accept")) [
  | inl e ↦ rw e (
      ground (
        arith,
        apart o "auto_accept" "review" e refl,
        apart o "auto_accept" "audit_sample" e refl,
        apart o "auto_accept" "conflict" e refl,
      ))
  | inr n0 ↦ elim (Bool-cases (o == "audit_sample")) [
    | inl e ↦
        rw (n0, e)
          (unfold audit_sample in
            ground (
              arith,
              length-snoc s.review_tasks (new_task w x "audit" s.log.ticks),
              length-snoc s.audit_samples (new_sample w x (w.uuid4 s.log.ticks) (s.log.ticks + 1)),
              apart o "audit_sample" "review" e refl,
              apart o "audit_sample" "conflict" e refl,
            ))
    | inr n1 ↦ elim (Bool-cases (o == "review")) [
      | inl e ↦
          rw (n0, n1, e)
            (unfold targeted_review in
              ground (
                arith,
                length-snoc s.review_tasks (new_task w x "routed" s.log.ticks),
                apart o "review" "conflict" e refl,
              ))
      | inr n2 ↦ elim (Bool-cases (o == "conflict")) [
        | inl e ↦
            rw (n0, n1, n2, e)
              (unfold open_conflict_placeholder in
                ground (arith, length-snoc s.conflicts (new_conflict w x s.log.ticks)))
        | inr n3 ↦ rw (n0, n1, n2, n3) (outside-Writes w x o (cluster_or c x.id) s n2 n1 n3)
      ]
    ]
  ]
]

-- Marking the page writes to the log alone.
mark_processed-log :
    (w : World) (page : String) (s : Session)
    → (b : Bool) × (l : Log) × (mark_processed_if_terminal w page s ≡ (ok b, with_log l s))
unfolding mark_processed_if_terminal audit_append
mark_processed-log w page s =
    elim (Bool-cases (already_processed w s page (district_for_page s page))) [
      | inl done ↦ (false, s.log, rw done)
      | inr new ↦ elim (Bool-cases (all_terminal (page_outcomes s page))) [
        | inl all_done ↦ (
          true,
          (append w (page_processed page (district_for_page s page)) s.log).1,
          rw (new, all_done),
        )
        | inr waiting ↦ (false, s.log, rw (new, waiting))
      ]
    ]

pub conclude-decision :
    (w : World) (x : Extraction) (o : String) (env : Option String) (r : Routed) (s : Session)
    → (l : Log) × (conclude w x o env r s ≡ (
      ok (record { routed = r; replayed = false }),
      with_log l (add_decision (new_decision w x o env s.log.ticks) s),
    ))
unfolding conclude audit_append
conclude-decision w x o env r s =
    let d = new_decision w x o env s.log.ticks in
    let ticked = with_log (record s.log { ticks = s.log.ticks + 1 }) (add_decision d s) in
    let logged =
      with_log
        (append w (entry "system:decision-engine" ("decision.route." <> o) (some x.id) none)
          ticked.log).1
        ticked in
    let (b, l, p) = mark_processed-log w x.page_id logged in
    (
      l,
      ap
          (λ (m : Result Bool × Session). elim m.0 [
            | ok b ↦ (ok (record { routed = r; replayed = false }), m.1)
            | err e ↦ (err e, m.1)
          ])
          p,
    )
