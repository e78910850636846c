-- ===== src/Backend/Completeness/Acknowledging.antt =====
-- What a rebuild and an acknowledgement leave for the alert of a batch.
use land_record_digitalizati.Prelude.{
  ℕ, String, ◌≡◌, ◌≢◌, [], ◌∷◌, find, sym, subst, ◌⊎◌, refl, ap, ◌∙◌, Bool, true, false, not, ◌&&◌,
  Option, none, some, List, Bool-cases, Option-cases, inl, inr, ◌==◌, eq_iff, eq_refl,
  if◌then◌else◌,
}
use land_record_digitalizati.Audit.World.{World}
use land_record_digitalizati.Audit.Chain.{Log, append}
use land_record_digitalizati.Backend.Entities.{VolumeIndex}
use land_record_digitalizati.Backend.Session.{
  Session, Error, Result, ok, err, key_error, value_error, ◌>>=◌, ◌>>◌, pure, or_raise, raise_if,
  modify, with_log, entry, audit_append,
}
use land_record_digitalizati.Backend.Rows.{find-update}
use land_record_digitalizati.Backend.Completeness.{
  observed_in, volume_of, get_or_create, rebuilt, save_volume, note_gap, rebuild, acknowledged,
  acknowledge_gap, alert_of, current_alert, expected_of, gaps_of, is_empty, CompletenessAlert,
}

note_gap-log :
    (w : World) (batch : String) (observed : List ℕ) (state : String) (s : Session)
    → (l : Log) × (note_gap w batch observed state s ≡ (ok tt, with_log l s))
unfolding note_gap audit_append
note_gap-log w batch observed state s =
    elim (Bool-cases (not (is_empty (gaps_of observed)) && not (state == "acknowledged"))) [
      | inl noted ↦ (
        (append w
            (entry "system:completeness" "volume_index.gap_detected" (some batch)
              (some "FR-ING-08"))
            s.log).1,
        rw noted refl,
      )
      | inr quiet ↦ (s.log, rw quiet refl)
    ]

-- The volume of a batch after an update of its row.
volume_of-save :
    (batch : String) (v : VolumeIndex) (s : Session) (f : VolumeIndex → VolumeIndex)
    → ((u : VolumeIndex) → (f u).batch_id ≡ u.batch_id)
    → volume_of batch s ≡ some v
    → volume_of batch (save_volume v.id f s) ≡ some (f v)
volume_of-save batch v s f keeps p =
    find-update (λ (u : VolumeIndex). u.id) (λ (u : VolumeIndex). u.batch_id == batch) f v.id
      (λ u. ap (λ (b : String). b == batch) (keeps u)) v s.volume_indexes p
    ∙ ap (λ (b : Bool). some (if b then f v else v)) (eq_refl v.id)

filled : (is : List ℕ) → is ≢ [] → is_empty is ≡ false
filled [] h = absurd (h refl)
filled (i ∷ is) h = refl

-- An index without gaps, and no alert of its batch.
abbrev pub Closed : String → VolumeIndex → Session → Type 0
Closed batch r t = ((r.state ≡ "pending") ⊎ (r.state ≡ "complete")) × (current_alert t batch ≡ none)

alert-found :
    (batch : String) (r : VolumeIndex) (t : Session)
    → volume_of batch t ≡ some r
    → current_alert t batch ≡ alert_of batch r
unfolding current_alert
alert-found batch r t found =
    ap (λ (o : Option VolumeIndex). elim o [ none ↦ none | some u ↦ alert_of batch u ]) found

module _ (batch : String) (observed : List ℕ) (v : VolumeIndex) (t : Session) where
  closed :
      is_empty (gaps_of observed) ≡ true
      → volume_of batch t ≡ some (rebuilt observed v)
      → Closed batch (rebuilt observed v) t
  unfolding rebuilt
  closed full found = (
    elim (Bool-cases (is_empty (expected_of observed))) [
      | inl nothing ↦ inl (rw (full, nothing) refl)
      | inr some_page ↦ inr (rw (full, some_page) refl)
    ],
    alert-found batch _ t found ∙ rw full refl,
  )

  kept :
      is_empty (gaps_of observed) ≡ false
      → v.state ≡ "acknowledged"
      → volume_of batch t ≡ some (rebuilt observed v)
      → ((rebuilt observed v).state ≡ "acknowledged") × (current_alert t batch ≡ none)
  unfolding rebuilt
  kept missing seen found =
      (rw (missing, seen) refl, alert-found batch _ t found ∙ rw (missing, seen) refl)

  noted :
      is_empty (gaps_of observed) ≡ false
      → v.state ≢ "acknowledged"
      → volume_of batch t ≡ some (rebuilt observed v)
      → ((rebuilt observed v).state ≡ "gap_detected")
        × (current_alert t batch
            ≡ some (record { batch_id = batch; missing_index_positions = gaps_of observed }))
  unfolding rebuilt
  noted missing unseen found = elim (Bool-cases (v.state == "acknowledged")) [
    | inl seen ↦ absurd (unseen ((eq_iff v.state "acknowledged").0 seen))
    | inr other ↦ (rw (missing, other) refl, alert-found batch _ t found ∙ rw (missing, other) refl)
  ]

module _ (w : World) (batch : String) (s : Session) (v : VolumeIndex)
    (found : volume_of batch s ≡ some v) where
  rebuild-found :
      (l : Log) × (rebuild w batch s ≡ (
        ok (rebuilt (observed_in s batch) v),
        with_log l (save_volume v.id (rebuilt (observed_in s batch)) s),
      ))
  unfolding rebuild get_or_create
  rebuild-found =
      let observed = observed_in s batch in
      let (l, p) = note_gap-log w batch observed v.state (save_volume v.id (rebuilt observed) s) in
      (
        l,
        ap
              (λ (o : Option VolumeIndex).
                (get_or_create w batch o >>= λ u.
                modify (save_volume u.id (rebuilt observed))
                >> (note_gap w batch observed u.state >> pure (rebuilt observed u)))
                  s)
              found
            ∙ ap
                (λ (r : Result (Unit {0}) × Session). elim r.0 [
                  | ok a ↦ (ok (rebuilt observed v), r.1)
                  | err e ↦ (err e, r.1)
                ])
                p,
      )

  -- When the batch has a volume index, `rebuild` returns it with the positions that are observed now
  -- and their gaps, and it is the batch's index then. Without gaps its state is pending or complete and
  -- the batch has no alert. With gaps, an index that was acknowledged stays so and there is no alert;
  -- any other is in the state gap_detected, and the alert names the gaps.
  pub rebuild-current_alert :
      (r : VolumeIndex) × (t : Session) × (rebuild w batch s ≡ (ok r, t))
      × (volume_of batch t ≡ some r)
      × (r.observed_sequence ≡ observed_in s batch)
      × (r.gaps ≡ gaps_of (observed_in s batch))
      × (gaps_of (observed_in s batch) ≡ [] → Closed batch r t)
      × (gaps_of (observed_in s batch) ≢ []
          → v.state ≡ "acknowledged"
          → (r.state ≡ "acknowledged") × (current_alert t batch ≡ none))
      × (gaps_of (observed_in s batch) ≢ []
          → v.state ≢ "acknowledged"
          → (r.state ≡ "gap_detected")
            × (current_alert t batch
                ≡ some (record {
                  batch_id = batch;
                  missing_index_positions = gaps_of (observed_in s batch);
                })))
  unfolding rebuilt
  rebuild-current_alert =
      let observed = observed_in s batch in
      let (l, p) = rebuild-found in
      let t = with_log l (save_volume v.id (rebuilt observed) s) in
      let saved = volume_of-save batch v s (rebuilt observed) (λ u. refl) found in
      (
        rebuilt observed v,
        t,
        p,
        saved,
        refl,
        refl,
        λ full. closed batch observed v t (rw full refl) saved,
        λ open_gap seen. kept batch observed v t (filled (gaps_of observed) open_gap) seen saved,
        λ open_gap unseen.
            noted batch observed v t (filled (gaps_of observed) open_gap) unseen saved,
      )

module _ (w : World) (batch actor : String) (reason_code : Option String) (s : Session) where
  checked : Option VolumeIndex → Result VolumeIndex × Session
  checked o =
      (or_raise key_error o >>= λ v.
      raise_if (not (v.state == "gap_detected")) value_error
      >> (modify (save_volume v.id acknowledged)
          >> (audit_append w (entry actor "volume_index.gap_acknowledged" (some batch) reason_code)
              >> pure (acknowledged v))))
        s

  acknowledge_gap-checked :
      (o : Option VolumeIndex)
      → volume_of batch s ≡ o
      → acknowledge_gap w batch actor reason_code s ≡ checked o
  unfolding acknowledge_gap checked
  acknowledge_gap-checked o p = ap checked p

  quiet_now :
      (o : Option VolumeIndex) (v : VolumeIndex)
      → o ≡ some (acknowledged v)
      → elim o as (λ _. Option CompletenessAlert) [ none ↦ none | some u ↦ alert_of batch u ] ≡ none
  quiet_now o v p =
      ap (λ (q : Option VolumeIndex). elim q [ none ↦ none | some u ↦ alert_of batch u ]) p
      ∙ still (is_empty v.gaps)
    where
      still :
          (b : Bool)
          → ◌≡◌ {A = Option CompletenessAlert}
              (if b
                then none
                else (if true
                    then none
                    else some (record { batch_id = batch; missing_index_positions = v.gaps })))
              none
      still true = refl
      still false = refl

  -- `acknowledge_gap` acknowledges the index of a batch in the state `gap_detected`, and the batch has
  -- no alert then; in another state, or without an index, it raises and writes nothing.
  acknowledge_gap-cases :
      ((v : VolumeIndex) × (t : Session) × (volume_of batch s ≡ some v)
        × (v.state ≡ "gap_detected")
        × (acknowledge_gap w batch actor reason_code s ≡ (ok (acknowledged v), t))
        × (current_alert t batch ≡ none))
      ⊎ ((e : Error) × (acknowledge_gap w batch actor reason_code s ≡ (err e, s)))
  unfolding checked audit_append current_alert
  acknowledge_gap-cases = elim (Option-cases (volume_of batch s)) [
    | inl p ↦ inr (key_error, acknowledge_gap-checked none p)
    | inr (v, p) ↦ elim (Bool-cases (v.state == "gap_detected")) [
      | inr other ↦ inr (value_error, acknowledge_gap-checked (some v) p ∙ rw other refl)
      | inl open_gap ↦ inl (
        v,
        with_log
            (append w (entry actor "volume_index.gap_acknowledged" (some batch) reason_code)
              s.log).1
            (save_volume v.id acknowledged s),
        p,
        (eq_iff v.state "gap_detected").0 open_gap,
        acknowledge_gap-checked (some v) p ∙ rw open_gap refl,
        quiet_now _ v (volume_of-save batch v s acknowledged (λ u. refl) p),
      )
    ]
  ]

-- Rebuilds of a batch, one after the other: before each of them anything but the volume indexes may
-- have changed, and some position is missing.
pub data Rebuilds (w : World) (batch : String) (s : Session) : Session → Type 0 where
  no_rebuild : Rebuilds w batch s s
  rebuild_next :
      {t : Session}
      → Rebuilds w batch s t
      → (u : Session) → u.volume_indexes ≡ t.volume_indexes
      → gaps_of (observed_in u batch) ≢ []
      → Rebuilds w batch s (rebuild w batch u).1

abbrev IsAcknowledged : String → Session → Type 0
IsAcknowledged batch t =
    (v : VolumeIndex) × (volume_of batch t ≡ some v) × (v.state ≡ "acknowledged")

Rebuilds-IsAcknowledged :
    (w : World) (batch : String) (s t : Session)
    → IsAcknowledged batch s
    → Rebuilds w batch s t
    → IsAcknowledged batch t
Rebuilds-IsAcknowledged w batch s t h no_rebuild = h
Rebuilds-IsAcknowledged w batch s t h (rebuild_next {t = t'} before u same missing) =
    let (v, found, seen) = Rebuilds-IsAcknowledged w batch s t' h before in
    let here = ap (find (λ (x : VolumeIndex). x.batch_id == batch)) same ∙ found in
    let (r, t2, ran, saved, _, _, _, kept_on, _) = rebuild-current_alert w batch u v here in
    subst (IsAcknowledged batch) (sym (ap (λ (m : Result VolumeIndex × Session). m.1) ran))
      (r, saved, (kept_on missing seen).0)

-- Once the gaps of a batch are acknowledged, no sequence of rebuilds raises the alert again, whatever
-- pages come and go between them, as long as some position is missing at each rebuild.
pub rebuild-acknowledged :
    (w : World) (batch : String) (s t : Session) (v : VolumeIndex)
    → volume_of batch s ≡ some v
    → v.state ≡ "acknowledged"
    → Rebuilds w batch s t
    → current_alert t batch ≡ none
rebuild-acknowledged w batch s t v found seen steps =
    let (r, there, still) = Rebuilds-IsAcknowledged w batch s t (v, found, seen) steps in
    alert-found batch r t there ∙ elim (Bool-cases (is_empty r.gaps)) [
      | inl none_left ↦ rw none_left refl
      | inr some_left ↦ rw (some_left, still) refl
    ]
