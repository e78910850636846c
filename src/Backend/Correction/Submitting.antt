-- ===== src/Backend/Correction/Submitting.antt =====
-- Submitting a correction: it is stored, or held for a second officer, and never both.
use land_record_digitalizati.Prelude.{
  ◌<◌, ◌≤◌, ltb, String, ◌≡◌, refl, sym, ap, ◌∙◌, true, false, Option, none, some, [], ◌∷◌, ◌++◌,
  Bool-cases, Option-cases, inl, inr, or_empty, arith, &&-eq-true, ltb_iff,
}
use land_record_digitalizati.Audit.World.{World}
use land_record_digitalizati.Audit.Chain.{truthy}
use land_record_digitalizati.Backend.Entities.{Page, Extraction}
use land_record_digitalizati.Backend.Session.{
  Session, Error, Result, ok, err, attribute_error, value_error, ◌>>=◌, or_raise, audit_append,
  contains,
}
use land_record_digitalizati.Backend.Policy.{
  maker_checker_field_classes, maker_checker_edit_distance_threshold,
}
use land_record_digitalizati.Backend.EditDistance.{edit_distance}
use land_record_digitalizati.Backend.Correction.{
  Submitted, submitted, held, page_of, predicted_of, after_slash, source_page_digest_for,
  needs_maker_checker, store_correction, hold_correction, write_correction, submit_correction,
  new_correction, new_pending,
}

-- A held correction: a field of a checked class, and an edit longer than the threshold. A stored one:
-- another class, or an edit up to the threshold. Either carries the text, the officer and the digest of the page.
abbrev pub Stored : Extraction → String → String → String → Session → Session → Submitted → Type 0
Stored x text actor digest s t (submitted c) =
    (contains x.field_name maker_checker_field_classes ≡ true
      → edit_distance (predicted_of x) text ≤ maker_checker_edit_distance_threshold)
    × (t.corrections ≡ s.corrections ++ c ∷ [])
    × (t.pending ≡ s.pending)
    × (c.corrected ≡ text)
    × (c.actor ≡ actor)
    × (c.edit_distance ≡ edit_distance (predicted_of x) text)
    × (c.source_page_digest ≡ digest)
Stored x text actor digest s t (held p) =
    (contains x.field_name maker_checker_field_classes ≡ true)
    × (maker_checker_edit_distance_threshold < edit_distance (predicted_of x) text)
    × (p.edit_distance ≡ edit_distance (predicted_of x) text)
    × (t.pending ≡ s.pending ++ p ∷ [])
    × (t.corrections ≡ s.corrections)
    × (p.state ≡ "pending")
    × (p.corrected ≡ text)
    × (p.first_actor ≡ actor)
    × (p.source_page_digest ≡ digest)

ok-err : (r : Submitted) (e : Error) → ◌≡◌ {A = Result Submitted} (ok r) (err e) → ⊥
ok-err r e h = ground arith

module _ (w : World) (x : Extraction) (text actor stream : String) (s : Session) where
  store-held :
      (digest : String)
      → needs_maker_checker x text ≡ true
      → store_correction w x text actor stream digest s
        ≡ hold_correction w x text actor stream digest s
  unfolding store_correction
  store-held digest h = rw h refl

  store-written :
      (digest : String)
      → needs_maker_checker x text ≡ false
      → store_correction w x text actor stream digest s
        ≡ write_correction w x text actor stream digest s
  unfolding store_correction
  store-written digest h = rw h refl

  short :
      ltb maker_checker_edit_distance_threshold (edit_distance (predicted_of x) text) ≡ false
      → edit_distance (predicted_of x) text ≤ maker_checker_edit_distance_threshold
  short h = ground arith

  store-Stored :
      (digest : String)
      → (r : Submitted) × (t : Session) × (store_correction w x text actor stream digest s
          ≡ (ok r, t))
        × Stored x text actor digest s t r
  unfolding hold_correction write_correction new_pending new_correction audit_append
      needs_maker_checker
  store-Stored digest = elim (Bool-cases (needs_maker_checker x text)) [
    | inl checked ↦
        let (class, long) = &&-eq-true _ _ checked in
        (
          _,
          _,
          store-held digest checked,
          (class, (ltb_iff _ _).0 long, refl, refl, refl, refl, refl, refl, refl),
        )
    | inr plain ↦ (
      _,
      _,
      store-written digest plain,
      (λ class. short (rw class at plain), refl, refl, refl, refl, refl, refl),
    )
  ]

  submit-found :
      (page : Page)
      → page_of x.page_id s ≡ some page
      → submit_correction w x text actor stream s
        ≡ (source_page_digest_for page >>= store_correction w x text actor stream) s
  unfolding submit_correction
  submit-found page found =
      ap
        (λ (o : Option Page).
          (or_raise attribute_error o >>= λ p.
          source_page_digest_for p >>= store_correction w x text actor stream)
            s)
        found

  submit-missing :
      page_of x.page_id s ≡ none
      → submit_correction w x text actor stream s ≡ (err attribute_error, s)
  unfolding submit_correction
  submit-missing missing =
      ap
        (λ (o : Option Page).
          (or_raise attribute_error o >>= λ p.
          source_page_digest_for p >>= store_correction w x text actor stream)
            s)
        missing

  digest-stored :
      (page : Page)
      → truthy page.storage_uri ≡ true
      → (source_page_digest_for page >>= store_correction w x text actor stream) s
        ≡ store_correction w x text actor stream
            (after_slash (or_empty page.storage_uri) (or_empty page.storage_uri))
            s
  unfolding source_page_digest_for
  digest-stored page h = rw h refl

  digest-missing :
      (page : Page)
      → truthy page.storage_uri ≡ false
      → (source_page_digest_for page >>= store_correction w x text actor stream) s
        ≡ (err value_error, s)
  unfolding source_page_digest_for
  digest-missing page h = rw h refl

  -- If the extraction's page is there and has an image, `submit_correction` returns, and adds either
  -- one correction or one held correction, with the digest that ends the key of the page's image: a
  -- held one only if the field is of a checked class and the edit distance exceeds the threshold, a
  -- stored one only if a field of a checked class has an edit distance of at most the threshold.
  pub submit-Stored :
      (page : Page)
      → page_of x.page_id s ≡ some page
      → truthy page.storage_uri ≡ true
      → (r : Submitted) × (t : Session) × (submit_correction w x text actor stream s ≡ (ok r, t))
        × Stored x text actor
            (after_slash (or_empty page.storage_uri) (or_empty page.storage_uri))
            s
            t
            r
  submit-Stored page found image =
      let (r, t, p, done) =
        store-Stored (after_slash (or_empty page.storage_uri) (or_empty page.storage_uri)) in
      (r, t, submit-found page found ∙ digest-stored page image ∙ p, done)

  -- If `submit_correction` raises, it has written nothing.
  pub submit-raises :
      (e : Error)
      → (submit_correction w x text actor stream s).0 ≡ err e
      → (submit_correction w x text actor stream s).1 ≡ s
  submit-raises e h = elim (Option-cases (page_of x.page_id s)) [
    | inl missing ↦ ap (λ (m : Result Submitted × Session). m.1) (submit-missing missing)
    | inr (page, found) ↦ elim (Bool-cases (truthy page.storage_uri)) [
      | inr bare ↦
          ap (λ (m : Result Submitted × Session). m.1)
            (submit-found page found ∙ digest-missing page bare)
      | inl image ↦
          let (r, t, p, done) = submit-Stored page found image in
          elim (ok-err r e (sym (ap (λ (m : Result Submitted × Session). m.0) p) ∙ h)) [ ]
    ]
  ]
