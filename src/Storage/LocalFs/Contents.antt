-- ===== src/Storage/LocalFs/Contents.antt =====
-- What was put is read back, under a key that proves it, and nothing that was there changes.
use text.Mathlib.TextLemmas.{nil-append, cons-append}
use land_record_digitalizati.Prelude.{
  String, ◌<>◌, true, false, none, some, ◌≡◌, ◌≢◌, refl, sym, ap, ◌∙◌, subst, ◌⊎◌, arith, inl, inr,
  ◌==◌, eq_iff, eq_refl, Bool-cases,
}
use land_record_digitalizati.Audit.World.{World}
use land_record_digitalizati.Backend.Correction.{after_slash}
use land_record_digitalizati.Storage.LocalFs.{
  ok, Files, PutResult, first_chars, later_chars, key_for, digest_of, written, put_at, put,
  present_at, get, same_digest, verify_fixity,
}

-- No character of the text is a slash.
unfoldable pub NoSlash : String → Type 0
NoSlash String.[] = Unit
NoSlash (String.◌∷◌ c s) = ((String.◌∷◌ c String.[] == "/") ≡ false) × NoSlash s

after_slash-NoSlash : (start s : String) → NoSlash s → after_slash start s ≡ start
unfolding after_slash NoSlash
after_slash-NoSlash start String.[] h = refl
after_slash-NoSlash start (String.◌∷◌ c s) h = rw (h.0) (after_slash-NoSlash start s h.1)

-- What stands behind the last slash does not depend on what stands before.
after_slash-behind :
    (a t d : String)
    → ((start : String) → after_slash start t ≡ d)
    → (start : String) → after_slash start (a <> t) ≡ d
unfolding after_slash
after_slash-behind String.[] t d h start =
    subst (λ (s : String). after_slash start s ≡ d) (sym (nil-append t)) (h start)
after_slash-behind (String.◌∷◌ c a) t d h start =
    let inner = after_slash-behind a t d h in
    subst (λ (s : String). after_slash start s ≡ d) (sym (cons-append c a t))
      (elim (Bool-cases (String.◌∷◌ c String.[] == "/")) [
        | inl slash ↦ rw slash (inner (a <> t))
        | inr other ↦ rw other (inner start)
      ])

after_slash-slash : (d start : String) → NoSlash d → after_slash start ("/" <> d) ≡ d
unfolding after_slash
after_slash-slash d start h =
    let slashed = cons-append "/" "" d ∙ ap (String.◌∷◌ "/") (nil-append d) in
    subst (λ (s : String). after_slash start s ≡ d) (sym slashed) (after_slash-NoSlash d d h)

-- The digest is what stands behind the last slash of its key.
after_slash-key :
    (digest start : String) → NoSlash digest → after_slash start (key_for digest) ≡ digest
unfolding key_for
after_slash-key digest start h =
    let low = first_chars 2 (later_chars 2 digest) in
    let last = λ (s : String). after_slash-slash digest s h in
    let second = after_slash-behind low ("/" <> digest) digest last in
    let inner = after_slash-behind "/" (low <> ("/" <> digest)) digest second in
    let first = after_slash-behind (first_chars 2 digest) _ digest inner in
    after_slash-behind "sha256/" _ digest first start

missing : (other : String) → present_at none ≢ ok other
unfolding present_at
missing other e = ground arith

module _ (w : World) (bytes : String) (files : Files) where
  abbrev own_key : String
  own_key = key_for (digest_of w bytes)

  abbrev pub Kept : PutResult × Files → Type 0
  Kept r =
      (get (r.0).key (r.1) ≡ ok bytes)
      × (verify_fixity w (r.0).key (r.1) ≡ ok true)
      × ((path other : String) → get path files ≡ ok other → get path (r.1) ≡ ok other)

  fixity :
      (key : String) (after : Files)
      → NoSlash (digest_of w bytes)
      → key ≡ own_key
      → after key ≡ some bytes
      → verify_fixity w key after ≡ ok true
  unfolding verify_fixity get present_at same_digest
  fixity key after h same there =
      let digest = ap (after_slash key) same ∙ after_slash-key (digest_of w bytes) key h in
      rw (there, digest, eq_refl (digest_of w bytes)) refl

  pub put-Kept :
      NoSlash (digest_of w bytes)
      → (files own_key ≡ none) ⊎ (files own_key ≡ some bytes)
      → (r : PutResult × Files) × (put w bytes files ≡ ok r) × Kept r
  unfolding put put_at get present_at
  put-Kept h (inr there) = (
    (record { key = own_key; digest = digest_of w bytes; created = false }, files),
    rw (there, eq_refl bytes) refl,
    (rw there refl, fixity own_key files h refl there, λ path other e. e),
  )
  put-Kept h (inl absent) = (
    (
      record { key = own_key; digest = digest_of w bytes; created = true },
      written own_key bytes files,
    ),
    rw absent refl,
    (ap present_at there, fixity own_key (written own_key bytes files) h refl there, keep),
  )
    where
      there : written own_key bytes files own_key ≡ some bytes
      there = rw (eq_refl own_key) refl

      keep :
          (path other : String)
          → get path files ≡ ok other
          → get path (written own_key bytes files) ≡ ok other
      keep path other e = elim (Bool-cases (own_key == path)) [
        | inl same ↦
            let gone = ap files (sym ((eq_iff own_key path).0 same)) ∙ absent in
            absurd (missing other (ap present_at (sym gone) ∙ e))
        | inr elsewhere ↦ rw elsewhere e
      ]
