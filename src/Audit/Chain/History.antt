-- ===== src/Audit/Chain/History.antt =====
-- The head of a shard determines the history of the shard, if the hash tells the hashed texts apart.
use Prim.Native.Char.{Char}
use mathlib.Core.List.{reverse_aux, reverse_aux-reverse_aux-nil}
use text.Mathlib.TextLemmas.{
  append_cancel_left, append_inj, cons-append, nil-append, head-eq_of_cons-eq, length-nil,
}
use land_record_digitalizati.Prelude.{
  String, ◌<>◌, count, ◌≡◌, refl, sym, ◌∙◌, ap, ap₂, Option, none, some, List, [], ◌∷◌, map,
  or_empty, arith, last?,
}
use land_record_digitalizati.Audit.World.{World, IsHexDigest, TellsApart}
use land_record_digitalizati.Audit.Chain.{AuditEntry, hash_of_last, expected_hash, first_broken}
use land_record_digitalizati.Audit.Chain.Walk.{end_hash, end_hash-hash_of_last, first_broken-cons}
use land_record_digitalizati.Audit.Chain.Material.{body, expected_hash-body}

abbrev pub bar : Char
bar = "|"

pub bar-append : (s : String) → "|" <> s ≡ String.◌∷◌ bar s
bar-append s = cons-append bar "" s ∙ ap (String.◌∷◌ bar) (nil-append s)

bar_first : (d s t : String) → count d ≡ 64 → "|" <> s ≡ d <> t → (r : String) × (d ≡ "|" <> r)
bar_first String.[] s t n h = absurd (omega (arith, length-nil))
bar_first (String.◌∷◌ c r) s t n h =
    let same : bar ≡ c = head-eq_of_cons-eq (sym (bar-append s) ∙ h ∙ cons-append c r t) in
    (r, ap (λ (x : Char). String.◌∷◌ x r) (sym same) ∙ sym (bar-append r))

module _ (w : World) (H : String → Type 0) where
  abbrev head_hash : List AuditEntry → Option String
  head_hash [] = none
  head_hash (e ∷ es) = some e.hash

  -- A sound chain of texts of the set, with its newest entry first.
  abbrev Chained : List AuditEntry → Type 0
  Chained [] = Unit
  Chained (e ∷ es) =
      (e.hash ≡ expected_hash w (head_hash es) e)
      × H (or_empty (head_hash es) <> ("|" <> body w e))
      × Chained es

  -- The texts that the walk of a chain hashes are in the set.
  abbrev pub EntriesIn : Option String → List AuditEntry → Type 0
  EntriesIn prev [] = Unit
  EntriesIn prev (e ∷ es) = H (or_empty prev <> ("|" <> body w e)) × EntriesIn (some e.hash) es

  Chained-reverse :
      (prev : List AuditEntry) (es : List AuditEntry)
      → Chained prev
      → first_broken w (head_hash prev) es ≡ none
      → EntriesIn (head_hash prev) es
      → Chained (reverse_aux es prev)
  Chained-reverse prev [] c h i = c
  Chained-reverse prev (e ∷ es) c h i =
      let (link, own, rest) = first_broken-cons w (head_hash prev) e es h in
      Chained-reverse (e ∷ prev) es (own, i.0, c) rest i.1

  head_hash-reverse :
      (prev : List AuditEntry) (es : List AuditEntry)
      → head_hash (reverse_aux es prev) ≡ end_hash w (head_hash prev) es
  head_hash-reverse prev [] = refl
  head_hash-reverse prev (e ∷ es) = head_hash-reverse (e ∷ prev) es

  -- No text that begins with a bar begins with the hash of an entry.
  hash-no_bar :
      IsHexDigest w
      → (f : AuditEntry) (fs : List AuditEntry) (s t : String) → Chained (f ∷ fs)
      → "|" <> s ≡ f.hash <> t
      → ⊥
  hash-no_bar d f fs s t k h =
      let (r, p) =
        bar_first (w.sha256 _) s t (d.width _)
          (h ∙ ap (λ (x : String). x <> t) (k.0 ∙ expected_hash-body w (head_hash fs) f)) in
      d.no_bar _ r p

  digest :
      (e : AuditEntry) (es : List AuditEntry)
      → Chained (e ∷ es)
      → e.hash ≡ w.sha256 (or_empty (head_hash es) <> ("|" <> body w e))
  digest e es c = c.0 ∙ expected_hash-body w (head_hash es) e

  count-hash :
      IsHexDigest w → (e : AuditEntry) (es : List AuditEntry) → Chained (e ∷ es) → count e.hash ≡ 64
  count-hash d e es c = ap count (digest e es c) ∙ d.width _

  digests :
      (e f : AuditEntry) (es fs : List AuditEntry)
      → Chained (e ∷ es)
      → Chained (f ∷ fs)
      → ◌≡◌ {A = Option String} (some e.hash) (some f.hash)
      → w.sha256 (or_empty (head_hash es) <> ("|" <> body w e))
        ≡ w.sha256 (or_empty (head_hash fs) <> ("|" <> body w f))
  digests e f es fs c k h = sym (digest e es c) ∙ ap or_empty h ∙ digest f fs k

  -- A digest is the hash of an entry, and neither is that of the start of a chain.
  prev_split :
      IsHexDigest w
      → (es fs : List AuditEntry) (s t : String) → Chained es
      → Chained fs
      → or_empty (head_hash es) <> ("|" <> s) ≡ or_empty (head_hash fs) <> ("|" <> t)
      → (head_hash es ≡ head_hash fs) × (s ≡ t)
  prev_split d [] [] s t c k h =
      (refl, append_cancel_left "|" s t (append_cancel_left "" ("|" <> s) ("|" <> t) h))
  prev_split d [] (f ∷ fs) s t c k h =
      absurd (hash-no_bar d f fs s _ k (sym (nil-append ("|" <> s)) ∙ h))
  prev_split d (e ∷ es) [] s t c k h =
      absurd (hash-no_bar d e es t _ c (sym (nil-append ("|" <> t)) ∙ sym h))
  prev_split d (e ∷ es) (f ∷ fs) s t c k h =
      let (p, q) =
        append_inj {s₁ = e.hash} {s₂ = f.hash} h
          (count-hash d e es c ∙ sym (count-hash d f fs k)) in
      (ap some p, append_cancel_left "|" s t q)

  Chained-history :
      IsHexDigest w
      → TellsApart w H
      → (es fs : List AuditEntry) → Chained es
      → Chained fs
      → head_hash es ≡ head_hash fs
      → map (body w) es ≡ map (body w) fs
  Chained-history d apart [] [] c k h = refl
  Chained-history d apart [] (f ∷ fs) c k h = absurd (cc)
  Chained-history d apart (e ∷ es) [] c k h = absurd (cc)
  Chained-history d apart (e ∷ es) (f ∷ fs) c k h =
      let same = apart _ _ c.1 k.1 (digests e f es fs c k h) in
      let (heads, bodies) = prev_split d es fs (body w e) (body w f) c.2 k.2 same in
      ap₂ (λ (x : String) (l : List String). x ∷ l) bodies
        (Chained-history d apart es fs c.2 k.2 heads)

  map-reverse :
      (es prev : List AuditEntry)
      → map (body w) (reverse_aux es prev) ≡ reverse_aux (map (body w) es) (map (body w) prev)
  map-reverse [] prev = refl
  map-reverse (e ∷ es) prev = map-reverse es (e ∷ prev)

  -- Two sound chains with the same head tell the same history.
  pub first_broken-history :
      (es fs : List AuditEntry)
      → IsHexDigest w
      → TellsApart w H
      → EntriesIn none es
      → EntriesIn none fs
      → first_broken w none es ≡ none
      → first_broken w none fs ≡ none
      → hash_of_last (last? es) ≡ hash_of_last (last? fs)
      → map (body w) es ≡ map (body w) fs
  first_broken-history es fs d apart i j c k h =
      sym (again es)
      ∙ ap (λ (l : List String). reverse_aux l [])
          (Chained-history d apart (reverse_aux es []) (reverse_aux fs [])
            (Chained-reverse [] es tt c i) (Chained-reverse [] fs tt k j)
            (newest es ∙ h ∙ sym (newest fs)))
      ∙ again fs
    where
      newest : (xs : List AuditEntry) → head_hash (reverse_aux xs []) ≡ hash_of_last (last? xs)
      newest xs = head_hash-reverse [] xs ∙ end_hash-hash_of_last w xs

      again :
          (xs : List AuditEntry)
          → reverse_aux (map (body w) (reverse_aux xs [])) [] ≡ map (body w) xs
      again xs =
          ap (λ (l : List String). reverse_aux l []) (map-reverse xs [])
          ∙ reverse_aux-reverse_aux-nil (map (body w) xs) []

  -- The head of a sound chain is a digest, if the chain is not empty.
  pub head-width :
      (es : List AuditEntry) {h : String}
      → IsHexDigest w
      → EntriesIn none es
      → first_broken w none es ≡ none
      → hash_of_last (last? es) ≡ some h
      → count h ≡ 64
  head-width es {h} d i c p =
      newest_width (reverse_aux es []) (Chained-reverse [] es tt c i)
        (head_hash-reverse [] es ∙ end_hash-hash_of_last w es ∙ p)
    where
      newest_width : (fs : List AuditEntry) → Chained fs → head_hash fs ≡ some h → count h ≡ 64
      newest_width [] k q = absurd (cc)
      newest_width (f ∷ fs) k q =
          ap (λ (o : Option String). count (or_empty o)) (sym q) ∙ count-hash d f fs k
