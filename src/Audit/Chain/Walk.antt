-- ===== src/Audit/Chain/Walk.antt =====
-- The walk of `verify_shard` over a chain that is extended at its end.
use land_record_digitalizati.Prelude.{
  String, ◌≡◌, refl, true, Option, none, some, List, [], ◌∷◌, ◌++◌, arith, last?, Bool-cases, inl,
  inr, &&-eq-true, ◌==◌, same_text, same_text_iff, eq_iff,
}
use land_record_digitalizati.Audit.World.{World}
use land_record_digitalizati.Audit.Chain.{
  AuditEntry, hash_of_last, chains, expected_hash, first_broken,
}

module _ (w : World) where
  -- The hash that the next entry has to point to.
  abbrev pub end_hash : Option String → List AuditEntry → Option String
  end_hash prev [] = prev
  end_hash prev (e ∷ es) = end_hash (some e.hash) es

  pub end_hash-last :
      (e : AuditEntry) (es : List AuditEntry)
      → end_hash (some e.hash) es ≡ hash_of_last (last? (e ∷ es))
  end_hash-last e [] = refl
  end_hash-last e (f ∷ es) = end_hash-last f es

  pub end_hash-hash_of_last : (es : List AuditEntry) → end_hash none es ≡ hash_of_last (last? es)
  end_hash-hash_of_last [] = refl
  end_hash-hash_of_last (e ∷ es) = end_hash-last e es

  -- A sound chain stays sound when an entry is added that chains from its end.
  pub first_broken-append :
      (prev : Option String) (es : List AuditEntry) (e : AuditEntry)
      → first_broken w prev es ≡ none
      → chains w (end_hash prev es) e ≡ true
      → first_broken w prev (es ++ e ∷ []) ≡ none
  unfolding first_broken
  first_broken-append prev [] e h c = rw c refl
  first_broken-append prev (f ∷ es) e h c = elim (Bool-cases (chains w prev f)) [
    | inl good ↦ rw good (first_broken-append (some f.hash) es e (ground arith) c)
    | inr bad ↦ absurd (ground arith)
  ]

  -- What a sound chain says of its first entry.
  pub first_broken-cons :
      (prev : Option String) (e : AuditEntry) (es : List AuditEntry)
      → first_broken w prev (e ∷ es) ≡ none
      → (e.prev_hash ≡ prev)
        × (e.hash ≡ expected_hash w prev e)
        × (first_broken w (some e.hash) es ≡ none)
  unfolding first_broken
  first_broken-cons prev e es h = elim (Bool-cases (chains w prev e)) [
    | inl good ↦
        let both : (same_text e.prev_hash prev ≡ true)
            × ((e.hash == expected_hash w prev e) ≡ true) =
          &&-eq-true _ _ good in
        ((same_text_iff _ _).0 both.0, (eq_iff _ _).0 both.1, ground arith)
    | inr bad ↦ absurd (ground arith)
  ]
