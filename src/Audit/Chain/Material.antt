-- ===== src/Audit/Chain/Material.antt =====
-- What the hash of an entry determines: the joined text, and not the fields.
use text.Mathlib.TextLemmas.{append_assoc}
use land_record_digitalizati.Prelude.{String, ◌<>◌, ◌≡◌, refl, ap, Option, [], ◌∷◌, join, or_empty}
use land_record_digitalizati.Audit.World.{World}
use land_record_digitalizati.Audit.Chain.{AuditEntry, hash_material, compute_hash, expected_hash}

-- The text of an entry that its hash covers beside the previous hash.
abbrev pub body : World → AuditEntry → String
body w e = join "|" (
    e.actor
    ∷ e.action
    ∷ or_empty e.subject
    ∷ or_empty e.purpose
    ∷ or_empty e.value_hash
    ∷ w.isoformat e.at
    ∷ [])

-- The fields are not escaped: a bar in the actor can be moved into the action, and the entry keeps
-- its hash, whatever the hash function.
pub compute_hash-bar_shift :
    (w : World) (prev : Option String) (a b c : String) (subject purpose value_hash : Option String)
    (at_iso : String)
    → compute_hash w prev (a <> ("|" <> b)) c subject purpose value_hash at_iso
      ≡ compute_hash w prev a (b <> ("|" <> c)) subject purpose value_hash at_iso
unfolding compute_hash hash_material
compute_hash-bar_shift w prev a b c subject purpose value_hash at_iso =
    ap w.sha256 (simp append_assoc)

-- The hash covers the previous hash and the body.
pub expected_hash-body :
    (w : World) (prev : Option String) (e : AuditEntry)
    → expected_hash w prev e ≡ w.sha256 (or_empty prev <> ("|" <> body w e))
unfolding expected_hash compute_hash hash_material
expected_hash-body w prev e = refl
