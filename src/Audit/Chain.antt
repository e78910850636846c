-- ===== src/Audit/Chain.antt =====
-- libs/audit/src/landaudit/chain.py and models.py: the entries, their hashes, appending an entry
-- and verifying a shard. The table `audit_entry` is the list of its rows in the order of insertion.
pub mod Order
pub mod Walk
pub mod Appending
pub mod Skew
pub mod Material
pub mod History
use Prim.Native.Char.{Char, code}
use Prim.Native.String.{compare}
use text.Mathlib.Text.{is_lt}
use land_record_digitalizati.Prelude.{
  ℕ, ◌+◌, ◌*◌, ◌-◌, ◌%◌, String, ◌<>◌, Bool, true, false, not, ◌&&◌, ◌||◌, Option, none, some, List,
  [], ◌∷◌, ◌++◌, ◌==◌, ltb, eqb, if◌then◌else◌, filter, last?, join, or_empty, same_text,
}
use land_record_digitalizati.Audit.World.{World}

abbrev pub num_shards : ℕ
num_shards = 8

abbrev pub system_shard_id : ℕ
system_shard_id = 0

abbrev pub system_shard_key : String
system_shard_key = "system"

pub record AuditEntry : Type 0 where
  pub id : String
  pub shard_id : ℕ
  pub prev_hash : Option String
  pub hash : String
  pub actor : String
  pub action : String
  pub subject : Option String
  pub purpose : Option String
  pub value_hash : Option String
  pub at : ℕ
  pub district : Option String

-- `int(digest, 16)`
hex_digit : Char → ℕ
hex_digit c = if ltb (code c) 58 then code c - 48 else code c - 87

abbrev from_hex : ℕ → String → ℕ
from_hex acc String.[] = acc
from_hex acc (String.◌∷◌ c s) = from_hex (acc * 16 + hex_digit c) s

unfoldable pub shard_for : World → String → ℕ
unfolding hex_digit
shard_for w key =
    if key == system_shard_key then system_shard_id else from_hex 0 (w.sha256 key) % num_shards

-- The truth value of an optional text: `None` and the empty text are false.
abbrev pub truthy : Option String → Bool
truthy none = false
truthy (some s) = not (s == "")

unfoldable pub shard_key_for : Option String → Option String → String
shard_key_for district batch_id =
    if truthy district
    then "district:" <> or_empty district
    else if truthy batch_id
    then "batch:" <> or_empty batch_id
    else system_shard_key

unfoldable pub hash_material :
    Option String
    → String
    → String
    → Option String
    → Option String
    → Option String
    → String
    → String
hash_material prev actor action subject purpose value_hash at_iso = join "|" (
    or_empty prev
    ∷ actor
    ∷ action
    ∷ or_empty subject
    ∷ or_empty purpose
    ∷ or_empty value_hash
    ∷ at_iso
    ∷ [])

unfoldable pub compute_hash :
    World
    → Option String
    → String
    → String
    → Option String
    → Option String
    → Option String
    → String
    → String
compute_hash w prev actor action subject purpose value_hash at_iso =
    w.sha256 (hash_material prev actor action subject purpose value_hash at_iso)

-- The log is `ticks` readings of the clock and of the identifiers old.
pub record Log : Type 0 where
  pub entries : List AuditEntry
  pub ticks : ℕ

-- The keyword arguments of `append`.
pub record Request : Type 0 where
  pub actor : String
  pub action : String
  pub subject : Option String
  pub purpose : Option String
  pub value_hash : Option String
  pub shard_id : Option ℕ
  pub shard_key : Option String
  pub district : Option String

-- `ORDER BY at, id`
abbrev pub before : AuditEntry → AuditEntry → Bool
before e f = ltb e.at f.at || eqb e.at f.at && is_lt (compare e.id f.id)

pub insert : AuditEntry → List AuditEntry → List AuditEntry
insert x [] = x ∷ []
insert x (y ∷ ys) = let rest = insert x ys in if before y x then y ∷ rest else x ∷ y ∷ ys

pub in_order : List AuditEntry → List AuditEntry
in_order [] = []
in_order (x ∷ xs) = insert x (in_order xs)

abbrev pub in_shard : ℕ → AuditEntry → Bool
in_shard s e = eqb e.shard_id s

-- The rows of one shard, in chain order.
unfoldable pub shard_entries : List AuditEntry → ℕ → List AuditEntry
unfolding in_order insert
shard_entries rows s = in_order (filter (in_shard s) rows)

abbrev pub hash_of_last : Option AuditEntry → Option String
hash_of_last none = none
hash_of_last (some e) = some e.hash

-- The hash of a shard's latest row.
unfoldable pub shard_head : Log → ℕ → Option String
shard_head log s = hash_of_last (last? (shard_entries log.entries s))

abbrev subject_or_actor : Request → String
subject_or_actor r = if truthy r.subject then or_empty r.subject else r.actor

unfoldable pub resolve_shard : World → Request → ℕ
resolve_shard w r = elim r.shard_id [
  | some s ↦ s
  | none ↦ elim r.shard_key [ some key ↦ shard_for w key | none ↦ shard_for w (subject_or_actor r) ]
]

unfoldable pub new_entry : World → Request → Log → AuditEntry
new_entry w r log =
    let shard = resolve_shard w r in
    let prev = shard_head log shard in
    let now = w.clock log.ticks in
    record {
      id = w.uuid4 log.ticks;
      shard_id = shard;
      prev_hash = prev;
      hash =
          compute_hash w prev r.actor r.action r.subject r.purpose r.value_hash (w.isoformat now);
      actor = r.actor;
      action = r.action;
      subject = r.subject;
      purpose = r.purpose;
      value_hash = r.value_hash;
      at = now;
      district = r.district;
    }

unfoldable pub append : World → Request → Log → AuditEntry × Log
append w r log =
    let e = new_entry w r log in
    (e, record { entries = log.entries ++ e ∷ []; ticks = log.ticks + 1 })

-- What recomputing the chain gives for an entry behind `prev`.
unfoldable pub expected_hash : World → Option String → AuditEntry → String
expected_hash w prev e =
    compute_hash w prev e.actor e.action e.subject e.purpose e.value_hash (w.isoformat e.at)

abbrev pub chains : World → Option String → AuditEntry → Bool
chains w prev e = same_text e.prev_hash prev && e.hash == expected_hash w prev e

-- The loop of `verify_shard`: the first entry that does not chain from its predecessor.
unfoldable pub first_broken : World → Option String → List AuditEntry → Option AuditEntry
first_broken w prev [] = none
first_broken w prev (e ∷ es) =
    let rest = first_broken w (some e.hash) es in if chains w prev e then rest else some e

-- A verdict, or `ChainTamperedError` with the shard and the entry that it names.
pub data Verified : Type 0 where
  returned : Bool → Verified
  chain_tampered : ℕ → String → Verified

abbrev pub verdict : ℕ → Bool → Option AuditEntry → Verified
verdict s raise_on_mismatch none = returned true
verdict s true (some e) = chain_tampered s e.id
verdict s false (some e) = returned false

unfoldable pub verify_shard : World → Log → ℕ → Bool → Verified
unfolding first_broken
verify_shard w log s raise_on_mismatch =
    verdict s raise_on_mismatch (first_broken w none (shard_entries log.entries s))
