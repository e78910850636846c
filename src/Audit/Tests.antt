-- ===== src/Audit/Tests.antt =====
-- Tests of libs/audit on a small world, and its theorems at inputs that meet their hypotheses.
use Prim.Native.Char.{Char, code}
use text.Mathlib.TextLemmas.{head-eq_of_cons-eq}
use land_record_digitalizati.Prelude.{
  ◌+◌, ◌*◌, ◌-◌, ◌%◌, String, ◌<>◌, count, ◌≡◌, ◌≢◌, refl, ap, ◌∙◌, true, false, none, some, List,
  [], ◌∷◌, All, arith, eqb, if◌then◌else◌, decimal, length, Bool-cases, inl, inr,
}
use land_record_digitalizati.Audit.World.{World, IsHexDigest, IsForward}
use land_record_digitalizati.Audit.Chain.{
  Log, Request, append, new_entry, verify_shard, returned, shard_entries, compute_hash,
  resolve_shard, shard_head, shard_for,
}
use land_record_digitalizati.Audit.Chain.Appending.{append_all, empty_log, verify_shard-append_all}
use land_record_digitalizati.Audit.Chain.Skew.{verify_shard-append_skewed}
use land_record_digitalizati.Audit.Chain.Material.{compute_hash-bar_shift}
use land_record_digitalizati.Audit.Chain.History.{bar, bar-append}
use land_record_digitalizati.Audit.Merkle.{merkle_root, next_level}
use land_record_digitalizati.Audit.Merkle.Levels.{merkle_root_lem}
use land_record_digitalizati.Audit.Verify.{
  ChainRoot, window_at, walk_rolls, recorded_head, still_present, report_ok, verify_against_anchor,
  bound_tamper_window, TamperWindow, rolls_in_order,
}
use land_record_digitalizati.Audit.Verify.Named.{
  Confirmed, Disagreeing, LastAgreeing, Agrees-bound_tamper_window, Names-bound_tamper_window,
}
use land_record_digitalizati.Audit.Rollup.{
  Action, appended, rolled, act_all, empty_db, perform_roll, second_store_witness,
  timestamp_authority_witness,
}
use land_record_digitalizati.Audit.Rollup.History.{bound_tamper_window-act_all}
use land_record_digitalizati.Audit.Rollup.Fresh.{report_ok-perform_roll}

-- A digest of one bit, written with 64 digits.
abbrev zeros : String
zeros = "0000000000000000000000000000000000000000000000000000000000000000"

abbrev ones : String
ones = "1111111111111111111111111111111111111111111111111111111111111111"

abbrev parity : String → String
parity s = if eqb (count s % 2) 0 then zeros else ones

abbrev world : World
world = record {
  sha256 = parity;
  uuid4 = λ n. "id" <> decimal n;
  clock = λ n. n;
  isoformat = decimal;
}

no_bar_zeros : (t : String) → zeros ≢ "|" <> t
no_bar_zeros t h =
    let same : ◌≡◌ {A = Char} "0" bar = head-eq_of_cons-eq (h ∙ bar-append t) in
    absurd (omega (arith, ap code same))

no_bar_ones : (t : String) → ones ≢ "|" <> t
no_bar_ones t h =
    let same : ◌≡◌ {A = Char} "1" bar = head-eq_of_cons-eq (h ∙ bar-append t) in
    absurd (omega (arith, ap code same))

world-IsHexDigest : IsHexDigest world
world-IsHexDigest = record {
  width = λ s. elim (Bool-cases (eqb (count s % 2) 0)) [ inl e ↦ rw e refl | inr e ↦ rw e refl ];
  no_bar = λ s t. elim (Bool-cases (eqb (count s % 2) 0)) [
    | inl e ↦ rw e (no_bar_zeros t)
    | inr e ↦ rw e (no_bar_ones t)
  ];
}

world-IsForward : IsForward world
world-IsForward n = omega arith

abbrev request : String → String → Request
request actor key = record {
  actor = actor;
  action = "field.edited";
  subject = some "r1";
  purpose = none;
  value_hash = none;
  shard_id = none;
  shard_key = some key;
  district = none;
}

abbrev requests : List Request
requests = request "asha" "system" ∷ request "ravi" "system" ∷ request "asha" "district:XY" ∷ []

abbrev log : Log
log = append_all world requests empty_log

-- Two entries of the system's shard; the third entry goes to another one.
shard_lengths :
    (length (shard_entries log.entries 0) ≡ 2) × (length (shard_entries log.entries 1) ≡ 1)
unfolding append_all append new_entry shard_entries shard_for resolve_shard
shard_lengths = (refl, refl)

verify_shard-append_all_example : verify_shard world log 0 true ≡ returned true
verify_shard-append_all_example = verify_shard-append_all world requests 0 true world-IsForward

merkle_root_lem_example :
    (merkle_root world [] ≡ parity "")
    × (merkle_root world (zeros ∷ []) ≡ zeros)
    × (merkle_root world (zeros ∷ ones ∷ ones ∷ [])
        ≡ merkle_root world (next_level world (zeros ∷ ones ∷ ones ∷ [])))
    × (length (next_level world (zeros ∷ ones ∷ ones ∷ [])) * 2
        ≡ length (zeros ∷ ones ∷ ones ∷ []) + length (zeros ∷ ones ∷ ones ∷ []) % 2)
merkle_root_lem_example = merkle_root_lem world zeros ones (ones ∷ [])

-- A clock that goes backwards.
abbrev backward_world : World
backward_world = record world { clock = λ n. 10 - n }

abbrev backward_log : Log
backward_log = (append backward_world (request "asha" "system") empty_log).1

verify_shard-append_skewed_example :
    verify_shard backward_world
      (append backward_world (request "ravi" "system") backward_log).1
      0
      false
    ≡ returned false
unfolding append new_entry resolve_shard shard_for shard_head shard_entries
verify_shard-append_skewed_example =
    verify_shard-append_skewed backward_world (request "ravi" "system") backward_log
      (omega arith, tt) refl

compute_hash-bar_shift_example :
    compute_hash world none ("asha" <> ("|" <> "edit")) "ed" none none none "2026"
    ≡ compute_hash world none "asha" ("edit" <> ("|" <> "ed")) none none none "2026"
compute_hash-bar_shift_example =
    compute_hash-bar_shift world none "asha" "edit" "ed" none none none "2026"

abbrev actions : List Action
actions =
    appended (request "asha" "system")
    ∷ rolled (second_store_witness world (λ s. "key")) none none true
    ∷ appended (request "ravi" "system")
    ∷ rolled (timestamp_authority_witness world) none none false
    ∷ []

bound_tamper_window-act_all_example :
    let db = act_all world empty_db actions in
    bound_tamper_window world db.log db.chain_roots 0 ≡ none
bound_tamper_window-act_all_example = bound_tamper_window-act_all world actions 0

Agrees-bound_tamper_window_example :
    let db = act_all world empty_db actions in All (Confirmed db.log.entries 0) db.chain_roots
Agrees-bound_tamper_window_example =
    let db = act_all world empty_db actions in
    Agrees-bound_tamper_window world db.log db.chain_roots 0
      (bound_tamper_window-act_all world actions 0)

-- A roll that recorded a head of the system's shard.
abbrev rewritten_roll : ChainRoot
rewritten_roll = record {
  id = "root1";
  root = zeros;
  shard_heads = record { shard_id = 0; head_hash = some ones } ∷ [];
  rolled_at = 5;
  config_version = none;
}

abbrev gone_window : TamperWindow
gone_window = window_at world 0 none rewritten_roll

Names-bound_tamper_window_example :
    (roll : ChainRoot) × Disagreeing world [] (rewritten_roll ∷ []) 0 roll gone_window
    × LastAgreeing world [] (rewritten_roll ∷ []) 0 roll gone_window
unfolding bound_tamper_window rolls_in_order walk_rolls recorded_head still_present
Names-bound_tamper_window_example =
    Names-bound_tamper_window world empty_log (rewritten_roll ∷ []) 0 gone_window refl

report_ok-perform_roll_example :
    let (row, db) =
      perform_roll world
        (timestamp_authority_witness world)
        none
        none
        true
        (act_all world empty_db actions) in
    report_ok (verify_against_anchor world db.log db.chain_roots (some row.root)) ≡ true
report_ok-perform_roll_example =
    report_ok-perform_roll world actions (timestamp_authority_witness world) none none true
      world-IsForward
