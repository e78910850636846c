-- ===== src/Audit/DigestTests.antt =====
-- A hash that tells the texts of a small log apart, and the theorem on anchored histories at it.
use Prim.Native.Char.{Char, code}
use text.Mathlib.TextLemmas.{head-eq_of_cons-eq, length-cons}
use land_record_digitalizati.Prelude.{
  ℕ, zero, suc, ◌+◌, ◌*◌, ◌/◌, ◌%◌, String, ◌<>◌, count, ◌≡◌, ◌≢◌, refl, sym, ap, ◌∙◌, Bool, true,
  false, not, ◌||◌, Option, none, some, List, [], ◌∷◌, ◌++◌, map, all, any, All, arith, eqb,
  decimal, Bool-cases, inl, inr, ◌==◌, eq_iff, or_empty, &&-eq-true,
}
use land_record_digitalizati.Audit.World.{World, IsHexDigest, TellsApart}
use land_record_digitalizati.Audit.Chain.{
  AuditEntry, Log, Request, append, new_entry, shard_entries, compute_hash, hash_material,
  shard_head, expected_hash, resolve_shard, shard_for, verify_shard,
}
use land_record_digitalizati.Audit.Chain.Appending.{append_all, empty_log}
use land_record_digitalizati.Audit.Chain.Material.{body}
use land_record_digitalizati.Audit.Chain.History.{bar, bar-append}
use land_record_digitalizati.Audit.Merkle.{
  shards, compute_root, current_shard_heads, leaf_hash, head_record, pair_hash,
}
use land_record_digitalizati.Audit.Merkle.Levels.{parents}
use land_record_digitalizati.Audit.Verify.{report_ok, verify_against_anchor, structural_findings}
use land_record_digitalizati.Audit.Verify.Anchor.{HashesIn, report_ok-history}

abbrev bit_of : Bool → Char
bit_of true = "0"
bit_of false = "1"

abbrev bit : ℕ → Char
bit n = bit_of (eqb (n % 2) 0)

abbrev bits : ℕ → ℕ → String
bits zero n = ""
bits (suc k) n = String.◌∷◌ (bit n) (bits k (n / 2))

abbrev mix : ℕ → String → ℕ
mix acc String.[] = acc
mix acc (String.◌∷◌ c s) = mix ((acc * 257 + code c) % 18_446_744_073_709_551_557) s

abbrev world : World
world = record {
  sha256 = λ s. bits 64 (mix 7 s);
  uuid4 = λ n. "id" <> decimal n;
  clock = λ n. n;
  isoformat = decimal;
}

count-bits : (k n : ℕ) → count (bits k n) ≡ k
count-bits zero n = refl
count-bits (suc k) n = length-cons (bit n) (bits k (n / 2)) ∙ ap suc (count-bits k (n / 2))

bit_of-bar : (b : Bool) → bit_of b ≢ bar
bit_of-bar true h = absurd (omega (arith, ap code h))
bit_of-bar false h = absurd (omega (arith, ap code h))

world-IsHexDigest : IsHexDigest world
world-IsHexDigest = record {
  width = λ s. count-bits 64 (mix 7 s);
  no_bar = λ s t h. bit_of-bar _ (head-eq_of_cons-eq (h ∙ bar-append t));
}

abbrev request : String → Request
request actor = record {
  actor = actor;
  action = "field.edited";
  subject = some "r1";
  purpose = none;
  value_hash = none;
  shard_id = none;
  shard_key = some "system";
  district = none;
}

-- Two entries of the system's shard.
abbrev log : Log
log = append_all world (request "asha" ∷ request "ravi" ∷ []) empty_log

-- The texts that the verification of the log hashes.
abbrev entry_texts : Option String → List AuditEntry → List String
entry_texts prev [] = []
entry_texts prev (e ∷ es) = (or_empty prev <> ("|" <> body world e)) ∷ entry_texts (some e.hash) es

abbrev leaf_texts : List ℕ → List String
leaf_texts [] = []
leaf_texts (s ∷ ss) = (decimal s <> (":" <> or_empty (shard_head log s))) ∷ leaf_texts ss

abbrev pair_texts : List String → List String
pair_texts [] = []
pair_texts (a ∷ []) = (a <> a) ∷ []
pair_texts (a ∷ b ∷ rest) = (a <> b) ∷ pair_texts rest

abbrev leaves : List String
leaves = map (leaf_hash world) (map (head_record log) shards)

abbrev texts : List String
texts =
    entry_texts none (shard_entries log.entries 0)
    ++ leaf_texts shards
    ++ pair_texts leaves
    ++ pair_texts (parents world leaves)
    ++ pair_texts (parents world (parents world leaves))

abbrev Hashed : String → Type 0
Hashed t = any (λ u. u == t) texts ≡ true

abbrev apart : String → String → Bool
apart a b = not (world.sha256 a == world.sha256 b) || a == b

texts-apart : all (λ a. all (apart a) texts) texts ≡ true
unfolding append_all append new_entry shard_entries shard_head compute_hash hash_material leaf_hash
    decimal resolve_shard shard_for pair_hash
texts-apart = refl

log-HashesIn : HashesIn world Hashed log
unfolding append_all append new_entry shard_entries shard_head compute_hash hash_material leaf_hash
    decimal resolve_shard shard_for pair_hash
log-HashesIn = record {
  root = (
    (refl, (refl, (refl, (refl, (refl, (refl, (refl, (refl, tt)))))))),
    ((refl, (refl, (refl, (refl, tt)))), ((refl, (refl, tt)), ((refl, tt), tt))),
  );
  chains = ((refl, (refl, tt)), (tt, (tt, (tt, (tt, (tt, (tt, (tt, tt))))))));
}

all_in :
    (f : String → Bool) (ts : List String) (t : String)
    → all f ts ≡ true
    → any (λ u. u == t) ts ≡ true
    → f t ≡ true
all_in f [] t h m = absurd (ground arith)
all_in f (u ∷ us) t h m =
    let (here, later) = &&-eq-true _ _ h in
    elim (Bool-cases (u == t)) [
      | inl e ↦ ap f (sym ((eq_iff u t).0 e)) ∙ here
      | inr n ↦ all_in f us t later (ground arith)
    ]

unequal_or : (p q : Bool) → (not p || q) ≡ true → p ≡ true → q ≡ true
unequal_or true q h e = h
unequal_or false q h e = absurd (ground arith)

apart-eq : (a b : String) → apart a b ≡ true → world.sha256 a ≡ world.sha256 b → a ≡ b
apart-eq a b h same = (eq_iff a b).0 (
    unequal_or (world.sha256 a == world.sha256 b) (a == b) h
      ((eq_iff (world.sha256 a) (world.sha256 b)).1 same))

texts-TellsApart : TellsApart world Hashed
texts-TellsApart a b i j =
    apart-eq a b
      (all_in (apart a) texts b (all_in (λ c. all (apart c) texts) texts a texts-apart i) j)

log_sound : all (λ f. f.ok) (structural_findings world log) ≡ true
unfolding structural_findings verify_shard append_all append new_entry shard_entries shard_for
    resolve_shard shard_head compute_hash hash_material expected_hash decimal
log_sound = refl

log_report :
    report_ok
      (verify_against_anchor world log [] (some (compute_root world (current_shard_heads log))))
    ≡ true
unfolding report_ok verify_against_anchor structural_findings verify_shard append_all append
    new_entry shard_entries shard_for resolve_shard shard_head compute_hash hash_material
    expected_hash decimal compute_root current_shard_heads pair_hash
log_report = refl

report_ok-history_example :
    All
      (λ s.
        map (body world) (shard_entries log.entries s)
        ≡ map (body world) (shard_entries log.entries s))
      shards
report_ok-history_example =
    report_ok-history world log log [] Hashed world-IsHexDigest texts-TellsApart log-HashesIn
      log-HashesIn log_sound log_report
