-- ===== src/Audit/Verify.antt =====
-- libs/audit/src/landaudit/verify.py: the structural check of every shard, the comparison with an
-- anchored root, and the window in which a mismatch arose. The tables are the log's and the rolls'.
pub mod Anchor
pub mod Window
pub mod Named
pub mod Order
use Prim.Native.String.{compare}
use text.Mathlib.Text.{is_lt}
use land_record_digitalizati.Prelude.{
  ℕ, String, ◌<>◌, Bool, true, false, not, ◌&&◌, ◌||◌, Option, none, some, List, [], ◌∷◌, map, ltb,
  eqb, if◌then◌else◌, ◌==◌, all, any, find, head?, decimal, same_text,
}
use land_record_digitalizati.Audit.World.{World}
use land_record_digitalizati.Audit.Chain.{
  AuditEntry, Log, Verified, returned, chain_tampered, verify_shard, in_shard,
}
use land_record_digitalizati.Audit.Merkle.{
  ShardHeadRecord, shards, current_shard_heads, compute_root,
}

-- A row of `chain_root`.
pub record ChainRoot : Type 0 where
  pub id : String
  pub root : String
  pub rolled_at : ℕ
  pub shard_heads : List ShardHeadRecord
  pub config_version : Option String

pub record ShardFinding : Type 0 where
  pub shard_id : ℕ
  pub ok : Bool
  pub detail : String

pub record TamperWindow : Type 0 where
  pub shard_id : ℕ
  pub last_agreeing_root_id : Option String
  pub last_agreeing_rolled_at : Option String
  pub earliest_disagreeing_root_id : String
  pub earliest_disagreeing_rolled_at : String
  pub detail : String

pub record VerificationReport : Type 0 where
  pub structural_ok : Bool
  pub structural_findings : List ShardFinding
  pub anchor_ok : Option Bool
  pub computed_root : String
  pub supplied_anchor_root : Option String
  pub tamper_window : Option TamperWindow

-- `anchor_ok is not False`
abbrev pub not_false : Option Bool → Bool
not_false (some false) = false
not_false _ = true

unfoldable pub report_ok : VerificationReport → Bool
report_ok r = r.structural_ok && not_false r.anchor_ok

-- `str(ChainTamperedError(...))`
abbrev pub tampered_text : ℕ → String → String
tampered_text s id =
    "shard " <> decimal s <> " entry " <> id <> " does not chain from its predecessor"

abbrev pub finding : ℕ → Verified → ShardFinding
finding s (returned b) = record {
  shard_id = s;
  ok = true;
  detail = "chain recomputes consistently";
}
finding s (chain_tampered t id) = record { shard_id = s; ok = false; detail = tampered_text t id }

unfoldable pub structural_findings : World → Log → List ShardFinding
structural_findings w log = map (λ s. finding s (verify_shard w log s true)) shards

pub insert_roll : ChainRoot → List ChainRoot → List ChainRoot
insert_roll x [] = x ∷ []
insert_roll x (y ∷ ys) =
    let rest = insert_roll x ys in if ltb y.rolled_at x.rolled_at then y ∷ rest else x ∷ y ∷ ys

-- `select(ChainRoot).order_by(ChainRoot.rolled_at.asc())`
unfoldable pub rolls_in_order : List ChainRoot → List ChainRoot
unfolding insert_roll
rolls_in_order [] = []
rolls_in_order (x ∷ xs) = insert_roll x (rolls_in_order xs)

-- The head that a roll recorded for a shard: `None` where it has no record of the shard, or the
-- shard was empty.
unfoldable pub recorded_head : ChainRoot → ℕ → Option String
recorded_head roll s = elim (find (λ h. eqb h.shard_id s) roll.shard_heads) [
  | none ↦ none
  | some h ↦ h.head_hash
]

unfoldable pub still_present : List AuditEntry → ℕ → String → Bool
still_present rows s h = any (λ e. in_shard s e && e.hash == h) rows

abbrev pub agreeing_id : Option ChainRoot → Option String
agreeing_id none = none
agreeing_id (some r) = some r.id

abbrev pub agreeing_at : World → Option ChainRoot → Option String
agreeing_at w none = none
agreeing_at w (some r) = some (w.isoformat r.rolled_at)

abbrev pub agreeing_text : World → Option ChainRoot → String
agreeing_text w none = "the start of the chain"
agreeing_text w (some r) = w.isoformat r.rolled_at

unfoldable pub window_at : World → ℕ → Option ChainRoot → ChainRoot → TamperWindow
window_at w s last_agreeing roll = record {
  shard_id = s;
  last_agreeing_root_id = agreeing_id last_agreeing;
  last_agreeing_rolled_at = agreeing_at w last_agreeing;
  earliest_disagreeing_root_id = roll.id;
  earliest_disagreeing_rolled_at = w.isoformat roll.rolled_at;
  detail =
      "shard "
      <> decimal s
      <> "'s head hash as recorded in chain_root "
      <> roll.id
      <> " (rolled at "
      <> w.isoformat roll.rolled_at
      <> ") no longer exists in the shard's current chain — the tamper (and any local "
      <> "forward-recompute covering it) happened no earlier than "
      <> agreeing_text w last_agreeing
      <> " and no later than "
      <> w.isoformat roll.rolled_at;
}

-- The loop of `bound_tamper_window`.
unfoldable pub walk_rolls :
    World → List AuditEntry → ℕ → Option ChainRoot → List ChainRoot → Option TamperWindow
walk_rolls w rows s last_agreeing [] = none
walk_rolls w rows s last_agreeing (roll ∷ rolls) =
    let skip = walk_rolls w rows s last_agreeing rolls in
    let agree = walk_rolls w rows s (some roll) rolls in
    elim (recorded_head roll s) [
      | none ↦ skip
      | some h ↦ if still_present rows s h then agree else some (window_at w s last_agreeing roll)
    ]

unfoldable pub bound_tamper_window : World → Log → List ChainRoot → ℕ → Option TamperWindow
unfolding walk_rolls rolls_in_order recorded_head still_present window_at
bound_tamper_window w log rolls s = walk_rolls w log.entries s none (rolls_in_order rolls)

abbrev pub present : Option TamperWindow → List TamperWindow → List TamperWindow
present none rest = rest
present (some x) rest = x ∷ rest

-- `[w for sid in range(NUM_SHARDS) if (w := bound_tamper_window(...))]`
unfoldable pub windows : World → Log → List ChainRoot → List ℕ → List TamperWindow
windows w log rolls [] = []
windows w log rolls (s ∷ ss) = present (bound_tamper_window w log rolls s) (windows w log rolls ss)

abbrev pub earlier : TamperWindow → TamperWindow → Bool
earlier a b = is_lt (compare a.earliest_disagreeing_rolled_at b.earliest_disagreeing_rolled_at)

pub insert_window : TamperWindow → List TamperWindow → List TamperWindow
insert_window x [] = x ∷ []
insert_window x (y ∷ ys) =
    let rest = insert_window x ys in if earlier y x then y ∷ rest else x ∷ y ∷ ys

-- `windows.sort(key=lambda w: w.earliest_disagreeing_rolled_at)`
unfoldable pub windows_in_order : List TamperWindow → List TamperWindow
unfolding insert_window
windows_in_order [] = []
windows_in_order (x ∷ xs) = insert_window x (windows_in_order xs)

abbrev pub anchor_verdict : String → Option String → Option Bool
anchor_verdict computed none = none
anchor_verdict computed (some trusted) = some (computed == trusted)

-- A window is looked for only behind a mismatch.
abbrev pub localize : World → Log → List ChainRoot → Option Bool → Option TamperWindow
localize w log rolls (some false) = head? (windows_in_order (windows w log rolls shards))
localize w log rolls _ = none

unfoldable pub verify_against_anchor :
    World → Log → List ChainRoot → Option String → VerificationReport
verify_against_anchor w log rolls trusted_root =
    let findings = structural_findings w log in
    let computed_root = compute_root w (current_shard_heads log) in
    let anchor_ok = anchor_verdict computed_root trusted_root in
    record {
      structural_ok = all (λ f. f.ok) findings;
      structural_findings = findings;
      anchor_ok = anchor_ok;
      computed_root = computed_root;
      supplied_anchor_root = trusted_root;
      tamper_window = localize w log rolls anchor_ok;
    }
