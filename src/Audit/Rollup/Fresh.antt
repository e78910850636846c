-- ===== src/Audit/Rollup/Fresh.antt =====
-- A root that has just been rolled verifies against the tables from which it was rolled.
use native.Mathlib.Nat.{add-zero}
use land_record_digitalizati.Prelude.{
  ℕ, zero, suc, ◌+◌, ◌<◌, ◌≤◌, String, ◌≡◌, refl, Bool, true, false, Option, some, List, [], ◌∷◌,
  arith, All, All-map, all, eq_refl,
}
use land_record_digitalizati.Audit.World.{World, IsForward}
use land_record_digitalizati.Audit.Chain.{Log, shard_head}
use land_record_digitalizati.Audit.Chain.Appending.{IsSound, append-IsSound, empty_log-IsSound}
use land_record_digitalizati.Audit.Merkle.{
  shards, compute_root, current_shard_heads, roll_global_root,
}
use land_record_digitalizati.Audit.Verify.{
  ChainRoot, report_ok, verify_against_anchor, structural_findings,
}
use land_record_digitalizati.Audit.Verify.Anchor.{IsSoundAt, sound-structural_findings}
use land_record_digitalizati.Audit.Rollup.{
  AuditDb, Action, appended, rolled, SignOnlyKeyHandle, Witness, act, act_all, perform_roll,
  new_root, empty_db, later,
}

module _ (w : World) (forward : IsForward w) where
  clock-le-add : (t n : ℕ) → w.clock t ≤ w.clock (t + n)
  clock-le-add t zero = rw add-zero (omega arith)
  clock-le-add t (suc n) =
      let same : t + suc n ≡ t + n + 1 = omega arith in
      rw same (omega (arith, clock-le-add t n, forward (t + n)))

  later-IsSound : (n : ℕ) (log : Log) → IsSound w log → IsSound w (later n log)
  later-IsSound n log h = record {
    sound = h.sound;
    past =
        All-map (λ e. e.at < w.clock log.ticks) (λ e. e.at < w.clock (log.ticks + n)) log.entries
          (λ e p. omega (arith, clock-le-add log.ticks n)) h.past;
  }

  act-IsSound : (db : AuditDb) (a : Action) → IsSound w db.log → IsSound w (act w db a).log
  unfolding act perform_roll
  act-IsSound db (appended r) h = append-IsSound w r db.log forward h
  act-IsSound db (rolled witness signer c false) h = later-IsSound 1 db.log h
  act-IsSound db (rolled witness signer c true) h = later-IsSound 3 db.log h

  act_all-IsSound :
      (db : AuditDb) (actions : List Action)
      → IsSound w db.log
      → IsSound w (act_all w db actions).log
  unfolding act_all
  act_all-IsSound db [] h = h
  act_all-IsSound db (a ∷ actions) h = act_all-IsSound (act w db a) actions (act-IsSound db a h)

  All-shards : (log : Log) (ss : List ℕ) → IsSound w log → All (IsSoundAt w log) ss
  All-shards log [] h = tt
  All-shards log (s ∷ ss) h = (h.sound s, All-shards log ss h)

report_ok-fresh :
    (w : World) (log : Log) (rolls : List ChainRoot)
    → all (λ f. f.ok) (structural_findings w log) ≡ true
    → report_ok
        (verify_against_anchor w log rolls (some (compute_root w (current_shard_heads log))))
      ≡ true
unfolding report_ok verify_against_anchor
report_ok-fresh w log rolls h = rw (h, eq_refl (compute_root w (current_shard_heads log))) refl

findings-later :
    (w : World) (actions : List Action) (n : ℕ)
    → IsForward w
    → all (λ f. f.ok) (structural_findings w (later n (act_all w empty_db actions).log)) ≡ true
findings-later w actions n forward =
    let log = later n (act_all w empty_db actions).log in
    sound-structural_findings w log (
      All-shards w forward log shards (
        later-IsSound w forward n _
          (act_all-IsSound w forward empty_db actions (empty_log-IsSound w))))

-- Whatever has been appended and rolled before, the root of a new roll, anchored or not, is one
-- against which the tables verify after the roll, if each reading of the clock is later than the
-- one before.
pub report_ok-perform_roll :
    (w : World) (actions : List Action) (witness : Witness) (signer : Option SignOnlyKeyHandle)
    (config_version : Option String) (anchor : Bool)
    → IsForward w
    → let (row, db) =
        perform_roll w witness signer config_version anchor (act_all w empty_db actions) in
      report_ok (verify_against_anchor w db.log db.chain_roots (some row.root)) ≡ true
unfolding perform_roll new_root roll_global_root current_shard_heads shard_head
report_ok-perform_roll w actions witness signer c false forward =
    let log = (act_all w empty_db actions).log in
    report_ok-fresh w (later 1 log) _ (findings-later w actions 1 forward)
report_ok-perform_roll w actions witness signer c true forward =
    let log = (act_all w empty_db actions).log in
    report_ok-fresh w (later 3 log) _ (findings-later w actions 3 forward)
