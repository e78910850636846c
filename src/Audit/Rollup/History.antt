-- ===== src/Audit/Rollup/History.antt =====
-- A log that is only appended to and rolled raises no alarm.
use mathlib.Core.Option.{some-injective}
use land_record_digitalizati.Prelude.{
  ℕ, String, ◌≡◌, refl, sym, ap, subst, ◌∙◌, inl, inr, true, false, Option, none, some, List, [],
  ◌∷◌, ◌++◌, arith, All, map, last?, Bool-cases, Option-cases, eqb, eq_refl, eqb_iff, filter, find,
  All-map, All-append, All-last?,
}
use land_record_digitalizati.Audit.World.{World}
use land_record_digitalizati.Audit.Chain.{
  AuditEntry, Log, append, new_entry, in_shard, shard_entries, shard_head, hash_of_last,
}
use land_record_digitalizati.Audit.Chain.Order.{All-shard_entries}
use land_record_digitalizati.Audit.Merkle.{head_record, shards, current_shard_heads}
use land_record_digitalizati.Audit.Verify.{recorded_head, still_present, bound_tamper_window}
use land_record_digitalizati.Audit.Verify.Window.{Agrees, bound_tamper_window-none}
use land_record_digitalizati.Audit.Rollup.{
  AuditDb, Action, appended, rolled, act, act_all, perform_roll, new_root, empty_db,
}

abbrev HasHead : ℕ → String → List AuditEntry → Type 0
HasHead s h rows = still_present rows s h ≡ true

still_present-append :
    (s : ℕ) (h : String) (rows more : List AuditEntry)
    → HasHead s h rows
    → HasHead s h (rows ++ more)
unfolding still_present
still_present-append s h [] more p = absurd (ground arith)
still_present-append s h (e ∷ rows) more p = ground (arith, still_present-append s h rows more)

still_present-cons :
    (s : ℕ) (h : String) (e : AuditEntry) (rows : List AuditEntry)
    → HasHead s h rows
    → HasHead s h (e ∷ rows)
unfolding still_present
still_present-cons s h e rows p = ground arith

still_present_self :
    (s : ℕ) (e : AuditEntry) (rows : List AuditEntry)
    → in_shard s e ≡ true
    → HasHead s e.hash (e ∷ rows)
unfolding still_present
still_present_self s e rows p = rw (p, eq_refl e.hash) refl

present_rows :
    (s : ℕ) (rows : List AuditEntry) → All (λ e. HasHead s e.hash rows) (filter (in_shard s) rows)
present_rows s [] = tt
present_rows s (x ∷ xs) =
    let rest : All (λ e. HasHead s e.hash (x ∷ xs)) (filter (in_shard s) xs) =
      All-map (λ e. HasHead s e.hash xs) (λ e. HasHead s e.hash (x ∷ xs)) (filter (in_shard s) xs)
        (λ e p. still_present-cons s e.hash x xs p) (present_rows s xs) in
    elim (Bool-cases (in_shard s x)) [
      | inl same ↦ rw same (still_present_self s x xs same, rest)
      | inr other ↦ rw other rest
    ]

-- The head of a shard is the hash of one of its rows.
head_present :
    (s : ℕ) (log : Log) (h : String) → shard_head log s ≡ some h → HasHead s h log.entries
unfolding shard_head
head_present s log h p = elim (Option-cases (last? (shard_entries log.entries s))) [
  | inl empty ↦ absurd (cc)
  | inr (e, last) ↦
      subst (λ x. HasHead s x log.entries) (some-injective _ _ (sym (ap hash_of_last last) ∙ p))
        (All-last? (λ f. HasHead s f.hash log.entries) (shard_entries log.entries s) e
          (All-shard_entries (λ f. HasHead s f.hash log.entries) s log.entries
            (present_rows s log.entries))
          last)
]

found_head :
    (log : Log) (s : ℕ) (ss : List ℕ) (h : String)
    → elim (find (λ r. eqb r.shard_id s) (map (head_record log) ss)) [
      | none ↦ none
      | some r ↦ r.head_hash
    ]
      ≡ some h
    → shard_head log s ≡ some h
found_head log s [] h p = absurd (cc)
found_head log s (t ∷ ss) h p = elim (Bool-cases (eqb t s)) [
  | inl same ↦ subst (λ u. shard_head log u ≡ some h) ((eqb_iff t s).0 same) (ground arith)
  | inr other ↦ found_head log s ss h (ground arith)
]

-- What a roll records of a shard is the head of the shard at the time.
new_root-head :
    (w : World) (c : Option String) (log : Log) (s : ℕ) (h : String)
    → recorded_head (new_root w c log) s ≡ some h
    → shard_head log s ≡ some h
unfolding recorded_head new_root current_shard_heads
new_root-head w c log s h p = found_head log s shards h p

-- The heads that the rolls recorded are still there.
abbrev NoneGone : ℕ → AuditDb → Type 0
NoneGone s db = All (Agrees db.log.entries s) db.chain_roots

NoneGone-roll :
    (w : World) (c : Option String) (s : ℕ) (db : AuditDb)
    → NoneGone s db
    → All (Agrees db.log.entries s) (db.chain_roots ++ new_root w c db.log ∷ [])
NoneGone-roll w c s db a =
    All-append (Agrees db.log.entries s) db.chain_roots (new_root w c db.log ∷ []) a
      (λ h p. head_present s db.log h (new_root-head w c db.log s h p), tt)

NoneGone-act :
    (w : World) (s : ℕ) (db : AuditDb) (a : Action) → NoneGone s db → NoneGone s (act w db a)
unfolding act append perform_roll
NoneGone-act w s db (appended r) a =
    All-map (Agrees db.log.entries s) (Agrees (db.log.entries ++ new_entry w r db.log ∷ []) s)
      db.chain_roots
      (λ roll agree h p.
        still_present-append s h db.log.entries (new_entry w r db.log ∷ []) (agree h p))
      a
NoneGone-act w s db (rolled witness signer c false) a = NoneGone-roll w c s db a
NoneGone-act w s db (rolled witness signer c true) a = NoneGone-roll w c s db a

NoneGone-act_all :
    (w : World) (s : ℕ) (db : AuditDb) (actions : List Action)
    → NoneGone s db
    → NoneGone s (act_all w db actions)
unfolding act_all
NoneGone-act_all w s db [] a = a
NoneGone-act_all w s db (x ∷ xs) a = NoneGone-act_all w s (act w db x) xs (NoneGone-act w s db x a)

-- A database to which the program alone has written, by appending entries and rolling roots in any
-- order and with any readings of the clock, shows no tamper window in any shard.
pub bound_tamper_window-act_all :
    (w : World) (actions : List Action) (s : ℕ)
    → let db = act_all w empty_db actions in bound_tamper_window w db.log db.chain_roots s ≡ none
bound_tamper_window-act_all w actions s =
    let db = act_all w empty_db actions in
    bound_tamper_window-none w db.log db.chain_roots s (NoneGone-act_all w s empty_db actions tt)
