-- ===== src/Audit/Rollup.antt =====
-- libs/audit/src/landaudit/rollup.py and witness.py: rolling the global root and anchoring it. The
-- object store and the signing key are arguments.
pub mod History
pub mod Fresh
use land_record_digitalizati.Prelude.{
  ℕ, ◌+◌, String, ◌<>◌, Bool, true, false, Option, none, some, List, [], ◌∷◌, ◌++◌, or_empty,
}
use land_record_digitalizati.Audit.World.{World}
use land_record_digitalizati.Audit.Chain.{Log, Request, append}
use land_record_digitalizati.Audit.Merkle.{
  ShardHeadRecord, current_shard_heads, compute_root, roll_global_root,
}
use land_record_digitalizati.Audit.Verify.{ChainRoot}

-- The handle of a key that signs and cannot be exported (kms.py).
pub record SignOnlyKeyHandle : Type 0 where
  pub sign : String → String
  pub key_id : String

pub record WitnessReceipt : Type 0 where
  pub root : String
  pub anchored_at : String
  pub witness : String
  pub witness_reference : String
  pub signature : Option String
  pub kms_key_id : Option String

-- `Witness.anchor`, at a reading of the clock.
abbrev pub Witness : Type 0
Witness = ℕ → String → Option SignOnlyKeyHandle → WitnessReceipt

abbrev pub signature_of : String → Option SignOnlyKeyHandle → Option String
signature_of root none = none
signature_of root (some signer) = some (signer.sign root)

abbrev pub key_id_of : Option SignOnlyKeyHandle → Option String
key_id_of none = none
key_id_of (some signer) = some signer.key_id

-- `put` is the second store's, and returns the key of the object.
unfoldable pub second_store_witness : World → (String → String) → Witness
second_store_witness w put tick root signer =
    let anchored_at = w.isoformat (w.clock tick) in
    let signature = signature_of root signer in
    record {
      root = root;
      anchored_at = anchored_at;
      witness = "second_store";
      witness_reference = put (root <> "|" <> anchored_at <> "|" <> or_empty signature);
      signature = signature;
      kms_key_id = key_id_of signer;
    }

unfoldable pub timestamp_authority_witness : World → Witness
timestamp_authority_witness w tick root signer = record {
  root = root;
  anchored_at = w.isoformat (w.clock tick);
  witness = "timestamp_authority_stub";
  witness_reference = "stub-tsa-token:" <> w.uuid4 tick;
  signature = signature_of root signer;
  kms_key_id = key_id_of signer;
}

-- A row of `anchor_receipt`.
pub record AnchorReceipt : Type 0 where
  pub id : String
  pub chain_root_id : String
  pub receipt : WitnessReceipt

-- The tables of libs/audit.
pub record AuditDb : Type 0 where
  pub log : Log
  pub chain_roots : List ChainRoot
  pub anchor_receipts : List AnchorReceipt

abbrev pub later : ℕ → Log → Log
later n log = record log { ticks = log.ticks + n }

unfoldable pub new_root : World → Option String → Log → ChainRoot
unfolding roll_global_root
new_root w config_version log =
    let (root, heads) = roll_global_root w log in
    record {
      id = w.uuid4 log.ticks;
      root = root;
      rolled_at = w.clock log.ticks;
      shard_heads = heads;
      config_version = config_version;
    }

unfoldable pub perform_roll :
    World
    → Witness
    → Option SignOnlyKeyHandle
    → Option String
    → Bool
    → AuditDb
    → ChainRoot × AuditDb
perform_roll w witness signer config_version false db =
    let row = new_root w config_version db.log in
    (row, record db { log = later 1 db.log; chain_roots = db.chain_roots ++ row ∷ [] })
perform_roll w witness signer config_version true db =
    let row = new_root w config_version db.log in
    let receipt = witness (db.log.ticks + 1) row.root signer in
    (
      row,
      record {
        log = later 3 db.log;
        chain_roots = db.chain_roots ++ row ∷ [];
        anchor_receipts =
            db.anchor_receipts
            ++ record { id = w.uuid4 (db.log.ticks + 2); chain_root_id = row.id; receipt = receipt }
              ∷ [];
      },
    )

-- What the program does to the tables of libs/audit: it appends entries and rolls roots.
pub data Action : Type 0 where
  appended : Request → Action
  rolled : Witness → Option SignOnlyKeyHandle → Option String → Bool → Action

unfoldable pub act : World → AuditDb → Action → AuditDb
act w db (appended r) = record db { log = (append w r db.log).1 }
act w db (rolled witness signer config_version anchor) =
    (perform_roll w witness signer config_version anchor db).1

unfoldable pub act_all : World → AuditDb → List Action → AuditDb
unfolding act
act_all w db [] = db
act_all w db (a ∷ as') = act_all w (act w db a) as'

abbrev pub empty_db : AuditDb
empty_db = record {
  log = record { entries = []; ticks = 0 };
  chain_roots = [];
  anchor_receipts = [];
}
