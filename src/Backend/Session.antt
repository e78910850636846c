-- ===== src/Backend/Session.antt =====
-- The session: the tables of the database, and actions on it that may raise. What was written before
-- a raise stays in the session; whoever owns the session commits it or rolls it back.
pub mod ReadsOnly
use land_record_digitalizati.Prelude.{
  ℕ, ◌+◌, String, Bool, true, false, Option, none, some, List, [], ◌∷◌, ◌++◌, map, filter, any,
  ◌==◌, ◌||◌, if◌then◌else◌,
}
use land_record_digitalizati.Audit.World.{World}
use land_record_digitalizati.Audit.Chain.{Log, Request, append}
use land_record_digitalizati.Backend.Entities.{
  Batch, SourceDocument, Page, Extraction, DecisionRecord, ReviewTask, AuditSample, Conflict,
  OperationalAlert, Correction, PendingCorrection, ReviewSession, VolumeIndex, Record,
}

pub record Session : Type 0 where
  pub log : Log
  pub batches : List Batch
  pub documents : List SourceDocument
  pub pages : List Page
  pub extractions : List Extraction
  pub decisions : List DecisionRecord
  pub review_tasks : List ReviewTask
  pub audit_samples : List AuditSample
  pub conflicts : List Conflict
  pub alerts : List OperationalAlert
  pub corrections : List Correction
  pub pending : List PendingCorrection
  pub review_sessions : List ReviewSession
  pub volume_indexes : List VolumeIndex
  pub records : List Record

-- Why a publication is blocked (publication_gate.py): the code, and its detail.
pub data BlockReason : Type 0 where
  volume_gap : String → List ℕ → BlockReason
  open_conflict : String → List String → List String → BlockReason

-- The exceptions of the modelled code, by their classes.
pub data Error : Type 0 where
  key_error value_error attribute_error multiple_results_found : Error
  extraction_not_found unroutable_extraction already_decided_with_different_outcome : Error
  same_actor_cannot_confirm pending_correction_already_resolved : Error
  review_task_not_claimable not_the_claimant : Error
  invalid_conflict_transition : Error
  publish_blocked : List BlockReason → Error

pub data Result (A : Type 0) : Type 0 where
  ok : A → Result A
  err : Error → Result A

abbrev pub M : Type 0 → Type 0
M A = Session → Result A × Session

module _ {A : Type 0} where
  abbrev pub pure : A → M A
  pure a s = (ok a, s)

  abbrev pub raise : Error → M A
  raise e s = (err e, s)

  abbrev pub gets : (Session → A) → M A
  gets f s = (ok (f s), s)

  abbrev pub or_raise : Error → Option A → M A
  or_raise e none = raise e
  or_raise e (some a) = pure a

infixl 5 ◌>>=◌ ◌>>◌
abbrev pub ◌>>=◌ : {A B : Type 0} → M A → (A → M B) → M B
◌>>=◌ m f s = let (r, s') = m s in elim r [ ok a ↦ f a s' | err e ↦ raise e s' ]

abbrev pub ◌>>◌ : {A B : Type 0} → M A → M B → M B
m >> k = m >>= λ _. k

abbrev pub modify : (Session → Session) → M (Unit {0})
modify f s = (ok tt, f s)

abbrev pub raise_if : Bool → Error → M (Unit {0})
raise_if c e s = (if c then err e else ok tt, s)

-- A row that is unique among those that a query finds, as `scalar_one_or_none` has it.
unfoldable pub one_or_none : {A : Type 0} → List A → M (Option A)
one_or_none [] = pure none
one_or_none (x ∷ []) = pure (some x)
one_or_none (x ∷ y ∷ rest) = raise multiple_results_found

-- The keyword arguments of `landaudit.append` that a caller leaves out are `None`.
abbrev pub entry : String → String → Option String → Option String → Request
entry actor action subject purpose = record {
  actor = actor;
  action = action;
  subject = subject;
  purpose = purpose;
  value_hash = none;
  shard_id = none;
  shard_key = none;
  district = none;
}

abbrev pub with_log : Log → Session → Session
with_log log s = record s { log = log }

unfoldable pub audit_append : World → Request → M (Unit {0})
audit_append w r s = (ok tt, with_log (append w r s.log).1 s)

-- One reading of the clock and of the identifiers, for the row that is added next.
unfoldable pub fresh : M ℕ
fresh s = (ok s.log.ticks, with_log (record s.log { ticks = s.log.ticks + 1 }) s)

abbrev pub contains : String → List String → Bool
contains x = any (λ y. y == x)
