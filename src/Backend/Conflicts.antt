-- ===== src/Backend/Conflicts.antt =====
-- services/backend/src/backend/domain/conflict_register.py and publication_gate.py: the conflicts of
-- records, and the checks before a publication.
pub mod Blocking
use land_record_digitalizati.Prelude.{
  ℕ, String, ◌<>◌, Bool, true, false, not, ◌&&◌, ◌||◌, Option, none, some, List, [], ◌∷◌, ◌++◌, map,
  filter, find, any, ◌==◌, is_some, if◌then◌else◌,
}
use land_record_digitalizati.Audit.World.{World}
use land_record_digitalizati.Audit.Chain.{truthy}
use land_record_digitalizati.Backend.Entities.{Conflict}
use land_record_digitalizati.Backend.Session.{
  Session, Error, M, Result, ok, err, BlockReason, volume_gap, open_conflict, key_error,
  invalid_conflict_transition, publish_blocked, pure, raise, gets, or_raise, raise_if, modify,
  ◌>>=◌, ◌>>◌, entry, audit_append, fresh, contains,
}
use land_record_digitalizati.Backend.Policy.{blocking_conflict_states}
use land_record_digitalizati.Backend.Rows.{update}
use land_record_digitalizati.Backend.Completeness.{CompletenessAlert, current_alert}

-- `CheckFn`
abbrev pub CheckFn : Type 0
CheckFn = Session → String → Option BlockReason

-- Every check runs, and every reason is kept.
unfoldable pub reasons_of : Session → String → List CheckFn → List BlockReason
reasons_of s subject [] = []
reasons_of s subject (check ∷ checks) = elim (check s subject) [
  | none ↦ reasons_of s subject checks
  | some r ↦ r ∷ reasons_of s subject checks
]

pub record GateResult : Type 0 where
  pub blocked : Bool
  pub reasons : List BlockReason

abbrev pub some_reason : List BlockReason → Bool
some_reason [] = false
some_reason (r ∷ rs) = true

unfoldable pub evaluate : Session → String → List CheckFn → GateResult
unfolding reasons_of
evaluate s subject checks = record {
  blocked = some_reason (reasons_of s subject checks);
  reasons = reasons_of s subject checks;
}

unfoldable pub attempt_publish : String → List CheckFn → M GateResult
attempt_publish subject checks = do
  result ← gets (λ s. evaluate s subject checks)
  raise_if result.blocked (publish_blocked result.reasons)
  pure result

abbrev gap_reason : String → Option CompletenessAlert → Option BlockReason
gap_reason batch_id none = none
gap_reason batch_id (some alert) = some (volume_gap batch_id alert.missing_index_positions)

unfoldable pub check_volume_completeness : CheckFn
check_volume_completeness s batch_id = gap_reason batch_id (current_alert s batch_id)

abbrev pub blocks : String → Conflict → Bool
blocks record_id c = contains record_id c.records && contains c.state blocking_conflict_states

abbrev pub conflict_reason : String → List Conflict → Option BlockReason
conflict_reason record_id [] = none
conflict_reason record_id (c ∷ cs) = some (
    open_conflict record_id (map (λ (d : Conflict). d.id) (c ∷ cs))
      (map (λ (d : Conflict). d.rule) (c ∷ cs)))

unfoldable pub check_open_conflict : CheckFn
check_open_conflict s record_id = conflict_reason record_id (filter (blocks record_id) s.conflicts)

unfoldable pub is_publish_blocked : Session → String → Bool
is_publish_blocked s record_id = is_some (check_open_conflict s record_id)

unfoldable pub registered :
    World → List String → String → List (String × String) → String → ℕ → Conflict
registered w records rule evidence origin tick = record {
  id = w.uuid4 tick;
  records = records;
  rule = rule;
  evidence = evidence;
  origin = origin;
  state = "open";
  assignee = none;
  opened_at = w.clock tick;
}

unfoldable pub register_conflict :
    World → List String → String → List (String × String) → String → M Conflict
unfolding fresh
register_conflict w records rule evidence origin = do
  tick ← fresh
  modify (λ s. record s {
    conflicts = s.conflicts ++ registered w records rule evidence origin tick ∷ [];
  })
  audit_append w (entry ("system:" <> origin) "conflict.opened" (some (w.uuid4 tick)) (some rule))
  pure (registered w records rule evidence origin tick)

abbrev pub conflict_of : String → Session → Option Conflict
conflict_of id s = find (λ (c : Conflict). c.id == id) s.conflicts

abbrev pub save_conflict : String → (Conflict → Conflict) → Session → Session
save_conflict id f s = record s { conflicts = update (λ (c : Conflict). c.id) id f s.conflicts }

abbrev pub assigned : String → Conflict → Conflict
assigned assignee c = record c { assignee = some assignee }

unfoldable pub assign : World → String → String → String → M Conflict
assign w conflict_id assignee actor = do
  c ← or_raise key_error (← gets (conflict_of conflict_id))
  modify (save_conflict c.id (assigned assignee))
  audit_append w (entry actor "conflict.assigned" (some c.id) (some assignee))
  pure (assigned assignee c)

abbrev pub valid_states : List String
valid_states = "open" ∷ "under_enquiry" ∷ "resolved" ∷ "referred" ∷ []

abbrev pub moved : String → Conflict → Conflict
moved new_state c = record c { state = new_state }

unfoldable pub transition : World → String → String → String → Option String → M Conflict
transition w conflict_id new_state actor resolution = do
  raise_if (not (contains new_state valid_states)) invalid_conflict_transition
  c ← or_raise key_error (← gets (conflict_of conflict_id))
  raise_if (c.state == new_state) invalid_conflict_transition
  raise_if (new_state == "resolved" && not (truthy resolution)) invalid_conflict_transition
  modify (save_conflict c.id (moved new_state))
  audit_append w (entry actor ("conflict.transitioned." <> new_state) (some c.id) resolution)
  pure (moved new_state c)
