-- ===== src/Backend/Correction.antt =====
-- services/backend/src/backend/domain/correction.py: corrections, and the second officer who confirms
-- those that have to be checked.
pub mod Confirming
pub mod Submitting
use land_record_digitalizati.Prelude.{
  ℕ, ◌+◌, String, ◌<>◌, Bool, true, false, not, ◌&&◌, ◌||◌, Option, none, some, List, [], ◌∷◌, ◌++◌,
  map, find, ltb, ◌==◌, if◌then◌else◌, or_empty, same_text, is_some,
}
use land_record_digitalizati.Audit.World.{World}
use land_record_digitalizati.Audit.Chain.{truthy}
use land_record_digitalizati.Backend.Entities.{
  Page, Extraction, Correction, PendingCorrection, ReviewTask,
}
use land_record_digitalizati.Backend.Session.{
  Session, Error, M, Result, ok, err, key_error, value_error, attribute_error,
  same_actor_cannot_confirm, pending_correction_already_resolved, pure, raise, gets, or_raise,
  raise_if, modify, ◌>>=◌, ◌>>◌, entry, audit_append, fresh, contains,
}
use land_record_digitalizati.Backend.Policy.{
  maker_checker_edit_distance_threshold, maker_checker_field_classes,
}
use land_record_digitalizati.Backend.EditDistance.{edit_distance}

-- `rsplit("/", 1)[-1]`: what stands behind the last slash, or the whole text.
unfoldable pub after_slash : String → String → String
after_slash start String.[] = start
after_slash start (String.◌∷◌ c s) =
    let here = after_slash s s in
    let on = after_slash start s in if String.◌∷◌ c String.[] == "/" then here else on

unfoldable pub source_page_digest_for : Page → M String
unfolding after_slash
source_page_digest_for page =
    if truthy page.storage_uri
    then pure (after_slash (or_empty page.storage_uri) (or_empty page.storage_uri))
    else raise value_error

abbrev pub page_of : String → Session → Option Page
page_of id s = find (λ (p : Page). p.id == id) s.pages

-- `extraction.canonical_value or extraction.raw_value`
abbrev pub predicted_of : Extraction → String
predicted_of x = if truthy x.canonical_value then or_empty x.canonical_value else x.raw_value

abbrev pub crop_uri_of : Extraction → String
crop_uri_of x = "/pages/" <> x.page_id <> "/crop?bbox=" <> x.bbox

unfoldable pub needs_maker_checker : Extraction → String → Bool
unfolding edit_distance
needs_maker_checker x corrected =
    contains x.field_name maker_checker_field_classes
    && ltb maker_checker_edit_distance_threshold (edit_distance (predicted_of x) corrected)

unfoldable pub new_pending :
    World → Extraction → String → String → String → String → ℕ → PendingCorrection
new_pending w x corrected actor stream digest tick = record {
  id = w.uuid4 tick;
  extraction_id = x.id;
  crop_uri = crop_uri_of x;
  predicted = predicted_of x;
  corrected = corrected;
  edit_distance = edit_distance (predicted_of x) corrected;
  field_class = x.field_name;
  first_actor = actor;
  model_version = x.model_version;
  config_version = x.config_version;
  stream = stream;
  source_page_digest = digest;
  state = "pending";
  confirmed_by = none;
  confirmed_at = none;
  resulting_correction_id = none;
}

unfoldable pub new_correction :
    World → Extraction → String → String → String → String → ℕ → Correction
new_correction w x corrected actor stream digest tick = record {
  id = w.uuid4 tick;
  extraction_id = x.id;
  crop_uri = crop_uri_of x;
  predicted = predicted_of x;
  corrected = corrected;
  edit_distance = edit_distance (predicted_of x) corrected;
  actor = actor;
  model_version = x.model_version;
  config_version = x.config_version;
  stream = stream;
  source_page_digest = digest;
}

abbrev pub add_pending : PendingCorrection → Session → Session
add_pending p s = record s { pending = s.pending ++ p ∷ [] }

abbrev pub add_correction : Correction → Session → Session
add_correction c s = record s { corrections = s.corrections ++ c ∷ [] }

-- What `submit_correction` returns.
pub data Submitted : Type 0 where
  submitted : Correction → Submitted
  held : PendingCorrection → Submitted

unfoldable pub hold_correction :
    World → Extraction → String → String → String → String → M Submitted
unfolding fresh
hold_correction w x text actor stream digest = do
  tick ← fresh
  modify (add_pending (new_pending w x text actor stream digest tick))
  audit_append w
      (entry actor "correction.pending_maker_checker" (some x.id) (some "maker_checker_hold"))
  pure (held (new_pending w x text actor stream digest tick))

unfoldable pub write_correction :
    World → Extraction → String → String → String → String → M Submitted
unfolding fresh
write_correction w x text actor stream digest = do
  tick ← fresh
  modify (add_correction (new_correction w x text actor stream digest tick))
  audit_append w (entry actor "correction.submitted" (some x.id) (some "review_submit"))
  pure (submitted (new_correction w x text actor stream digest tick))

unfoldable pub store_correction :
    World → Extraction → String → String → String → String → M Submitted
store_correction w x text actor stream digest =
    if needs_maker_checker x text
    then hold_correction w x text actor stream digest
    else write_correction w x text actor stream digest

-- A missing page is `None`, and reading its `storage_uri` raises.
unfoldable pub submit_correction : World → Extraction → String → String → String → M Submitted
submit_correction w x text actor stream = do
  page ← or_raise attribute_error (← gets (page_of x.page_id))
  digest ← source_page_digest_for page
  store_correction w x text actor stream digest

abbrev pub pending_of : String → Session → Option PendingCorrection
pending_of id s = find (λ (p : PendingCorrection). p.id == id) s.pending

-- The assignee of the first task of the extraction.
unfoldable pub claimant_of : String → Session → Option String
claimant_of extraction_id s =
    elim (find (λ (t : ReviewTask). t.extraction_id == extraction_id) s.review_tasks) [
      | none ↦ none
      | some task ↦ task.assignee
    ]

-- `actor == first_actor or (claimant is not None and actor == claimant)`
unfoldable pub same_actor : String → PendingCorrection → Option String → Bool
same_actor actor p claimant = actor == p.first_actor || same_text (some actor) claimant

unfoldable pub confirmed_correction : World → PendingCorrection → String → ℕ → Correction
confirmed_correction w p actor tick = record {
  id = w.uuid4 tick;
  extraction_id = p.extraction_id;
  crop_uri = p.crop_uri;
  predicted = p.predicted;
  corrected = p.corrected;
  edit_distance = p.edit_distance;
  actor = actor;
  model_version = p.model_version;
  config_version = p.config_version;
  stream = p.stream;
  source_page_digest = p.source_page_digest;
}

unfoldable pub resolve : String → ℕ → String → PendingCorrection → PendingCorrection
resolve actor now correction_id p = record p {
  state = "confirmed";
  confirmed_by = some actor;
  confirmed_at = some now;
  resulting_correction_id = some correction_id;
}

abbrev pub update_pending : String → (PendingCorrection → PendingCorrection) → Session → Session
update_pending id f s = record s { pending = map (λ p. if p.id == id then f p else p) s.pending }

unfoldable pub confirm : World → PendingCorrection → String → M Correction
unfolding fresh
confirm w p actor = do
  tick ← fresh
  modify (add_correction (confirmed_correction w p actor tick))
  tick' ← fresh
  modify (update_pending p.id (resolve actor (w.clock tick') (w.uuid4 tick)))
  audit_append w
      (entry actor "correction.confirmed" (some p.extraction_id) (some "maker_checker_confirm"))
  pure (confirmed_correction w p actor tick)

unfoldable pub reject : World → PendingCorrection → String → M Correction
reject w p actor = do
  audit_append w (
      entry actor "correction.confirm_rejected" (some p.extraction_id)
        (some "maker_checker_confirm"))
  raise same_actor_cannot_confirm

unfoldable pub confirm_by : World → PendingCorrection → String → Option String → M Correction
confirm_by w p actor claimant =
    if same_actor actor p claimant then reject w p actor else confirm w p actor

unfoldable pub confirm_pending_correction : World → String → String → M Correction
confirm_pending_correction w pending_id actor = do
  p ← or_raise key_error (← gets (pending_of pending_id))
  raise_if (not (p.state == "pending")) pending_correction_already_resolved
  claimant ← gets (claimant_of p.extraction_id)
  confirm_by w p actor claimant
