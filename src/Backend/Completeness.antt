-- ===== src/Backend/Completeness.antt =====
-- services/backend/src/backend/domain/completeness.py: the pages of a volume that are missing.
pub mod Gaps
pub mod Acknowledging
use land_record_digitalizati.Prelude.{
  ℕ, zero, suc, ◌+◌, ◌-◌, String, Bool, true, false, not, ◌&&◌, Option, none, some, List, [], ◌∷◌,
  ◌++◌, map, filter, find, any, last?, length, leb, eqb, ◌==◌, if◌then◌else◌,
}
use land_record_digitalizati.Audit.World.{World}
use land_record_digitalizati.Audit.Merkle.{range_from}
use land_record_digitalizati.Backend.Entities.{Page, SourceDocument, VolumeIndex}
use land_record_digitalizati.Backend.Session.{
  Session, Error, M, Result, ok, err, key_error, value_error, pure, gets, or_raise, raise_if,
  modify, ◌>>=◌, ◌>>◌, entry, audit_append, fresh,
}
use land_record_digitalizati.Backend.Rows.{update}

abbrev placed : ℕ → Page → Page
placed i p = record p { index_position = some i }

unfoldable pub record_index_position : String → ℕ → M (Unit {0})
record_index_position page_id i = do
  page ← or_raise key_error (← gets (λ s. find (λ (p : Page). p.id == page_id) s.pages))
  modify (λ s. record s { pages = update (λ (p : Page). p.id) page.id (placed i) s.pages })

-- The pages of the batch's documents; a page without a document is not joined.
abbrev pub in_batch : Session → String → Page → Bool
in_batch s batch_id p =
    any (λ (d : SourceDocument). d.id == p.document_id && d.batch_id == batch_id) s.documents

abbrev pub positions : List Page → List ℕ
positions [] = []
positions (p ∷ ps) = elim p.index_position [ none ↦ positions ps | some i ↦ i ∷ positions ps ]

abbrev pub insert_position : ℕ → List ℕ → List ℕ
insert_position i [] = i ∷ []
insert_position i (j ∷ js) = if leb i j then i ∷ j ∷ js else j ∷ insert_position i js

-- `sorted`
abbrev pub sorted : List ℕ → List ℕ
sorted [] = []
sorted (i ∷ is) = insert_position i (sorted is)

abbrev pub observed_in : Session → String → List ℕ
observed_in s batch_id = sorted (positions (filter (in_batch s batch_id) s.pages))

abbrev pub among : ℕ → List ℕ → Bool
among i = any (eqb i)

-- `list(range(observed[0], observed[-1] + 1))`, or nothing where nothing was observed.
unfoldable pub expected_of : List ℕ → List ℕ
expected_of [] = []
expected_of (i ∷ is) = elim (last? (i ∷ is)) [ none ↦ [] | some j ↦ range_from i (j + 1 - i) ]

unfoldable pub gaps_of : List ℕ → List ℕ
gaps_of observed = filter (λ i. not (among i observed)) (expected_of observed)

abbrev pub volume_of : String → Session → Option VolumeIndex
volume_of batch_id s = find (λ (v : VolumeIndex). v.batch_id == batch_id) s.volume_indexes

unfoldable pub new_volume : World → String → ℕ → VolumeIndex
new_volume w batch_id tick = record {
  id = w.uuid4 tick;
  batch_id = batch_id;
  expected_sequence = [];
  observed_sequence = [];
  gaps = [];
  state = "pending";
}

unfoldable pub create_volume : World → String → M VolumeIndex
unfolding fresh
create_volume w batch_id = do
  tick ← fresh
  modify (λ s. record s { volume_indexes = s.volume_indexes ++ new_volume w batch_id tick ∷ [] })
  pure (new_volume w batch_id tick)

unfoldable pub get_or_create : World → String → Option VolumeIndex → M VolumeIndex
unfolding create_volume
get_or_create w batch_id none = create_volume w batch_id
get_or_create w batch_id (some v) = pure v

abbrev pub is_empty : List ℕ → Bool
is_empty [] = true
is_empty (i ∷ is) = false

-- The state that `rebuild` leaves.
abbrev pub rebuilt_state : List ℕ → String → String
rebuilt_state observed state =
    if is_empty (gaps_of observed)
    then (if is_empty (expected_of observed) then "pending" else "complete")
    else if state == "acknowledged"
    then state
    else "gap_detected"

unfoldable pub rebuilt : List ℕ → VolumeIndex → VolumeIndex
rebuilt observed v = record v {
  expected_sequence = expected_of observed;
  observed_sequence = observed;
  gaps = gaps_of observed;
  state = rebuilt_state observed v.state;
}

abbrev pub save_volume : String → (VolumeIndex → VolumeIndex) → Session → Session
save_volume id f s = record s {
  volume_indexes = update (λ (v : VolumeIndex). v.id) id f s.volume_indexes;
}

-- A gap that nobody has acknowledged is put on record.
unfoldable pub note_gap : World → String → List ℕ → String → M (Unit {0})
note_gap w batch_id observed state =
    if not (is_empty (gaps_of observed)) && not (state == "acknowledged")
    then audit_append w
        (entry "system:completeness" "volume_index.gap_detected" (some batch_id) (some "FR-ING-08"))
    else pure tt

unfoldable pub rebuild : World → String → M VolumeIndex
unfolding get_or_create
rebuild w batch_id = do
  observed ← gets (λ s. observed_in s batch_id)
  v ← get_or_create w batch_id (← gets (volume_of batch_id))
  modify (save_volume v.id (rebuilt observed))
  note_gap w batch_id observed v.state
  pure (rebuilt observed v)

abbrev pub acknowledged : VolumeIndex → VolumeIndex
acknowledged v = record v { state = "acknowledged" }

unfoldable pub acknowledge_gap : World → String → String → Option String → M VolumeIndex
acknowledge_gap w batch_id actor reason_code = do
  v ← or_raise key_error (← gets (volume_of batch_id))
  raise_if (not (v.state == "gap_detected")) value_error
  modify (save_volume v.id acknowledged)
  audit_append w (entry actor "volume_index.gap_acknowledged" (some batch_id) reason_code)
  pure (acknowledged v)

pub record CompletenessAlert : Type 0 where
  pub batch_id : String
  pub missing_index_positions : List ℕ

abbrev pub alert_of : String → VolumeIndex → Option CompletenessAlert
alert_of batch_id v =
    if is_empty v.gaps
    then none
    else if v.state == "acknowledged"
    then none
    else some (record { batch_id = batch_id; missing_index_positions = v.gaps })

unfoldable pub current_alert : Session → String → Option CompletenessAlert
current_alert s batch_id = elim (volume_of batch_id s) [
  | none ↦ none
  | some v ↦ alert_of batch_id v
]
