-- ===== src/Backend/Entities.antt =====
-- services/backend/src/backend/models/entities.py: the rows. A time is a number, and an optional
-- column an `Option`. Columns that the modelled code neither reads nor sets are left out.
use land_record_digitalizati.Prelude.{ℕ, String, Bool, Option, List}

-- An integer: a natural number, or one less than the negative of one.
pub data ℤ : Type 0 where
  pos : ℕ → ℤ
  negsuc : ℕ → ℤ

pub record Batch : Type 0 where
  pub id : String
  pub district : String

pub record SourceDocument : Type 0 where
  pub id : String
  pub batch_id : String

pub record Page : Type 0 where
  pub id : String
  pub document_id : String
  pub storage_uri : Option String
  pub index_position : Option ℕ

pub record Extraction : Type 0 where
  pub id : String
  pub page_id : String
  pub field_name : String
  pub raw_value : String
  pub canonical_value : Option String
  -- the text of the box, as an f-string prints it
  pub bbox : String
  pub model_version : Option String
  pub config_version : Option String
  -- only stored and compared
  pub calibrated_confidence : Option String
  pub routing_outcome : Option String
  pub entry_status : String

pub record DecisionRecord : Type 0 where
  pub id : String
  pub extraction_id : String
  pub outcome : String
  pub envelope_id : Option String
  pub decided_at : ℕ

pub record ReviewTask : Type 0 where
  pub id : String
  pub extraction_id : String
  pub reason : Option String
  pub source_stream : String
  pub assignee : Option String
  pub opened_at : ℕ
  pub closed_at : Option ℕ
  pub hour_into_session : Option ℤ

pub record AuditSample : Type 0 where
  pub id : String
  pub extraction_id : String
  pub review_task_id : Option String
  pub model_confidence : Option String
  pub officer_verdict : String
  pub agreed : Option Bool

pub record Conflict : Type 0 where
  pub id : String
  pub records : List String
  pub rule : String
  pub evidence : List (String × String)
  pub origin : String
  pub state : String
  pub assignee : Option String
  pub opened_at : ℕ

pub record OperationalAlert : Type 0 where
  pub id : String
  pub kind : String
  pub cluster_key : String
  pub extraction_ids : List String
  pub opened_at : ℕ

pub record Correction : Type 0 where
  pub id : String
  pub extraction_id : String
  pub crop_uri : String
  pub predicted : String
  pub corrected : String
  pub edit_distance : ℕ
  pub actor : String
  pub model_version : Option String
  pub config_version : Option String
  pub stream : String
  pub source_page_digest : String

pub record PendingCorrection : Type 0 where
  pub id : String
  pub extraction_id : String
  pub crop_uri : String
  pub predicted : String
  pub corrected : String
  pub edit_distance : ℕ
  pub field_class : String
  pub first_actor : String
  pub model_version : Option String
  pub config_version : Option String
  pub stream : String
  pub source_page_digest : String
  pub state : String
  pub confirmed_by : Option String
  pub confirmed_at : Option ℕ
  pub resulting_correction_id : Option String

pub record ReviewSession : Type 0 where
  pub id : String
  pub actor : String
  pub started_at : ℕ
  pub last_activity_at : ℕ
  pub ended_at : Option ℕ

pub record VolumeIndex : Type 0 where
  pub id : String
  pub batch_id : String
  pub expected_sequence : List ℕ
  pub observed_sequence : List ℕ
  pub gaps : List ℕ
  pub state : String

pub record Record : Type 0 where
  pub id : String
  pub record_group_id : String
  pub version : ℕ
  pub parcel_ref : Option String
  pub ulpin : Option String
  pub lgd_codes : Option String
  pub status : String
  pub published_at : ℕ
