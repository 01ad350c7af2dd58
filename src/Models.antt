-- ===== src/Models.antt =====
-- backend/app/engine/models.py, and the two data classes of backend/app/engine/service.py.
-- A UUID and a time are numbers. Of the mixins the columns that the engine reads are kept:
-- `created_at`, `created_by` and `deleted_at`. JSON lists are lists.
use researchhub_engine.Prelude.{ℕ, String, Bool, Option, List}
use researchhub_engine.Contracts.{SourceOutcome, Confidence, ProvenanceRecord}
use researchhub_engine.Schemas.{ResearchJobStatus, ResearchDocStatus, ResearchErrorCode}

abbrev pub Uuid : Type 0
Uuid = ℕ

abbrev pub Time : Type 0
Time = ℕ

pub record ResearchJob : Type 0 where
  pub id : Uuid
  pub tenant_id : Uuid
  pub order_id : Uuid
  pub idempotency_key : Uuid
  pub requested_doc_types : List String
  pub status : ResearchJobStatus
  pub total_documents : ℕ
  pub fetched_documents : ℕ
  pub uploaded_documents : ℕ
  pub failed_documents : ℕ
  pub cancelled_documents : ℕ
  pub started_at : Option Time
  pub completed_at : Option Time
  pub error_code : Option String
  pub error_message : Option String
  pub cancel_reason : Option String
  pub callback_url : Option String
  pub callback_delivered : Bool
  pub created_at : Time
  pub created_by : Option Uuid
  pub deleted_at : Option Time

pub record ResearchDocument : Type 0 where
  pub id : Uuid
  pub job_id : Uuid
  pub order_id : Uuid
  pub doc_type : String
  pub status : ResearchDocStatus
  pub source_outcome : Option SourceOutcome
  pub confidence : Option Confidence
  pub file_id : Option Uuid
  pub order_file_id : Option Uuid
  pub summary : String
  pub link : String
  pub link_label : String
  pub provenance : List ProvenanceRecord
  pub warnings : List String
  pub error_code : Option String
  pub error_message : Option String
  pub retryable : Bool
  pub retry_count : ℕ
  pub fetched_at : Option Time
  pub uploaded_at : Option Time
  pub created_at : Time
  pub deleted_at : Option Time

-- Coordinates are floats that the engine passes on; they are the texts that they print as.
pub record OrderData : Type 0 where
  pub id : Uuid
  pub address_line_1 : String
  pub address_line_2 : Option String
  pub city : Option String
  pub state : Option String
  pub zip_code : Option String
  pub county : Option String
  pub parcel_id : Option String
  pub lat : Option String
  pub lon : Option String
  pub survey_type : Option String

pub record FetchedDocument : Type 0 where
  pub doc_type : String
  pub status : ResearchDocStatus
  pub summary : String
  pub link : String
  pub link_label : String
  pub file_key : Option String
  pub file_name : Option String
  pub file_size : Option ℕ
  pub sha256 : String
  pub mime_type : Option String
  pub file_id : Option Uuid
  pub order_file_id : Option Uuid
  pub provenance : List ProvenanceRecord
  pub warnings : List String
  pub error_code : Option ResearchErrorCode
  pub error_message : Option String
  pub retryable : Bool
