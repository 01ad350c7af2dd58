-- ===== src/Mappers.antt =====
-- backend/app/engine/mappers.py with `get_file_reference` of backend/app/engine/evidence_source.py,
-- and the response schemas of backend/app/engine/schemas.py. The column `updated_at`, which no code
-- of the engine reads or assigns, is left out; no code deletes a file row. `text_of` prints a UUID.
pub mod Codes
use Prim.Native.String
use researchhub_engine.Prelude.{
  ℕ, String, Bool, true, false, ◌==◌, Option, none, some, List, [], ◌∷◌, map, str_eq, if◌then◌else◌,
  or_else, find_by,
}
use researchhub_engine.Contracts.{SourceOutcome, Confidence, ProvenanceRecord}
use researchhub_engine.Schemas.{ResearchJobStatus, ResearchDocStatus, ResearchErrorCode, value}
use researchhub_engine.Models.{Uuid, Time, ResearchJob, ResearchDocument}
use researchhub_engine.Repository.{Db, list_for_job}
use researchhub_engine.Adapters.{File}
use ResearchErrorCode.{
  order_not_found, order_not_researchable, invalid_doc_types, job_not_found, job_not_retryable,
  job_not_cancellable, idempotency_conflict, missing_address, geocode_failed, parcel_not_found,
  deed_unavailable, plat_unavailable, flood_unavailable, appraiser_unavailable, source_unavailable,
  s3_upload_failed, timeout, internal_error, rate_limited,
}

pub record FileReference : Type 0 where
  pub file_id : Uuid
  pub order_file_id : Uuid
  pub key : String
  pub filename : String
  pub size_bytes : ℕ
  pub sha256 : String
  pub mime_type : String

pub record DocumentSchema : Type 0 where
  pub id : Uuid
  pub doc_type : String
  pub status : ResearchDocStatus
  pub source_outcome : Option SourceOutcome
  pub confidence : Option Confidence
  pub file : Option FileReference
  pub summary : String
  pub link : String
  pub link_label : String
  pub provenance : List ProvenanceRecord
  pub warnings : List String
  pub error_code : Option ResearchErrorCode
  pub error_message : Option String
  pub retryable : Bool
  pub retry_count : ℕ
  pub fetched_at : Option Time

pub record JobSchema : Type 0 where
  pub id : Uuid
  pub order_id : Uuid
  pub status : ResearchJobStatus
  pub requested_doc_types : List String
  pub total_documents : ℕ
  pub fetched_documents : ℕ
  pub uploaded_documents : ℕ
  pub failed_documents : ℕ
  pub cancelled_documents : ℕ
  pub documents : List DocumentSchema
  pub started_at : Option Time
  pub completed_at : Option Time
  pub created_at : Time
  pub created_by : Uuid
  pub error_code : Option ResearchErrorCode
  pub error_message : Option String
  pub cancel_reason : Option String

pub record JobSummary : Type 0 where
  pub id : Uuid
  pub order_id : Uuid
  pub status : ResearchJobStatus
  pub total_documents : ℕ
  pub fetched_documents : ℕ
  pub uploaded_documents : ℕ
  pub failed_documents : ℕ
  pub cancelled_documents : ℕ
  pub created_at : Time
  pub completed_at : Option Time
  pub cancel_reason : Option String

-- the members of the enumeration, in its order
abbrev pub error_codes : List ResearchErrorCode
error_codes =
    order_not_found ∷ order_not_researchable ∷ invalid_doc_types ∷ job_not_found ∷ job_not_retryable
    ∷ job_not_cancellable ∷ idempotency_conflict ∷ missing_address ∷ geocode_failed
    ∷ parcel_not_found ∷ deed_unavailable ∷ plat_unavailable ∷ flood_unavailable
    ∷ appraiser_unavailable ∷ source_unavailable ∷ s3_upload_failed ∷ timeout ∷ internal_error
    ∷ rate_limited ∷ []

-- `_to_error_code`, where a text that is no member's value gives `None`
unfoldable pub to_error_code : String → Option ResearchErrorCode
unfolding value
to_error_code v = find_by (λ c. str_eq v (value c)) error_codes

-- `_to_error_code(x) if x else None`
abbrev pub stored_code : Option String → Option ResearchErrorCode
stored_code none = none
stored_code (some v) = if str_eq v "" then none else to_error_code v

-- `a or b`, for texts
abbrev pub text_or : String → String → String
text_or a b = if str_eq a "" then b else a

module _ (text_of : Uuid → String) (files : List File) where
  -- `get_file_reference`
  abbrev pub get_file_reference : Uuid → Option File
  get_file_reference file_id = find_by (λ (f : File). f.id == file_id) files

  unfoldable pub s3_key : ResearchDocument → Uuid → String
  s3_key doc file_id = String.◌++◌ "orders/" (
      String.◌++◌ (text_of doc.order_id) (
        String.◌++◌ "/research/" (
          String.◌++◌ (text_of file_id) (String.◌++◌ "/" (text_or doc.link_label "document.pdf")))))

  -- the reference with the metadata of the file's row, or without a row
  abbrev pub reference_of : ResearchDocument → Uuid → Uuid → Option File → FileReference
  reference_of doc file_id order_file_id none = record {
    file_id = file_id;
    order_file_id = order_file_id;
    key = s3_key doc file_id;
    filename = String.◌++◌ doc.doc_type ".pdf";
    size_bytes = 0;
    sha256 = "";
    mime_type = "application/pdf";
  }
  reference_of doc file_id order_file_id (some f) = record {
    file_id = file_id;
    order_file_id = order_file_id;
    key = text_or f.content_key (s3_key doc file_id);
    filename = text_or f.filename (String.◌++◌ doc.doc_type ".pdf");
    size_bytes = f.size;
    sha256 = f.sha256;
    mime_type = text_or f.mime_type "application/pdf";
  }

  abbrev pub file_reference_of : ResearchDocument → Option Uuid → Option Uuid → Option FileReference
  file_reference_of doc (some file_id) (some order_file_id) =
      some (reference_of doc file_id order_file_id (get_file_reference file_id))
  file_reference_of doc (some file_id) none = none
  file_reference_of doc none _ = none

  -- `_to_file_reference`
  unfoldable pub to_file_reference : ResearchDocument → Option FileReference
  unfolding s3_key
  to_file_reference doc = file_reference_of doc doc.file_id doc.order_file_id

  unfoldable pub to_document_schema : ResearchDocument → DocumentSchema
  unfolding to_file_reference to_error_code
  to_document_schema doc = record {
    id = doc.id;
    doc_type = doc.doc_type;
    status = doc.status;
    source_outcome = doc.source_outcome;
    confidence = doc.confidence;
    file = to_file_reference doc;
    summary = doc.summary;
    link = doc.link;
    link_label = doc.link_label;
    provenance = doc.provenance;
    warnings = doc.warnings;
    error_code = stored_code doc.error_code;
    error_message = doc.error_message;
    retryable = doc.retryable;
    retry_count = doc.retry_count;
    fetched_at = doc.fetched_at;
  }

  unfoldable pub to_job_schema : Db → Bool → ResearchJob → JobSchema
  unfolding to_document_schema to_error_code list_for_job
  to_job_schema db with_documents job = record {
    id = job.id;
    order_id = job.order_id;
    status = job.status;
    requested_doc_types = job.requested_doc_types;
    total_documents = job.total_documents;
    fetched_documents = job.fetched_documents;
    uploaded_documents = job.uploaded_documents;
    failed_documents = job.failed_documents;
    cancelled_documents = job.cancelled_documents;
    documents = map to_document_schema (if with_documents then list_for_job db job.id else []);
    started_at = job.started_at;
    completed_at = job.completed_at;
    created_at = job.created_at;
    created_by = or_else job.created_by job.tenant_id;
    error_code = stored_code job.error_code;
    error_message = job.error_message;
    cancel_reason = job.cancel_reason;
  }

unfoldable pub to_job_summary_schema : ResearchJob → JobSummary
to_job_summary_schema job = record {
  id = job.id;
  order_id = job.order_id;
  status = job.status;
  total_documents = job.total_documents;
  fetched_documents = job.fetched_documents;
  uploaded_documents = job.uploaded_documents;
  failed_documents = job.failed_documents;
  cancelled_documents = job.cancelled_documents;
  created_at = job.created_at;
  completed_at = job.completed_at;
  cancel_reason = job.cancel_reason;
}
