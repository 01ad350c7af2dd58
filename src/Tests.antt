-- ===== src/Tests.antt =====
-- The concrete data of the tests: an order, a service whose source always has a link, a job with two
-- documents, and databases around it.
pub mod Runs
pub mod Calls
pub mod Sources
pub mod Retries
pub mod Creation
pub mod Orders
pub mod Access
pub mod Consistency
pub mod Pipeline
pub mod Parcels
pub mod Router
use researchhub_engine.Prelude.{Bool, ℕ, String, Option, none, some, List, [], ◌∷◌, inr, true, ◌⊎◌}
use researchhub_engine.Schemas.{ResearchJobStatus, ResearchDocStatus}
use researchhub_engine.Models.{
  Uuid, Time, ResearchJob, ResearchDocument, OrderData, FetchedDocument,
}
use researchhub_engine.Repository.{Db, new_job, new_document}
use researchhub_engine.World.{World, ResearchService}

abbrev pub order : OrderData
order = record {
  id = 7;
  address_line_1 = "123 Main St";
  address_line_2 = none;
  city = some "Orlando";
  state = some "FL";
  zip_code = none;
  county = some "Orange";
  parcel_id = none;
  lat = none;
  lon = none;
  survey_type = none;
}

abbrev pub fetched_link : String → FetchedDocument
fetched_link doc_type = record {
  doc_type = doc_type;
  status = ResearchDocStatus.fetched;
  summary = "Open the county site";
  link = "https://county.example";
  link_label = "County";
  file_key = none;
  file_name = none;
  file_size = none;
  sha256 = "";
  mime_type = none;
  file_id = none;
  order_file_id = none;
  provenance = [];
  warnings = [];
  error_code = none;
  error_message = none;
  retryable = true;
}

-- the source answers for the parcel record only
abbrev pub provider : Uuid → Uuid → Option OrderData
provider order_id tenant_id = some order

abbrev pub service : ResearchService
service = record {
  order_provider = some provider;
  document_fetcher =
      λ o types tenant_id. inr (("PARCEL_RECORD", fetched_link "PARCEL_RECORD") ∷ []);
  enqueue = some (λ task. true);
}

abbrev pub clock : ℕ → Time
clock i = i

abbrev pub unchanged : ℕ → Db → Db
unchanged i db = db

abbrev pub two_types : List String
two_types = "PARCEL_RECORD" ∷ "NGS_CONTROL" ∷ []

abbrev pub job_as : ResearchJobStatus → ResearchJob
job_as status = record {
  id = 1;
  tenant_id = 2;
  order_id = 7;
  idempotency_key = 5;
  requested_doc_types = two_types;
  status = status;
  total_documents = 2;
  fetched_documents = 0;
  uploaded_documents = 0;
  failed_documents = 0;
  cancelled_documents = 0;
  started_at = some 3;
  completed_at = none;
  error_code = none;
  error_message = none;
  cancel_reason = none;
  callback_url = none;
  callback_delivered = Bool.false;
  created_at = 0;
  created_by = some 9;
  deleted_at = none;
}

abbrev pub document_as : Uuid → String → ResearchDocStatus → ResearchDocument
document_as id doc_type status = record {
  id = id;
  job_id = 1;
  order_id = 7;
  doc_type = doc_type;
  status = status;
  source_outcome = none;
  confidence = none;
  file_id = none;
  order_file_id = none;
  summary = "";
  link = "";
  link_label = "";
  provenance = [];
  warnings = [];
  error_code = none;
  error_message = none;
  retryable = true;
  retry_count = 0;
  fetched_at = none;
  uploaded_at = none;
  created_at = 0;
  deleted_at = none;
}

abbrev pub two_documents : ResearchDocStatus → ResearchDocStatus → List ResearchDocument
two_documents a b = document_as 10 "PARCEL_RECORD" a ∷ document_as 11 "NGS_CONTROL" b ∷ []

abbrev pub db_as : ResearchJobStatus → ResearchDocStatus → ResearchDocStatus → Db
db_as status a b = record { jobs = job_as status ∷ []; documents = two_documents a b }

abbrev pub world_as : ResearchJobStatus → World
world_as status = record {
  db = db_as status ResearchDocStatus.queued ResearchDocStatus.queued;
  queue = [];
  drawn = 100;
}
