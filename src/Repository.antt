-- ===== src/Repository.antt =====
-- backend/app/engine/repository.py over the two tables that it queries. The tables list their rows
-- in the order of their creation, which is what `ORDER BY created_at` asks for; of two rows of one
-- time the earlier insertion comes first.
pub mod Queries
use researchhub_engine.Prelude.{
  ℕ, String, ◌+◌, ◌*◌, Bool, true, false, ◌&&◌, ◌||◌, Option, none, some, List, [], ◌∷◌, ◌++◌,
  reverse, ◌==◌, ltb, if◌then◌else◌, str_eq, is_none, filter_by, find_by, any_by, update_by, length,
}
use researchhub_engine.Schemas.{ResearchJobStatus, ResearchDocStatus}
use researchhub_engine.Models.{Uuid, Time, ResearchJob, ResearchDocument}

pub record Db : Type 0 where
  pub jobs : List ResearchJob
  pub documents : List ResearchDocument

abbrev pub is_queued : ResearchJobStatus → Bool
is_queued ResearchJobStatus.queued = true
is_queued _ = false

abbrev pub is_running : ResearchJobStatus → Bool
is_running ResearchJobStatus.running = true
is_running _ = false

abbrev pub is_failed : ResearchDocStatus → Bool
is_failed ResearchDocStatus.failed = true
is_failed _ = false

-- the WHERE clauses
abbrev pub is_job : Uuid → Uuid → ResearchJob → Bool
is_job job_id tenant_id j = j.id == job_id && j.tenant_id == tenant_id && is_none j.deleted_at

abbrev pub is_keyed : Uuid → Uuid → ResearchJob → Bool
is_keyed key tenant_id j =
    j.idempotency_key == key && j.tenant_id == tenant_id && is_none j.deleted_at

abbrev pub is_document_of : Uuid → ResearchDocument → Bool
is_document_of job_id d = d.job_id == job_id && is_none d.deleted_at

-- `ResearchJobRepository.get`
unfoldable pub get : Db → Uuid → Uuid → Option ResearchJob
get db job_id tenant_id = find_by (is_job job_id tenant_id) db.jobs

unfoldable pub get_by_idempotency : Db → Uuid → Uuid → Option ResearchJob
get_by_idempotency db key tenant_id = find_by (is_keyed key tenant_id) db.jobs

abbrev pub is_ordered : Uuid → Uuid → ResearchJob → Bool
is_ordered order_id tenant_id j =
    j.order_id == order_id && j.tenant_id == tenant_id && is_none j.deleted_at

-- newest first
unfoldable pub list_for_order : Db → Uuid → Uuid → List ResearchJob
list_for_order db order_id tenant_id = reverse (filter_by (is_ordered order_id tenant_id) db.jobs)

-- The row of `ResearchJobRepository.create`, with the defaults of the columns.
unfoldable pub new_job :
    (id order_id tenant_id created_by idempotency_key : Uuid)
    → List String
    → Option String
    → Time
    → ResearchJob
new_job id order_id tenant_id created_by idempotency_key requested_doc_types callback_url now =
    record {
      id = id;
      tenant_id = tenant_id;
      order_id = order_id;
      idempotency_key = idempotency_key;
      requested_doc_types = requested_doc_types;
      status = ResearchJobStatus.queued;
      total_documents = length requested_doc_types;
      fetched_documents = 0;
      uploaded_documents = 0;
      failed_documents = 0;
      cancelled_documents = 0;
      started_at = none;
      completed_at = none;
      error_code = none;
      error_message = none;
      cancel_reason = none;
      callback_url = callback_url;
      callback_delivered = false;
      created_at = now;
      created_by = some created_by;
      deleted_at = none;
    }

-- the constraints of the table: its primary key, and `uq_research_job_idempotency_per_tenant`
abbrev pub job_conflicts : ResearchJob → ResearchJob → Bool
job_conflicts j r =
    r.id == j.id || r.tenant_id == j.tenant_id && r.idempotency_key == j.idempotency_key

-- `db.add(job); db.flush()`: `none` is the IntegrityError.
unfoldable pub insert_job : Db → ResearchJob → Option Db
insert_job db job =
    if any_by (job_conflicts job) db.jobs
    then none
    else some (record db { jobs = db.jobs ++ job ∷ [] })

-- `save` of a job of which the session has assigned the columns that `f` sets: the UPDATE writes
-- these and no other. The source leaves out a column whose value is the one that the session has loaded.
unfoldable pub update_job : Uuid → (ResearchJob → ResearchJob) → Db → Db
update_job job_id f db = record db { jobs = update_by (λ (j : ResearchJob). j.id) job_id f db.jobs }

-- Times count seconds; the cutoff is `now - minutes`, so `created_at < cutoff` is stated by adding.
unfoldable pub list_stale_queued : Db → Time → ℕ → List ResearchJob
list_stale_queued db now minutes =
    filter_by
      (λ j. is_queued j.status && ltb (j.created_at + minutes * 60) now && is_none j.deleted_at)
      db.jobs

-- `ResearchDocumentRepository.list_for_job`
unfoldable pub list_for_job : Db → Uuid → List ResearchDocument
list_for_job db job_id = filter_by (is_document_of job_id) db.documents

unfoldable pub list_failed : Db → Uuid → List ResearchDocument
list_failed db job_id =
    filter_by (λ d. d.job_id == job_id && is_failed d.status && is_none d.deleted_at) db.documents

unfoldable pub new_document : (id job_id order_id : Uuid) → String → Time → ResearchDocument
new_document id job_id order_id doc_type now = record {
  id = id;
  job_id = job_id;
  order_id = order_id;
  doc_type = doc_type;
  status = ResearchDocStatus.queued;
  source_outcome = none;
  confidence = none;
  file_id = none;
  order_file_id = none;
  summary = "";
  link = "";
  link_label = "";
  provenance = [];
  warnings = [];
  error_code = none;
  error_message = none;
  retryable = true;
  retry_count = 0;
  fetched_at = none;
  uploaded_at = none;
  created_at = now;
  deleted_at = none;
}

-- the primary key, and `uq_research_doc_per_job_type`
abbrev pub document_conflicts : ResearchDocument → ResearchDocument → Bool
document_conflicts d r = r.id == d.id || r.job_id == d.job_id && str_eq r.doc_type d.doc_type

unfoldable pub insert_document : Db → ResearchDocument → Option Db
insert_document db doc =
    if any_by (document_conflicts doc) db.documents
    then none
    else some (record db { documents = db.documents ++ doc ∷ [] })

-- The UPDATE for a document object: it writes the columns that the engine assigns after creation,
-- and so neither an identifier nor `doc_type`, `created_at` and `deleted_at`.
abbrev pub write_columns : ResearchDocument → ResearchDocument → ResearchDocument
write_columns doc r = record doc {
  id = r.id;
  job_id = r.job_id;
  order_id = r.order_id;
  doc_type = r.doc_type;
  created_at = r.created_at;
  deleted_at = r.deleted_at;
}

-- `ResearchDocumentRepository.save`
unfoldable pub save_document : ResearchDocument → Db → Db
save_document doc db = record db {
  documents = update_by (λ (d : ResearchDocument). d.id) doc.id (write_columns doc) db.documents;
}
