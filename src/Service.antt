-- ===== src/Service.antt =====
-- backend/app/engine/service.py. Each method of `ResearchService` is a call that may raise.
-- Here: the counters and the terminal status of a job, and the methods that read and assign a job.
-- `create_job` and `retry_job` are in the child Creation.
pub mod Creation
pub mod Idempotency
pub mod Outcome
pub mod Lifecycle
pub mod Retries
pub mod Success
use researchhub_engine.Prelude.{
  ℕ, String, ◌-◌, Bool, true, false, Option, none, some, List, if◌then◌else◌, ◌==◌, str_eq, not,
  length, count_by,
}
use researchhub_engine.Schemas.{ResearchJobStatus, ResearchDocStatus}
use researchhub_engine.Errors.{
  Raised, engine, order_not_found, order_not_researchable, job_not_found, job_not_cancellable,
}
use researchhub_engine.Models.{Uuid, ResearchJob, ResearchDocument, OrderData}
use researchhub_engine.Repository.{
  Db, is_queued, is_failed, get, list_for_order, update_job, list_for_job,
}
use researchhub_engine.World.{
  Result, ok, err, M, pure, gets, or_raise, modify_db, ◌>>=◌, ◌>>◌, guard, ResearchService,
}

abbrev pub is_uploaded : ResearchDocStatus → Bool
is_uploaded ResearchDocStatus.uploaded = true
is_uploaded _ = false

abbrev pub is_skipped : ResearchDocStatus → Bool
is_skipped ResearchDocStatus.skipped = true
is_skipped _ = false

abbrev pub is_fetched : ResearchDocStatus → Bool
is_fetched ResearchDocStatus.fetched = true
is_fetched ResearchDocStatus.uploaded = true
is_fetched _ = false

-- `sum(p(d.status) for d in docs)`
abbrev pub count_status : (ResearchDocStatus → Bool) → List ResearchDocument → ℕ
count_status p = count_by (λ (d : ResearchDocument). p d.status)

unfoldable pub recalc_job_counters : ResearchJob → List ResearchDocument → ResearchJob
recalc_job_counters job docs = record job {
  total_documents = length docs;
  fetched_documents = count_status is_fetched docs;
  uploaded_documents = count_status is_uploaded docs;
  failed_documents = count_status is_failed docs;
  cancelled_documents = count_status is_skipped docs;
}

-- the part of `resolve_job_terminal_status` after the query; the subtraction cannot go below zero
unfoldable pub status_of_documents : List ResearchDocument → ResearchJobStatus
status_of_documents docs =
    let total = length docs in
    let failed = count_status is_failed docs in
    let uploaded_ok = total - failed - count_status is_skipped docs in
    if total == 0
    then ResearchJobStatus.failed
    else if failed == 0
    then ResearchJobStatus.completed
    else if uploaded_ok == 0
    then ResearchJobStatus.failed
    else ResearchJobStatus.partial

unfoldable pub resolve_job_terminal_status : Db → ResearchJob → ResearchJobStatus
unfolding status_of_documents list_for_job
resolve_job_terminal_status db job = elim job.status [
  | ResearchJobStatus.cancelling ↦ ResearchJobStatus.cancelled
  | _ ↦ status_of_documents (list_for_job db job.id)
]

-- `original.status not in (completed, partial, failed, cancelled)` is the negation
abbrev pub is_retryable : ResearchJobStatus → Bool
is_retryable ResearchJobStatus.completed = true
is_retryable ResearchJobStatus.partial = true
is_retryable ResearchJobStatus.failed = true
is_retryable ResearchJobStatus.cancelled = true
is_retryable _ = false

abbrev pub is_cancellable : ResearchJobStatus → Bool
is_cancellable ResearchJobStatus.queued = true
is_cancellable ResearchJobStatus.running = true
is_cancellable ResearchJobStatus.cancelling = true
is_cancellable _ = false

abbrev pub is_reviewable : ResearchJobStatus → Bool
is_reviewable ResearchJobStatus.completed = true
is_reviewable ResearchJobStatus.partial = true
is_reviewable _ = false

abbrev pub is_reviewed : ResearchJobStatus → Bool
is_reviewed ResearchJobStatus.reviewed = true
is_reviewed _ = false

-- `_resolve_order`, which only reads: the check of the address, after the order was found, after the
-- provider was
unfoldable pub with_address : OrderData → Result OrderData
with_address order =
    if str_eq order.address_line_1 ""
    then err (engine (order_not_researchable "Order has no address — cannot research"))
    else ok order

unfoldable pub found_order : Uuid → Option OrderData → Result OrderData
unfolding with_address
found_order order_id none = err (engine (order_not_found (some order_id)))
found_order order_id (some order) = with_address order

unfoldable pub resolve_order :
    Option (Uuid → Uuid → Option OrderData) → Uuid → Uuid → Result OrderData
unfolding found_order
resolve_order none tenant_id order_id =
    err (engine (order_not_researchable "Order provider not configured"))
resolve_order (some provider) tenant_id order_id =
    found_order order_id (provider order_id tenant_id)

unfoldable pub get_job : Uuid → Uuid → M ResearchJob
get_job tenant_id job_id w = or_raise (get w.db job_id tenant_id) (job_not_found (some job_id)) w

unfoldable pub list_order_jobs : Uuid → Uuid → M (List ResearchJob)
list_order_jobs tenant_id order_id = gets (λ w. list_for_order w.db order_id tenant_id)

-- An assignment to columns of a job, saved and committed; `db.refresh` reads the row back.
unfoldable pub commit_job : Uuid → Uuid → (ResearchJob → ResearchJob) → M ResearchJob
unfolding get_job
commit_job tenant_id job_id f = do modify_db (update_job job_id f); get_job tenant_id job_id

-- the status that `cancel_job` assigns
abbrev pub cancelled_from : ResearchJobStatus → ResearchJobStatus
cancelled_from status =
    if is_queued status then ResearchJobStatus.cancelled else ResearchJobStatus.cancelling

-- `if reason: job.cancel_reason = reason`
abbrev pub reason_or : Option String → Option String → Option String
reason_or none old = old
reason_or (some r) old = if str_eq r "" then old else some r

unfoldable pub cancel_job : Uuid → Uuid → Option String → M ResearchJob
unfolding get_job commit_job
cancel_job tenant_id job_id reason = do
  job ← get_job tenant_id job_id
  guard (is_cancellable job.status) (job_not_cancellable "Job is not cancellable")
  commit_job tenant_id job_id λ r. record r {
    status = cancelled_from job.status;
    cancel_reason = reason_or reason r.cancel_reason;
    completed_at = none;
  }

unfoldable pub mark_reviewed : Uuid → Uuid → M ResearchJob
unfolding get_job commit_job
mark_reviewed tenant_id job_id = do
  job ← get_job tenant_id job_id
  guard (is_reviewable job.status)
      (order_not_researchable "Only completed/partial jobs can be marked reviewed")
  commit_job tenant_id job_id λ r. record r { status = ResearchJobStatus.reviewed }

unfoldable pub archive_job : Uuid → Uuid → M ResearchJob
unfolding get_job commit_job
archive_job tenant_id job_id = do
  job ← get_job tenant_id job_id
  guard (is_reviewed job.status) (order_not_researchable "Only reviewed jobs can be archived")
  commit_job tenant_id job_id λ r. record r { status = ResearchJobStatus.archived }
