-- ===== src/Service/Outcome.antt =====
-- The counters of a job and its terminal status, against the documents that they summarise.
use researchhub_engine.Prelude.{
  ◌+◌, ◌≤◌, ◌≡◌, ◌≢◌, ◌↔◌, ◌⊎◌, inl, inr, refl, ◌||◌, Bool, true, false, List, [], ◌∷◌, arith, All,
  length,
}
use researchhub_engine.Schemas.{ResearchJobStatus, ResearchDocStatus}
use researchhub_engine.Models.{ResearchJob, ResearchDocument}
use researchhub_engine.Repository.{Db, is_failed, list_for_job}
use researchhub_engine.Service.{
  is_uploaded, is_skipped, is_fetched, count_status, recalc_job_counters, status_of_documents,
  resolve_job_terminal_status,
}

-- A document that needs no more work: it was fetched, uploaded, failed or skipped.
abbrev pub is_settled : ResearchDocStatus → Bool
is_settled ResearchDocStatus.fetched = true
is_settled ResearchDocStatus.uploaded = true
is_settled ResearchDocStatus.failed = true
is_settled ResearchDocStatus.skipped = true
is_settled _ = false

abbrev pub AllSettled : List ResearchDocument → Type 0
AllSettled = All (λ (d : ResearchDocument). is_settled d.status ≡ true)

-- The counters of a job are within their bounds: no document is counted twice.
pub record HasBounds (job : ResearchJob) : Type 0 where
  pub uploaded_within : job.uploaded_documents ≤ job.fetched_documents
  pub within_total :
      job.fetched_documents + job.failed_documents + job.cancelled_documents ≤ job.total_documents

counted_once :
    (docs : List ResearchDocument)
    → count_status is_fetched docs + count_status is_failed docs + count_status is_skipped docs
      ≤ length docs
counted_once [] = omega arith
counted_once (d ∷ docs) = ground (arith, counted_once docs)

counted_all :
    (docs : List ResearchDocument)
    → AllSettled docs
    → count_status is_fetched docs + count_status is_failed docs + count_status is_skipped docs
      ≡ length docs
counted_all [] h = omega arith
counted_all (d ∷ docs) h = ground (arith, counted_all docs h.1)

uploaded-le-fetched :
    (docs : List ResearchDocument) → count_status is_uploaded docs ≤ count_status is_fetched docs
uploaded-le-fetched [] = omega arith
uploaded-le-fetched (d ∷ docs) = ground (arith, uploaded-le-fetched docs)

-- Whatever the documents, the recomputed counters are within bounds.
pub recalc_job_counters-HasBounds :
    (job : ResearchJob) (docs : List ResearchDocument) → HasBounds (recalc_job_counters job docs)
unfolding recalc_job_counters
recalc_job_counters-HasBounds job docs = record {
  uploaded_within = uploaded-le-fetched docs;
  within_total = counted_once docs;
}

-- Once every document is settled, each is counted exactly once.
pub recalc_job_counters_total :
    (job : ResearchJob) (docs : List ResearchDocument)
    → AllSettled docs
    → let j = recalc_job_counters job docs in
      j.fetched_documents + j.failed_documents + j.cancelled_documents ≡ j.total_documents
unfolding recalc_job_counters
recalc_job_counters_total job docs h = counted_all docs h

abbrev pub NoneFailed : List ResearchDocument → Type 0
NoneFailed = All (λ (d : ResearchDocument). is_failed d.status ≡ false)

-- Every document failed or was skipped.
abbrev pub AllLost : List ResearchDocument → Type 0
AllLost = All (λ (d : ResearchDocument). is_failed d.status || is_skipped d.status ≡ true)

count-zero_of_NoneFailed :
    (docs : List ResearchDocument) → NoneFailed docs → count_status is_failed docs ≡ 0
count-zero_of_NoneFailed [] h = omega arith
count-zero_of_NoneFailed (d ∷ docs) h = ground (arith, count-zero_of_NoneFailed docs h.1)

NoneFailed-count_status :
    (docs : List ResearchDocument) → count_status is_failed docs ≡ 0 → NoneFailed docs
NoneFailed-count_status [] h = tt
NoneFailed-count_status (d ∷ docs) h = ground (arith, NoneFailed-count_status docs)

count-all_of_AllLost :
    (docs : List ResearchDocument)
    → AllLost docs
    → count_status is_failed docs + count_status is_skipped docs ≡ length docs
count-all_of_AllLost [] h = omega arith
count-all_of_AllLost (d ∷ docs) h = ground (arith, count-all_of_AllLost docs h.1)

AllLost-count_status :
    (docs : List ResearchDocument)
    → length docs ≤ count_status is_failed docs + count_status is_skipped docs
    → AllLost docs
AllLost-count_status [] h = tt
AllLost-count_status (d ∷ docs) h = ground (arith, AllLost-count_status docs, counted_once docs)

-- The status of a list of documents is one of three. It is `completed` exactly when there are
-- documents and none failed.
pub status-completed_iff :
    (docs : List ResearchDocument)
    → (status_of_documents docs ≡ ResearchJobStatus.completed) ↔ ((docs ≢ []) × NoneFailed docs)
unfolding status_of_documents
status-completed_iff [] = (cc, λ h. absurd (h.0 refl))
status-completed_iff (d ∷ docs) = (
  λ e. (cc, NoneFailed-count_status (d ∷ docs) (ground arith)),
  λ h. ground (arith, count-zero_of_NoneFailed (d ∷ docs) h.1),
)

-- It is `failed` exactly when there is no document, or one failed and all failed or were skipped.
pub status-failed_iff :
    (docs : List ResearchDocument)
    → (status_of_documents docs ≡ ResearchJobStatus.failed)
      ↔ ((docs ≡ []) ⊎ ((¬ NoneFailed docs) × AllLost docs))
unfolding status_of_documents
status-failed_iff [] = (λ e. inl refl, λ h. refl)
status-failed_iff (d ∷ docs) = (
  λ e. inr (
    λ h. ground (arith, count-zero_of_NoneFailed (d ∷ docs) h),
    AllLost-count_status (d ∷ docs) (ground arith),
  ),
  λ h. ground (arith, NoneFailed-count_status (d ∷ docs), count-all_of_AllLost (d ∷ docs)),
)

-- It is `partial` exactly when one failed and another neither failed nor was skipped.
pub status-partial_iff :
    (docs : List ResearchDocument)
    → (status_of_documents docs ≡ ResearchJobStatus.partial)
      ↔ ((¬ NoneFailed docs) × (¬ AllLost docs))
unfolding status_of_documents
status-partial_iff [] = (cc, λ h. absurd (h.0 tt))
status-partial_iff (d ∷ docs) = (
  λ e. (
    λ h. ground (arith, count-zero_of_NoneFailed (d ∷ docs) h),
    λ h. ground (arith, count-all_of_AllLost (d ∷ docs) h),
  ),
  λ h.
      ground (arith, h.0, h.1, NoneFailed-count_status (d ∷ docs), AllLost-count_status (d ∷ docs)),
)

pub resolve_of_documents :
    (db : Db) (job : ResearchJob)
    → job.status ≢ ResearchJobStatus.cancelling
    → resolve_job_terminal_status db job ≡ status_of_documents (list_for_job db job.id)
unfolding resolve_job_terminal_status
resolve_of_documents db job h = ground arith

-- A job that is not being cancelled ends as completed exactly when it has documents of which none
-- failed; as partial exactly when one failed and another neither failed nor was skipped; and as
-- failed exactly when it has no document, or one failed and all failed or were skipped.
pub resolve_job_terminal_status_iff :
    (db : Db) (job : ResearchJob)
    → job.status ≢ ResearchJobStatus.cancelling
    → let docs = list_for_job db job.id in
      let s = resolve_job_terminal_status db job in
      ((s ≡ ResearchJobStatus.completed) ↔ ((docs ≢ []) × NoneFailed docs))
      × ((s ≡ ResearchJobStatus.partial) ↔ ((¬ NoneFailed docs) × (¬ AllLost docs)))
      × ((s ≡ ResearchJobStatus.failed) ↔ ((docs ≡ []) ⊎ ((¬ NoneFailed docs) × AllLost docs)))
resolve_job_terminal_status_iff db job h = rw (resolve_of_documents db job h) (
  status-completed_iff (list_for_job db job.id),
  status-partial_iff (list_for_job db job.id),
  status-failed_iff (list_for_job db job.id),
)
