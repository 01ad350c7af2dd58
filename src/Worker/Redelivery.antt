-- ===== src/Worker/Redelivery.antt =====
-- What `research_job` of backend/app/engine/worker.py makes of a task that is delivered again after
-- its job has ended.
use researchhub_engine.Prelude.{
  ℕ, ◌≡◌, ◌≢◌, ◌⊎◌, inl, inr, some, Option, arith, HasDistinctKeys, List, length,
}
use researchhub_engine.Schemas.{ResearchJobStatus}
use researchhub_engine.Models.{Uuid, Time, ResearchJob, ResearchDocument, OrderData}
use researchhub_engine.Repository.{Db, get, list_for_job}
use researchhub_engine.World.{ResearchService}
use researchhub_engine.Service.{status_of_documents}
use researchhub_engine.Worker.{RunEnd, returned, completed, retried, research_job}
use researchhub_engine.Worker.Rounds.{id_of, ReturnsSettled}
use researchhub_engine.Worker.Looks.{IsFinalStatus}
use researchhub_engine.Worker.Runs.{IsLeftAlone, RunOk, research_job-RunOk}
use researchhub_engine.Worker.Cancellation.{RowEnds}

-- No run ends in a status that only a person gives.
abbrev pub IsUnreviewed : ResearchJobStatus → Type 0
IsUnreviewed s = (s ≢ ResearchJobStatus.reviewed) × (s ≢ ResearchJobStatus.archived)

status_of_documents-IsUnreviewed :
    (docs : List ResearchDocument) → IsUnreviewed (status_of_documents docs)
unfolding status_of_documents
status_of_documents-IsUnreviewed docs = (λ e. ground arith, λ e. ground arith)

reported :
    (looked : ResearchJobStatus) (docs : List ResearchDocument) (s : ResearchJobStatus)
    → IsFinalStatus looked docs s
    → IsUnreviewed s
reported looked docs s (inl (_, e)) = (λ h. cc, λ h. cc)
reported looked docs s (inr (_, e)) = rw e (status_of_documents-IsUnreviewed docs)

RunOk-RowEnds :
    (tenant_id job_id : Uuid) (clock : ℕ → Time) (n : ℕ) (looked : ResearchJobStatus) (e : RunEnd)
    → RunOk tenant_id job_id clock n looked e
    → RowEnds job_id tenant_id IsUnreviewed e
RunOk-RowEnds tenant_id job_id clock n looked (returned db) h = h
RunOk-RowEnds tenant_id job_id clock n looked (retried db) h = h
RunOk-RowEnds tenant_id job_id clock n looked (completed db job) (_, _, (row, found, reports)) =
    (row, found, reported looked (list_for_job db job_id) row.status reports.status)

-- A task that is delivered again for a job that was reviewed or archived runs the job again, under
-- the conditions of any run, and the job is neither reviewed nor archived afterwards.
pub reviewed_job_reruns :
    (service : ResearchService) (tenant_id : Uuid) (clock : ℕ → Time) (others : ℕ → Db → Db)
    (job_id : Uuid) (db : Db) (job : ResearchJob) {provider : Uuid → Uuid → Option OrderData}
    → ReturnsSettled service
    → IsLeftAlone others job_id tenant_id
    → service.order_provider ≡ some provider
    → get db job_id tenant_id ≡ some job
    → (job.status ≡ ResearchJobStatus.reviewed) ⊎ (job.status ≡ ResearchJobStatus.archived)
    → HasDistinctKeys id_of (list_for_job db job_id)
    → RowEnds job_id tenant_id IsUnreviewed (research_job service tenant_id clock others job_id db)
reviewed_job_reruns service tenant_id clock others job_id db job {provider} returns alone provided
      found ended distinct =
    RunOk-RowEnds tenant_id job_id clock (length (list_for_job db job_id)) _ _ (
      research_job-RunOk service tenant_id clock others job_id db job {provider = provider} returns
        alone provided found (ground (arith, ended)) distinct)
