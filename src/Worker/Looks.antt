-- ===== src/Worker/Looks.antt =====
-- What `research_job` saw of its job at its last look, and the status that the job ends with.
use researchhub_engine.Prelude.{
  ℕ, ◌+◌, ◌≡◌, ◌≢◌, none, refl, ◌⊎◌, inl, inr, Option, some, List, [], ◌∷◌,
}
use researchhub_engine.Schemas.{ResearchJobStatus}
use researchhub_engine.Models.{Uuid, Time, ResearchJob, ResearchDocument, OrderData}
use researchhub_engine.Repository.{Db, get, list_for_job}
use researchhub_engine.World.{ResearchService}
use researchhub_engine.Service.{resolve_job_terminal_status, status_of_documents}
use researchhub_engine.Worker.{settle, save_round}

-- The status of the job at the worker's last look: the one that it was started with, where there is no
-- document to look before.
module _ (service : ResearchService) (tenant_id : Uuid) (clock : ℕ → Time)
    (others : ℕ → Db → Db) where
  unfoldable pub last_look :
      Option OrderData → ℕ → Db → ResearchJob → List ResearchDocument → ResearchJobStatus
  last_look order i db job [] = job.status
  last_look order i db job (doc ∷ docs) = elim (get (others i db) job.id tenant_id) [
    | none ↦ job.status
    | some job' ↦
        last_look order (i + 1)
          (save_round job'.status doc (settle service tenant_id clock order job'.status i doc)
            (others i db))
          job' docs
  ]

module _ (service : ResearchService) (tenant_id : Uuid) (clock : ℕ → Time)
    (others : ℕ → Db → Db) where
  pub last_look_of_none :
      (order : Option OrderData) (i : ℕ) (db : Db) (job : ResearchJob)
      → job.status ≡ last_look service tenant_id clock others order i db job []
  unfolding last_look
  last_look_of_none order i db job = refl

  pub last_look_of_found :
      (order : Option OrderData) (i : ℕ) (db : Db) (job job' : ResearchJob) (doc : ResearchDocument)
      (docs : List ResearchDocument)
      → get (others i db) job.id tenant_id ≡ some job'
      → last_look service tenant_id clock others order i db job (doc ∷ docs)
        ≡ last_look service tenant_id clock others order
            (i + 1)
            (save_round job'.status doc
              (settle service tenant_id clock order job'.status i doc)
              (others i db))
            job'
            docs
  unfolding last_look
  last_look_of_found order i db job job' doc docs h = rw (last_look, h) refl

-- The status that a job ends with, whose documents are `docs` and that was last seen with status
-- `looked`.
abbrev pub IsFinalStatus : ResearchJobStatus → List ResearchDocument → ResearchJobStatus → Type 0
IsFinalStatus looked docs s =
    ((looked ≡ ResearchJobStatus.cancelling) × (s ≡ ResearchJobStatus.cancelled))
    ⊎ ((looked ≢ ResearchJobStatus.cancelling) × (s ≡ status_of_documents docs))

pub resolve_cases :
    (db : Db) (job : ResearchJob) (docs : List ResearchDocument)
    → list_for_job db job.id ≡ docs
    → IsFinalStatus job.status docs (resolve_job_terminal_status db job)
unfolding resolve_job_terminal_status
resolve_cases db job docs h = rw (← h) (by_status job.status)
  where
    by_status :
        (s : ResearchJobStatus)
        → let r : ResearchJobStatus = elim s [
          | ResearchJobStatus.cancelling ↦ ResearchJobStatus.cancelled
          | _ ↦ status_of_documents (list_for_job db job.id)
        ] in
          IsFinalStatus s (list_for_job db job.id) r
    by_status ResearchJobStatus.cancelling = inl (refl, refl)
    by_status _ = inr ((λ e. cc), refl)
