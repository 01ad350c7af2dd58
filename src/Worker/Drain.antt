-- ===== src/Worker/Drain.antt =====
-- What `research_job` makes of a task that is delivered after a cancel.
use mathlib.Core.List.{append_assoc}
use researchhub_engine.Prelude.{
  ℕ, ◌≡◌, refl, sym, ◌∙◌, true, some, List, [], ◌∷◌, ◌++◌, arith, HasDistinctKeys, length, map,
  length-map,
}
use researchhub_engine.Schemas.{ResearchJobStatus}
use researchhub_engine.Models.{Uuid, Time, ResearchJob, ResearchDocument}
use researchhub_engine.Repository.{Db, is_failed, get, update_job, list_for_job, save_document}
use researchhub_engine.Repository.Queries.{get-update_job_self, get-id, list_for_job-save_document}
use researchhub_engine.World.{ResearchService}
use researchhub_engine.Service.{is_fetched, is_uploaded, is_skipped, count_status}
use researchhub_engine.Worker.{
  is_stopped, skip, save_documents, returned, final_columns, drain, research_job,
}
use researchhub_engine.Worker.Rounds.{id_of, distinct_same}
use researchhub_engine.Worker.Runs.{final_columns-KeepsIdentity, list_for_job-update_job}

-- Of documents that were all skipped each is counted as cancelled, and none otherwise.
counts-skip :
    (docs : List ResearchDocument)
    → (count_status is_fetched (map skip docs) ≡ 0)
      × (count_status is_uploaded (map skip docs) ≡ 0)
      × (count_status is_failed (map skip docs) ≡ 0)
      × (count_status is_skipped (map skip docs) ≡ length docs)
unfolding skip
counts-skip [] = (omega arith, omega arith, omega arith, omega arith)
counts-skip (d ∷ docs) =
    let ih = counts-skip docs in
    (omega (arith, ih.0), omega (arith, ih.1), omega (arith, ih.2), omega (arith, ih.3))

skip-id : (doc : ResearchDocument) → (skip doc).id ≡ doc.id
unfolding skip
skip-id doc = refl

list_for_job-save_documents :
    (db : Db) (job_id : Uuid) (before docs : List ResearchDocument)
    → list_for_job db job_id ≡ before ++ docs
    → HasDistinctKeys id_of (before ++ docs)
    → list_for_job (save_documents (map skip docs) db) job_id ≡ before ++ map skip docs
unfolding save_documents
list_for_job-save_documents db job_id before [] listed distinct = listed
list_for_job-save_documents db job_id before (doc ∷ docs) listed distinct =
    list_for_job-save_documents (save_document (skip doc) db) job_id (before ++ skip doc ∷ []) docs
      (list_for_job-save_document db job_id before doc docs (skip doc) listed distinct (skip-id doc)
        ∙ (unfold skip in sym (append_assoc before (skip doc ∷ []) docs)))
      (rw append_assoc (distinct_same before doc (skip doc) docs (skip-id doc) distinct))
    ∙ append_assoc before (skip doc ∷ []) (map skip docs)

get-save_documents :
    (docs : List ResearchDocument) (db : Db) (i t : Uuid)
    → get (save_documents docs db) i t ≡ get db i t
unfolding save_documents
get-save_documents [] db i t = refl
get-save_documents (doc ∷ docs) db i t =
    get-save_documents docs (save_document doc db) i t ∙ (unfold get save_document in refl)

-- The row of a job whose `n` documents were all skipped.
pub record IsDrained (n : ℕ) (row : ResearchJob) : Type 0 where
  pub status : row.status ≡ ResearchJobStatus.cancelled
  pub total : row.total_documents ≡ n
  pub cancelled : row.cancelled_documents ≡ n
  pub fetched : row.fetched_documents ≡ 0
  pub uploaded : row.uploaded_documents ≡ 0
  pub failed : row.failed_documents ≡ 0

final_columns-IsDrained :
    (docs : List ResearchDocument) (now : Time) (row : ResearchJob)
    → IsDrained (length docs) (final_columns ResearchJobStatus.cancelled (map skip docs) now row)
unfolding final_columns
final_columns-IsDrained docs now row =
    let c = counts-skip docs in
    record {
      status = refl;
      total = length-map skip docs;
      cancelled = c.3;
      fetched = c.0;
      uploaded = c.1;
      failed = c.2;
    }

-- The writes of `drain`, for a job whose identifier is known up to an equation.
drained :
    (id job_id tenant_id : Uuid) (now : Time) (db : Db) (job : ResearchJob)
    → id ≡ job_id
    → get db job_id tenant_id ≡ some job
    → HasDistinctKeys id_of (list_for_job db job_id)
    → let docs = map skip (list_for_job db id) in
      let db' =
        update_job id
          (final_columns ResearchJobStatus.cancelled docs now)
          (save_documents docs db) in
      (list_for_job db' job_id ≡ map skip (list_for_job db job_id))
      × ((row : ResearchJob) × (get db' job_id tenant_id ≡ some row)
          × IsDrained (length (list_for_job db job_id)) row)
drained id job_id tenant_id now db job same found distinct =
    let docs = map skip (list_for_job db job_id) in
    let f = final_columns ResearchJobStatus.cancelled docs now in
    rw same (
      list_for_job-update_job f (save_documents docs db) job_id job_id
          ∙ list_for_job-save_documents db job_id [] (list_for_job db job_id) refl distinct,
      (
        f job,
        get-update_job_self f (final_columns-KeepsIdentity ResearchJobStatus.cancelled docs now)
            (save_documents docs db) job_id tenant_id job
            (get-save_documents docs db job_id tenant_id ∙ found),
        final_columns-IsDrained (list_for_job db job_id) now job,
      ),
    )

drain_lem :
    (clock : ℕ → Time) (job : ResearchJob) (db : Db)
    → drain clock job db ≡ (
        let docs = map skip (list_for_job db job.id) in
        update_job job.id
          (final_columns ResearchJobStatus.cancelled docs (clock 0))
          (save_documents docs db))
unfolding drain
drain_lem clock job db = refl

research_job_of_stopped :
    (service : ResearchService) (tenant_id : Uuid) (clock : ℕ → Time) (others : ℕ → Db → Db)
    (job_id : Uuid) (db : Db) (job : ResearchJob)
    → get db job_id tenant_id ≡ some job
    → is_stopped job.status ≡ true
    → research_job service tenant_id clock others job_id db ≡ returned (drain clock job db)
unfolding research_job
research_job_of_stopped service tenant_id clock others job_id db job found stopped =
    rw (found, stopped) refl

-- A task delivered after a cancel, for a job whose documents have distinct ids, skips every document
-- and leaves the job cancelled, with its counters
-- saying so. Whatever the service and the other sessions are, the outcome is the same: no order is
-- read and no source is asked.
pub research_job_drains :
    (service : ResearchService) (tenant_id : Uuid) (clock : ℕ → Time) (others : ℕ → Db → Db)
    (job_id : Uuid) (db : Db) (job : ResearchJob)
    → get db job_id tenant_id ≡ some job
    → is_stopped job.status ≡ true
    → HasDistinctKeys id_of (list_for_job db job_id)
    → let db' = drain clock job db in
      (research_job service tenant_id clock others job_id db ≡ returned db')
      × (list_for_job db' job_id ≡ map skip (list_for_job db job_id))
      × ((row : ResearchJob) × (get db' job_id tenant_id ≡ some row)
          × IsDrained (length (list_for_job db job_id)) row)
research_job_drains service tenant_id clock others job_id db job found stopped distinct =
    let (listed, read) =
      drained job.id job_id tenant_id (clock 0) db job (get-id db job_id tenant_id job found) found
        distinct in
    (
      research_job_of_stopped service tenant_id clock others job_id db job found stopped,
      rw drain_lem listed,
      rw drain_lem read,
    )
