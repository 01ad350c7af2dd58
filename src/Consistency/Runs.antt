-- ===== src/Consistency/Runs.antt =====
-- The tasks of backend/app/engine/worker.py as sequences of writes: a run of `research_job`, where
-- what other sessions commit meanwhile is one too, the callback and a sweep of the reaper.
use researchhub_engine.Prelude.{
  ℕ, ◌+◌, ◌*◌, refl, Bool, Option, none, some, List, [], ◌∷◌, ◌++◌, length, map, Bool-cases, inl,
  inr,
}
use researchhub_engine.Schemas.{ResearchJobStatus}
use researchhub_engine.Models.{Uuid, Time, ResearchJob, ResearchDocument, OrderData}
use researchhub_engine.Repository.{
  Db, get, update_job, list_for_job, save_document, list_stale_queued,
}
use researchhub_engine.World.{World, Task, ResearchService}
use researchhub_engine.Service.{resolve_job_terminal_status}
use researchhub_engine.Service.Outcome.{HasBounds, recalc_job_counters-HasBounds}
use researchhub_engine.Worker.{
  is_stopped, go_on, skip, start_fetching, settle, save_round, save_documents, LoopEnd, vanished,
  finished, RunEnd, returned, completed, retried, final_columns, drain, start_columns, loop, finish,
  process_all, start, run, research_job,
}
use researchhub_engine.Worker.Runs.{final_columns-KeepsIdentity}
use researchhub_engine.Worker.Callback.{CallbackPayload, payload, attempts, fire_callback}
use researchhub_engine.Worker.Reaper.{requeue, reaper_research_jobs}
use researchhub_engine.Consistency.{
  IsAssignment, Writes, assigns_job, assigns_document, fails_running, here, next,
}
use researchhub_engine.Consistency.Calls.{Writes-trans, assigns}

-- The database that a run leaves, however it ends.
abbrev pub db_of : RunEnd → Db
db_of (returned db) = db
db_of (completed db job) = db
db_of (retried db) = db

abbrev loop_db : LoopEnd → Db
loop_db (vanished db) = db
loop_db (finished db job docs) = db

final_columns-HasBounds :
    (status : ResearchJobStatus) (docs : List ResearchDocument) (now : Time) (r : ResearchJob)
    → HasBounds (final_columns status docs now r)
unfolding final_columns
final_columns-HasBounds status docs now r =
    let b = recalc_job_counters-HasBounds r docs in
    record { uploaded_within = b.uploaded_within; within_total = b.within_total }

final_columns-IsAssignment :
    (status : ResearchJobStatus) (docs : List ResearchDocument) (now : Time)
    → IsAssignment (final_columns status docs now)
final_columns-IsAssignment status docs now = record {
  keeps = final_columns-KeepsIdentity status docs now;
  bounds = λ r h. final_columns-HasBounds status docs now r;
}

save_document-Writes : (doc : ResearchDocument) (db : Db) → Writes db (save_document doc db)
save_document-Writes doc db = next here (assigns_document doc refl)

save_documents-Writes :
    (docs : List ResearchDocument) (db : Db) → Writes db (save_documents docs db)
unfolding save_documents
save_documents-Writes [] db = here
save_documents-Writes (doc ∷ docs) db =
    Writes-trans (save_document-Writes doc db) (save_documents-Writes docs (save_document doc db))

update_job-Writes :
    (job_id : Uuid) (f : ResearchJob → ResearchJob) (db : Db)
    → IsAssignment f
    → Writes db (update_job job_id f db)
update_job-Writes job_id f db lawful = next here (assigns_job job_id f lawful refl)

save_round-Writes :
    (status : ResearchJobStatus) (doc settled : ResearchDocument) (db : Db)
    → Writes db (save_round status doc settled db)
unfolding save_round
save_round-Writes status doc settled db = elim (Bool-cases (is_stopped status)) [
  | inl e ↦ rw e (save_document-Writes settled db)
  | inr e ↦ rw e (
      Writes-trans (save_document-Writes (start_fetching doc) db)
        (save_document-Writes settled (save_document (start_fetching doc) db)))
]

drain-Writes : (clock : ℕ → Time) (job : ResearchJob) (db : Db) → Writes db (drain clock job db)
unfolding drain
drain-Writes clock job db =
    let docs = map skip (list_for_job db job.id) in
    Writes-trans (save_documents-Writes docs db) (
      update_job-Writes job.id _ (save_documents docs db)
        (final_columns-IsAssignment ResearchJobStatus.cancelled docs (clock 0)))

start_columns-IsAssignment : (clock : ℕ → Time) → IsAssignment (start_columns clock)
start_columns-IsAssignment clock =
    assigns _ (λ r. refl) (λ r. refl) (λ r. refl) (λ r. refl)
      (λ r h. record { uploaded_within = h.uploaded_within; within_total = h.within_total })

module _ (service : ResearchService) (tenant_id : Uuid) (clock : ℕ → Time) (others : ℕ → Db → Db)
    (commits : (i : ℕ) (db : Db) → Writes db (others i db)) where
  loop-Writes :
      (order : Option OrderData) (i : ℕ) (db : Db) (job : ResearchJob)
      (settled docs : List ResearchDocument)
      → Writes db (loop_db (loop service tenant_id clock others order i db job settled docs))
  unfolding loop
  loop-Writes order i db job settled [] = here
  loop-Writes order i db job settled (doc ∷ docs) = Writes-trans (commits i db) (
      read (get (others i db) job.id tenant_id)
        (λ db2 job2 settled2. loop-Writes order (i + 1) db2 job2 settled2 docs))
    where
      again : ResearchJob → LoopEnd
      again job' =
          let doc' = settle service tenant_id clock order job'.status i doc in
          loop service tenant_id clock others order (i + 1)
            (save_round job'.status doc doc' (others i db)) job' (settled ++ doc' ∷ []) docs

      read :
          (o : Option ResearchJob)
          → ((db2 : Db) (job2 : ResearchJob) (settled2 : List ResearchDocument)
              → Writes db2 (
                  loop_db
                    (loop service tenant_id clock others order (i + 1) db2 job2 settled2 docs)))
          → Writes (others i db) (loop_db (go_on (others i db) again o))
      read none rest = here
      read (some job') rest =
          let doc' = settle service tenant_id clock order job'.status i doc in
          Writes-trans (save_round-Writes job'.status doc doc' (others i db))
            (rest (save_round job'.status doc doc' (others i db)) job' (settled ++ doc' ∷ []))

  finish-Writes :
      (e : LoopEnd) → Writes (loop_db e) (db_of (finish service tenant_id clock others e))
  unfolding finish
  finish-Writes (vanished db) = here
  finish-Writes (finished db job docs) =
      let n = length docs in
      Writes-trans (commits n db) (
        update_job-Writes job.id _ (others n db) (
          final_columns-IsAssignment (resolve_job_terminal_status (others n db) job) docs
            (clock (2 * n + 1))))

  process_all-Writes :
      (provider : Option (Uuid → Uuid → Option OrderData)) (job : ResearchJob) (db : Db)
      → Writes db (db_of (process_all service tenant_id clock others provider job db))
  unfolding process_all
  process_all-Writes none job db = here
  process_all-Writes (some provider) job db =
      let docs = list_for_job db job.id in
      let order = provider job.order_id tenant_id in
      Writes-trans (loop-Writes order 0 db (start_columns clock job) [] docs) (
        finish-Writes
          (loop service tenant_id clock others order 0 db (start_columns clock job) [] docs))

  start-Writes :
      (job : ResearchJob) (db : Db)
      → Writes db (db_of (start service tenant_id clock others job db))
  unfolding start
  start-Writes job db =
      Writes-trans
        (update_job-Writes job.id (start_columns clock) db (start_columns-IsAssignment clock))
        (process_all-Writes service.order_provider job (update_job job.id (start_columns clock) db))

  run-Writes :
      (db : Db) (o : Option ResearchJob)
      → Writes db (db_of (run service tenant_id clock others db o))
  unfolding run
  run-Writes db none = here
  run-Writes db (some job) = elim (Bool-cases (is_stopped job.status)) [
    | inl e ↦ rw e (drain-Writes clock job db)
    | inr e ↦ rw e (start-Writes job db)
  ]

  -- A run is a sequence of writes, however it ends and whatever the sources of documents do, where
  -- what other sessions commit while it waits is one.
  pub research_job-Writes :
      (job_id : Uuid) (db : Db)
      → Writes db (db_of (research_job service tenant_id clock others job_id db))
  unfolding research_job
  research_job-Writes job_id db = run-Writes db (get db job_id tenant_id)

pub fire_callback-Writes :
    (post : CallbackPayload → ℕ → Option ℕ) (sleep : Bool) (retry_attempts backoff : ℕ)
    (job : ResearchJob) (db : Db)
    → Writes db (fire_callback post sleep retry_attempts backoff job db)
unfolding fire_callback
fire_callback-Writes post sleep retry_attempts backoff job db =
    elim (Bool-cases (attempts (post (payload db job)) sleep retry_attempts 1 backoff).delivered) [
      | inl e ↦ rw e (
          update_job-Writes job.id _ db (
            assigns _ (λ r. refl) (λ r. refl) (λ r. refl) (λ r. refl)
              (λ r h. record {
                uploaded_within = h.uploaded_within;
                within_total = h.within_total;
              })))
      | inr e ↦ rw e here
    ]

pub reaper_research_jobs-Writes :
    (send : Task → Bool) (now : Time) (minutes : ℕ) (w : World)
    → Writes w.db (reaper_research_jobs send now minutes w).db
unfolding reaper_research_jobs
reaper_research_jobs-Writes send now minutes w =
    elim (Bool-cases (requeue send (list_stale_queued w.db now minutes) w.queue).0) [
      | inl e ↦ rw e (next here (fails_running refl))
      | inr e ↦ rw e here
    ]
