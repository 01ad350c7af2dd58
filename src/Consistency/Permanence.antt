-- ===== src/Consistency/Permanence.antt =====
-- Jobs are permanent: no call of backend/app/engine/service.py and no task of worker.py removes one.
use researchhub_engine.Prelude.{
  ◌≡◌, refl, ◌∙◌, ap, Bool, true, false, some, [], ◌∷◌, ◌==◌, find_by-append-some, if◌then◌else◌,
}
use researchhub_engine.Models.{Uuid, ResearchJob}
use researchhub_engine.Repository.{Db, is_job, get, save_document}
use researchhub_engine.Repository.Queries.{
  KeepsIdentity, get-update_job, insert_job-eq-some, insert_document-eq-some,
}
use researchhub_engine.World.{World, ResearchService}
use researchhub_engine.Worker.Reaper.{fail_if_running}
use researchhub_engine.Worker.Sweeps.{get-fail_running}
use researchhub_engine.Consistency.{
  Write, Writes, inserts_job, inserts_document, assigns_job, assigns_document, fails_running, here,
  next,
}
use researchhub_engine.Consistency.Invariant.{fail_if_running-KeepsIdentity}
use researchhub_engine.Consistency.Reachable.{Step, Step-Writes}

-- The tenant `t` reads under `i` a job of this identity.
abbrev pub StillRead : Db → Uuid → Uuid → ResearchJob → Type 0
StillRead db i t job =
    (job' : ResearchJob) × (get db i t ≡ some job')
    × (job'.id ≡ job.id)
    × (job'.tenant_id ≡ job.tenant_id)
    × (job'.idempotency_key ≡ job.idempotency_key)

-- A job that was assigned to, if it is the one.
assigned :
    (f : ResearchJob → ResearchJob)
    → KeepsIdentity f
    → (db : Db) (i t : Uuid) (b : Bool) → (job : ResearchJob)
    → get db i t ≡ some (if b then f job else job)
    → StillRead db i t job
assigned f keeps db i t true job e =
    (f job, e, keeps.same_id job, keeps.same_tenant job, keeps.same_key job)
assigned f keeps db i t false job e = (job, e, refl, refl, refl)

same_jobs :
    (db db' : Db) (i t : Uuid) (job : ResearchJob)
    → db'.jobs ≡ db.jobs
    → get db i t ≡ some job
    → StillRead db' i t job
unfolding get
same_jobs db db' i t job e h = (job, rw e h, refl, refl, refl)

Write-StillRead :
    {db db' : Db} (i t : Uuid) (job : ResearchJob)
    → Write db db'
    → get db i t ≡ some job
    → StillRead db' i t job
Write-StillRead {db} {db'} i t job (inserts_job new bounds e) h =
    let (apart, same) = insert_job-eq-some db db' new e in
    (
      job,
      rw same (unfold get in find_by-append-some (is_job i t) db.jobs (new ∷ []) job h),
      refl,
      refl,
      refl,
    )
Write-StillRead {db} {db'} i t job (inserts_document doc e) h =
    same_jobs db db' i t job (ap (λ d. d.jobs) (insert_document-eq-some db db' doc e).1) h
Write-StillRead {db} {db'} i t job (assigns_job job_id f lawful e) h =
    assigned f lawful.keeps db' i t (job.id == job_id) job
      (ap (λ d. get d i t) e ∙ rw (get-update_job f lawful.keeps db job_id i t, h) refl)
Write-StillRead {db} {db'} i t job (assigns_document doc e) h =
    same_jobs db db' i t job (unfold save_document in ap (λ d. d.jobs) e) h
Write-StillRead {db} {db'} i t job (fails_running e) h =
    assigned fail_if_running fail_if_running-KeepsIdentity db' i t true job
      (ap (λ d. get d i t) e ∙ rw (get-fail_running db i t, h) refl)

pub Writes-StillRead :
    {db db' : Db} (i t : Uuid) (job : ResearchJob)
    → Writes db db'
    → get db i t ≡ some job
    → StillRead db' i t job
Writes-StillRead i t job here h = (job, h, refl, refl, refl)
Writes-StillRead i t job (next ws w) h =
    let (job1, found, a, b, c) = Writes-StillRead i t job ws h in
    let (job2, found2, a2, b2, c2) = Write-StillRead i t job1 w found in
    (job2, found2, a2 ∙ a, b2 ∙ b, c2 ∙ c)

-- A job that a tenant reads before any call or task, of whichever tenant, is there for that tenant
-- after it too, with the same id, tenant and idempotency key, however the call or task ends.
pub Step-StillRead :
    (service : ResearchService) (w w' : World) (i t : Uuid) (job : ResearchJob)
    → Step service w w'
    → get w.db i t ≡ some job
    → StillRead w'.db i t job
Step-StillRead service w w' i t job step = Writes-StillRead i t job (Step-Writes service w w' step)
