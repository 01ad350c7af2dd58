-- ===== src/Consistency/Repeats.antt =====
-- A request that backend/app/engine/service.py has answered under an idempotency key, and what becomes of
-- it when it is sent again, however much later.
use researchhub_engine.Prelude.{
  ℕ, String, ◌≡◌, refl, ap, ◌∙◌, Bool, true, false, Option, some, List, [], ◌∷◌, ◌==◌,
  if◌then◌else◌, find_by-append-some, find_by-map, find_by-update_by,
}
use researchhub_engine.Models.{Uuid, Time, ResearchJob, OrderData}
use researchhub_engine.Repository.{Db, is_keyed, get_by_idempotency, update_job, save_document}
use researchhub_engine.Repository.Queries.{
  KeepsIdentity, insert_job-eq-some, insert_document-eq-some,
}
use researchhub_engine.World.{World, ok, ResearchService}
use researchhub_engine.DocTypes.{validate_doc_types}
use researchhub_engine.Service.{resolve_order}
use researchhub_engine.Service.Creation.{create_job}
use researchhub_engine.Service.Idempotency.{create_job-existing, create_job-get_by_idempotency}
use researchhub_engine.Worker.Reaper.{fail_if_running, fail_running}
use researchhub_engine.Consistency.{
  Write, Writes, inserts_job, inserts_document, assigns_job, assigns_document, fails_running, here,
  next,
}
use researchhub_engine.Consistency.Invariant.{fail_if_running-KeepsIdentity}
use researchhub_engine.Consistency.Reachable.{Step, Step-Writes}

-- Any number of calls and tasks, one after the other.
pub data Later (service : ResearchService) (w : World) : World → Type 0 where
  at_once : Later service w w
  later : {w' w'' : World} → Later service w w' → Step service w' w'' → Later service w w''

-- The key finds a job with the identity of `job`.
abbrev pub StillKeyed : Db → Uuid → Uuid → ResearchJob → Type 0
StillKeyed db key t job =
    (job' : ResearchJob) × (get_by_idempotency db key t ≡ some job')
    × (job'.id ≡ job.id)
    × (job'.tenant_id ≡ job.tenant_id)
    × (job'.idempotency_key ≡ job.idempotency_key)

is_keyed-keeps :
    (f : ResearchJob → ResearchJob)
    → KeepsIdentity f
    → (key t : Uuid) (r : ResearchJob) → is_keyed key t (f r) ≡ is_keyed key t r
is_keyed-keeps f keeps key t r =
    rw (keeps.same_key r, keeps.same_tenant r, keeps.same_deletion r) refl

-- A job that was assigned to, if it is the one.
assigned :
    (f : ResearchJob → ResearchJob)
    → KeepsIdentity f
    → (db : Db) (key t : Uuid) (b : Bool) (job : ResearchJob)
    → get_by_idempotency db key t ≡ some (if b then f job else job)
    → StillKeyed db key t job
assigned f keeps db key t true job e =
    (f job, e, keeps.same_id job, keeps.same_tenant job, keeps.same_key job)
assigned f keeps db key t false job e = (job, e, refl, refl, refl)

same_jobs :
    (db db' : Db) (key t : Uuid) (job : ResearchJob)
    → db'.jobs ≡ db.jobs
    → get_by_idempotency db key t ≡ some job
    → StillKeyed db' key t job
unfolding get_by_idempotency
same_jobs db db' key t job e h = (job, rw e h, refl, refl, refl)

Write-StillKeyed :
    {db db' : Db} (key t : Uuid) (job : ResearchJob)
    → Write db db'
    → get_by_idempotency db key t ≡ some job
    → StillKeyed db' key t job
unfolding get_by_idempotency update_job fail_running
Write-StillKeyed {db} {db'} key t job (inserts_job new bounds e) h =
    let (apart, same) = insert_job-eq-some db db' new e in
    (job, rw same (find_by-append-some (is_keyed key t) db.jobs (new ∷ []) job h), refl, refl, refl)
Write-StillKeyed {db} {db'} key t job (inserts_document doc e) h =
    same_jobs db db' key t job (ap (λ d. d.jobs) (insert_document-eq-some db db' doc e).1) h
Write-StillKeyed {db} {db'} key t job (assigns_job job_id f lawful e) h =
    assigned f lawful.keeps db' key t (job.id == job_id) job (
      ap (λ d. get_by_idempotency d key t) e
      ∙ find_by-update_by (λ (j : ResearchJob). j.id) job_id f (is_keyed key t) db.jobs
          (is_keyed-keeps f lawful.keeps key t)
      ∙ rw h refl)
Write-StillKeyed {db} {db'} key t job (assigns_document doc e) h =
    same_jobs db db' key t job (unfold save_document in ap (λ d. d.jobs) e) h
Write-StillKeyed {db} {db'} key t job (fails_running e) h =
    assigned fail_if_running fail_if_running-KeepsIdentity db' key t true job (
      ap (λ d. get_by_idempotency d key t) e
      ∙ find_by-map fail_if_running (is_keyed key t) db.jobs
          (is_keyed-keeps fail_if_running fail_if_running-KeepsIdentity key t)
      ∙ rw h refl)

Writes-StillKeyed :
    {db db' : Db} (key t : Uuid) (job : ResearchJob)
    → Writes db db'
    → get_by_idempotency db key t ≡ some job
    → StillKeyed db' key t job
Writes-StillKeyed key t job here h = (job, h, refl, refl, refl)
Writes-StillKeyed key t job (next ws w) h =
    let (job1, found, a, b, c) = Writes-StillKeyed key t job ws h in
    let (job2, found2, a2, b2, c2) = Write-StillKeyed key t job1 w found in
    (job2, found2, a2 ∙ a, b2 ∙ b, c2 ∙ c)

Later-StillKeyed :
    (service : ResearchService) {w w' : World} (key t : Uuid) (job : ResearchJob)
    → Later service w w'
    → get_by_idempotency w.db key t ≡ some job
    → StillKeyed w'.db key t job
Later-StillKeyed service key t job at_once h = (job, h, refl, refl, refl)
Later-StillKeyed service key t job (later {w'} {w''} before step) h =
    let (job1, found, a, b, c) = Later-StillKeyed service key t job before h in
    let (job2, found2, a2, b2, c2) =
      Writes-StillKeyed key t job1 (Step-Writes service w' w'' step) found in
    (job2, found2, a2 ∙ a, b2 ∙ b, c2 ∙ c)

-- Once `create_job` has returned a job for a key, and after whatever calls and tasks, of whichever tenants,
-- a call of the tenant with that key, an order that resolves and types that are valid returns the job
-- that the key then finds, which has the id, tenant and key of the first, and changes nothing, whoever calls, whatever order and types it names and
-- whatever other sessions do during it.
pub create_job_again :
    (service : ResearchService) (lower : String → String) (uuid4 : ℕ → Uuid) (race race' : Db → Db)
    (now now' : Time) (tenant_id actor_id actor' order_id order' : Uuid)
    (doc_types doc_types' types' : List String) (key : Uuid)
    (callback_url callback' : Option String) (job : ResearchJob) (order : OrderData)
    (w w' w'' : World)
    → create_job service lower uuid4 race now tenant_id actor_id order_id doc_types
        (some key)
        callback_url
        w
      ≡ (ok job, w')
    → Later service w' w''
    → resolve_order service.order_provider tenant_id order' ≡ ok order
    → validate_doc_types lower doc_types' ≡ ok types'
    → (job' : ResearchJob) × (create_job service lower uuid4 race' now' tenant_id actor' order'
          doc_types'
          (some key)
          callback'
          w''
        ≡ (ok job', w''))
      × (get_by_idempotency w''.db key tenant_id ≡ some job')
      × (job'.id ≡ job.id)
      × (job'.tenant_id ≡ job.tenant_id)
      × (job'.idempotency_key ≡ job.idempotency_key)
create_job_again service lower uuid4 race race' now now' tenant_id actor_id actor' order_id order'
      doc_types doc_types' types' key callback_url callback' job order w w' w'' first after ho hv =
    let (job', found, same_id, same_tenant, same_key) =
      Later-StillKeyed service key tenant_id job after (
        create_job-get_by_idempotency service lower uuid4 race now tenant_id actor_id order_id
          doc_types key callback_url job w w' first) in
    (
      job',
      create_job-existing service lower uuid4 race' now' tenant_id actor' order' order doc_types'
          types' key callback' job' w'' ho hv found,
      found,
      same_id,
      same_tenant,
      same_key,
    )
