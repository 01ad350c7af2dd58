-- ===== src/Repository/Queries.antt =====
-- What the writes of the repository do to its queries.
use mathlib.Core.Option
use researchhub_engine.Prelude.{
  ◌≡◌, refl, ◌∙◌, Bool, true, false, none, some, [], any_by, List, ◌∷◌, ◌++◌, arith, ◌==◌,
  if◌then◌else◌, find_by-update_by, filter_by-update_by, find_by-eq-some, HasDistinctKeys,
  update_by_at,
}
use researchhub_engine.Models.{Uuid, ResearchJob, ResearchDocument}
use researchhub_engine.Repository.{
  Db, job_conflicts, document_conflicts, insert_job, insert_document, is_job, is_document_of, get,
  update_job, list_for_job, write_columns, save_document,
}

-- An assignment that leaves alone what identifies a job: no column of a WHERE clause changes.
pub record KeepsIdentity (f : ResearchJob → ResearchJob) : Type 0 where
  pub same_id : (r : ResearchJob) → (f r).id ≡ r.id
  pub same_tenant : (r : ResearchJob) → (f r).tenant_id ≡ r.tenant_id
  pub same_key : (r : ResearchJob) → (f r).idempotency_key ≡ r.idempotency_key
  pub same_deletion : (r : ResearchJob) → (f r).deleted_at ≡ r.deleted_at

module _ (f : ResearchJob → ResearchJob) (keeps : KeepsIdentity f) (db : Db) (job_id : Uuid) where
  is_job-keeps : (i t : Uuid) (r : ResearchJob) → is_job i t (f r) ≡ is_job i t r
  is_job-keeps i t r = rw (keeps.same_id r, keeps.same_tenant r, keeps.same_deletion r)

  -- A job that is read after an update is the job that was there, updated if it is the one.
  pub get-update_job :
      (i t : Uuid)
      → get (update_job job_id f db) i t
        ≡ Option.map (λ (r : ResearchJob). if r.id == job_id then f r else r) (get db i t)
  unfolding get update_job
  get-update_job i t =
      find_by-update_by (λ (j : ResearchJob). j.id) job_id f (is_job i t) db.jobs (is_job-keeps i t)

pub get-id : (db : Db) (i t : Uuid) (job : ResearchJob) → get db i t ≡ some job → job.id ≡ i
unfolding get
get-id db i t job h = ground (arith, find_by-eq-some (is_job i t) db.jobs job h)

-- A job is found only by its own tenant.
pub get-tenant_id :
    (db : Db) (i t : Uuid) (job : ResearchJob) → get db i t ≡ some job → job.tenant_id ≡ t
unfolding get
get-tenant_id db i t job h = ground (arith, find_by-eq-some (is_job i t) db.jobs job h)

-- The updated job is read back.
pub get-update_job_self :
    (f : ResearchJob → ResearchJob) (keeps : KeepsIdentity f) (db : Db) (i t : Uuid)
    (job : ResearchJob)
    → get db i t ≡ some job
    → get (update_job i f db) i t ≡ some (f job)
get-update_job_self f keeps db i t job h =
    rw (get-update_job f keeps db i i t, h) (ground (arith, get-id db i t job h))

-- The documents of a job after one of them is saved: that one holds what was assigned.
pub list_for_job-save_document :
    (db : Db) (job_id : Uuid) (before : List ResearchDocument) (doc : ResearchDocument)
    (after : List ResearchDocument) (assigned : ResearchDocument)
    → list_for_job db job_id ≡ before ++ doc ∷ after
    → HasDistinctKeys (λ (d : ResearchDocument). d.id) (before ++ doc ∷ after)
    → assigned.id ≡ doc.id
    → list_for_job (save_document assigned db) job_id ≡ before ++ write_columns assigned doc ∷ after
unfolding list_for_job save_document
list_for_job-save_document db job_id before doc after assigned h distinct same =
    filter_by-update_by (λ (d : ResearchDocument). d.id) assigned.id (write_columns assigned)
      (is_document_of job_id) db.documents (λ r. refl)
    ∙ (rw (h, same)
        (update_by_at (λ (d : ResearchDocument). d.id) (write_columns assigned) before doc after
          distinct))

-- A table that took the row, or nothing.
inserted :
    {A : Type 0} (b : Bool) (a a' : A)
    → (if b then none else some a) ≡ some a'
    → (b ≡ false) × (a' ≡ a)
inserted true a a' h = cc
inserted false a a' h = (refl, cc)

-- What an insertion that succeeds has found and done.
pub insert_job-eq-some :
    (db db' : Db) (job : ResearchJob)
    → insert_job db job ≡ some db'
    → (any_by (job_conflicts job) db.jobs ≡ false)
      × (db' ≡ record db { jobs = db.jobs ++ job ∷ [] })
unfolding insert_job
insert_job-eq-some db db' job h = inserted (any_by (job_conflicts job) db.jobs) _ db' h

pub insert_document-eq-some :
    (db db' : Db) (doc : ResearchDocument)
    → insert_document db doc ≡ some db'
    → (any_by (document_conflicts doc) db.documents ≡ false)
      × (db' ≡ record db { documents = db.documents ++ doc ∷ [] })
unfolding insert_document
insert_document-eq-some db db' doc h =
    inserted (any_by (document_conflicts doc) db.documents) _ db' h
