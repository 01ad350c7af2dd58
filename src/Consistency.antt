-- ===== src/Consistency.antt =====
-- What the code of backend/app/engine does to its database, as an abstract specification: single
-- writes of single rows; and what such writes keep. The children say that every operation of
-- service.py and worker.py is a sequence of these writes.
pub mod Invariant
pub mod Calls
pub mod Creation
pub mod Runs
pub mod Reachable
pub mod Permanence
pub mod Completion
pub mod Repeats
use researchhub_engine.Prelude.{◌≡◌, Bool, false, Option, some, List, All, AllPairs}
use researchhub_engine.Models.{Uuid, ResearchJob, ResearchDocument}
use researchhub_engine.Repository.{
  Db, job_conflicts, document_conflicts, insert_job, insert_document, update_job, save_document,
}
use researchhub_engine.Repository.Queries.{KeepsIdentity}
use researchhub_engine.Service.Outcome.{HasBounds}
use researchhub_engine.Worker.Reaper.{fail_running}

-- An assignment to columns of a job leaves its identity alone and its counters in bounds.
pub record IsAssignment (f : ResearchJob → ResearchJob) : Type 0 where
  pub keeps : KeepsIdentity f
  pub bounds : (r : ResearchJob) → HasBounds r → HasBounds (f r)

-- One write to one table.
pub data Write (db : Db) (db' : Db) : Type 0 where
  inserts_job : (job : ResearchJob) → HasBounds job → insert_job db job ≡ some db' → Write db db'
  inserts_document : (doc : ResearchDocument) → insert_document db doc ≡ some db' → Write db db'
  assigns_job :
      (job_id : Uuid) (f : ResearchJob → ResearchJob)
      → IsAssignment f
      → db' ≡ update_job job_id f db
      → Write db db'
  assigns_document : (doc : ResearchDocument) → db' ≡ save_document doc db → Write db db'
  fails_running : db' ≡ record db { jobs = fail_running db.jobs } → Write db db'

-- Writes one after the other.
pub data Writes (db : Db) : Db → Type 0 where
  here : Writes db db
  next : {db1 db2 : Db} → Writes db db1 → Write db1 db2 → Writes db db2

-- No two rows break a constraint of their table, and the counters of every job are within bounds.
pub record IsConsistent (db : Db) : Type 0 where
  pub jobs_apart : AllPairs (λ a b. job_conflicts b a ≡ false) db.jobs
  pub documents_apart : AllPairs (λ a b. document_conflicts b a ≡ false) db.documents
  pub bounded : All HasBounds db.jobs
