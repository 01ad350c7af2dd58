-- ===== src/Consistency/Reachable.antt =====
-- The states that the calls of backend/app/engine/service.py and the tasks of worker.py lead to, in
-- any order. A step's other arguments are what it takes from outside; what other sessions commit in
-- the middle of one (`race`, `others`) is a sequence of writes. What a task leaves of the queue is
-- the broker's affair.
use researchhub_engine.Prelude.{ℕ, String, Bool, Option, List, []}
use researchhub_engine.Models.{Uuid, Time, ResearchJob}
use researchhub_engine.Repository.{Db}
use researchhub_engine.World.{World, Task, ResearchService}
use researchhub_engine.Service.{cancel_job, mark_reviewed, archive_job}
use researchhub_engine.Service.Creation.{create_job, retry_job}
use researchhub_engine.Worker.{research_job}
use researchhub_engine.Worker.Callback.{CallbackPayload, fire_callback}
use researchhub_engine.Worker.Reaper.{reaper_research_jobs}
use researchhub_engine.Consistency.{Writes}
use researchhub_engine.Consistency.Calls.{
  cancel_job-IsWriting, mark_reviewed-IsWriting, archive_job-IsWriting,
}
use researchhub_engine.Consistency.Creation.{create_job-IsWriting, retry_job-IsWriting}
use researchhub_engine.Consistency.Runs.{
  db_of, research_job-Writes, fire_callback-Writes, reaper_research_jobs-Writes,
}

-- One call or task, however it ends.
pub data Step (service : ResearchService) (w : World) : World → Type 0 where
  creates :
      (lower : String → String) (uuid4 : ℕ → Uuid) (race : Db → Db) (now : Time)
      (tenant_id actor_id order_id : Uuid) (doc_types : List String) (key : Option Uuid)
      (callback_url : Option String)
      → ((db : Db) → Writes db (race db))
      → Step service w
          (create_job service lower uuid4 race now tenant_id actor_id order_id doc_types key
            callback_url w).1
  retries :
      (lower : String → String) (uuid4 : ℕ → Uuid) (race : Db → Db) (now : Time)
      (tenant_id actor_id job_id : Uuid) (doc_types : Option (List String))
      → ((db : Db) → Writes db (race db))
      → Step service w
          (retry_job service lower uuid4 race now tenant_id actor_id job_id doc_types w).1
  cancels :
      (tenant_id job_id : Uuid) (reason : Option String)
      → Step service w (cancel_job tenant_id job_id reason w).1
  reviews : (tenant_id job_id : Uuid) → Step service w (mark_reviewed tenant_id job_id w).1
  archives : (tenant_id job_id : Uuid) → Step service w (archive_job tenant_id job_id w).1
  runs :
      (tenant_id job_id : Uuid) (clock : ℕ → Time) (others : ℕ → Db → Db) (queue : List Task)
      → ((i : ℕ) (db : Db) → Writes db (others i db))
      → Step service w (record w {
        db = db_of (research_job service tenant_id clock others job_id w.db);
        queue = queue;
      })
  calls_back :
      (post : CallbackPayload → ℕ → Option ℕ) (sleep : Bool) (retry_attempts backoff : ℕ)
      (job : ResearchJob)
      → Step service w (record w { db = fire_callback post sleep retry_attempts backoff job w.db })
  sweeps :
      (send : Task → Bool) (now : Time) (minutes : ℕ)
      → Step service w (reaper_research_jobs send now minutes w)

-- The states that steps lead to from an empty database.
pub data Reachable (service : ResearchService) : World → Type 0 where
  empty :
      (queue : List Task) (drawn : ℕ)
      → Reachable service
          (record { db = record { jobs = []; documents = [] }; queue = queue; drawn = drawn })
  after : {w w' : World} → Reachable service w → Step service w w' → Reachable service w'

pub Step-Writes : (service : ResearchService) (w w' : World) → Step service w w' → Writes w.db w'.db
Step-Writes service w w'
      (creates lower uuid4 race now tenant_id actor_id order_id doc_types key callback_url races) =
    create_job-IsWriting service lower uuid4 race now races tenant_id actor_id order_id doc_types
      key callback_url w
Step-Writes service w w' (retries lower uuid4 race now tenant_id actor_id job_id doc_types races) =
    retry_job-IsWriting service lower uuid4 race now races tenant_id actor_id job_id doc_types w
Step-Writes service w w' (cancels tenant_id job_id reason) =
    cancel_job-IsWriting tenant_id job_id reason w
Step-Writes service w w' (reviews tenant_id job_id) = mark_reviewed-IsWriting tenant_id job_id w
Step-Writes service w w' (archives tenant_id job_id) = archive_job-IsWriting tenant_id job_id w
Step-Writes service w w' (runs tenant_id job_id clock others queue commits) =
    research_job-Writes service tenant_id clock others commits job_id w.db
Step-Writes service w w' (calls_back post sleep retry_attempts backoff job) =
    fire_callback-Writes post sleep retry_attempts backoff job w.db
Step-Writes service w w' (sweeps send now minutes) = reaper_research_jobs-Writes send now minutes w
