-- ===== src/Tests/Consistency.antt =====
-- Tests of the states that calls and tasks lead to.
use researchhub_engine.Prelude.{ℕ, String, ◌≡◌, refl, none, some, []}
use researchhub_engine.Schemas.{ResearchJobStatus}
use researchhub_engine.Models.{Uuid}
use researchhub_engine.Repository.{Db, get}
use researchhub_engine.World.{World}
use researchhub_engine.Service.{cancel_job}
use researchhub_engine.Service.Creation.{create_job}
use researchhub_engine.Worker.{research_job}
use researchhub_engine.Consistency.Runs.{db_of}
use researchhub_engine.Consistency.Reachable.{cancels, Reachable}
use researchhub_engine.Consistency.Permanence.{StillRead, Step-StillRead}
use researchhub_engine.World.{ResearchService}
use researchhub_engine.Models.{ResearchJob}
use researchhub_engine.Repository.{new_job}
use researchhub_engine.Adapters.Fetching.{fetch}
use researchhub_engine.Prelude.{true}
use researchhub_engine.Tests.Sources.{env, stores, run_research}
use researchhub_engine.Tests.{
  order, provider, service, clock, unchanged, two_types, job_as, world_as,
}

abbrev as_written : String → String
as_written s = s

abbrev uuid4 : ℕ → Uuid
uuid4 n = n

abbrev no_race : Db → Db
no_race db = db

abbrev start : World
start = record { db = record { jobs = []; documents = [] }; queue = []; drawn = 100 }

abbrev created : World
created = (create_job service as_written uuid4 no_race 60 2 9 7 two_types none none start).1

-- the run of the job that was created
abbrev researched : World
researched = record created {
  db = db_of (research_job service 2 clock unchanged 101 created.db);
  queue = [];
}

abbrev running : World
running = world_as ResearchJobStatus.running

found_running : get running.db 1 2 ≡ some (job_as ResearchJobStatus.running)
unfolding get
found_running = refl

Step-StillRead_example :
    StillRead
      (cancel_job 2 1 (some "duplicate order") running).1.db
      1
      2
      (job_as ResearchJobStatus.running)
Step-StillRead_example =
    Step-StillRead service running (cancel_job 2 1 (some "duplicate order") running).1 1 2
      (job_as ResearchJobStatus.running) (cancels 2 1 (some "duplicate order")) found_running

-- a service on the document fetcher, the job it makes, and sessions that do nothing
abbrev fetching : ResearchService
fetching = record {
  order_provider = some provider;
  document_fetcher = λ order doc_types tenant_id.
      (fetch env run_research order doc_types (some tenant_id) stores).0;
  enqueue = some (λ task. true);
}

abbrev waiting : World
waiting = (create_job fetching as_written uuid4 no_race 60 2 9 7 two_types none none start).1

abbrev waiting_job : ResearchJob
waiting_job = new_job 101 7 2 9 100 two_types none 60
