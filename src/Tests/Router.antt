-- ===== src/Tests/Router.antt =====
-- A test of an endpoint.
use researchhub_engine.Prelude.{◌≡◌, refl, inr, true, false, none, some, []}
use researchhub_engine.Schemas.{ResearchJobStatus}
use researchhub_engine.Repository.{get}
use researchhub_engine.Mappers.{JobSchema, to_job_schema}
use researchhub_engine.Access.{get_actor_id, get_tenant_id, identify}
use researchhub_engine.Service.{get_job}
use researchhub_engine.Router.{Request, Settings, endpoint, get_research_job}
use researchhub_engine.Router.Isolation.{IsOwn, get_research_job-IsOwn}
use researchhub_engine.World.{World}
use researchhub_engine.Tests.{job_as, world_as}
use researchhub_engine.Tests.Access.{decode, parse}

abbrev settings : Settings
settings = record {
  jwt_enabled = true;
  decode = decode;
  parse = parse;
  http_code = λ n. "HTTP_401";
  limits = record { rate = "20/minute"; is_test = false; hit = λ caller. true };
  text_of = λ id. "id";
  files = [];
}

-- a token of tenant 2, with the header of another tenant
abbrev request : Request
request = record {
  credentials = some "signed";
  x_actor_id = none;
  x_tenant_id = some "tenant-1";
  x_idempotency_key = none;
  host = none;
}

abbrev running : World
running = world_as ResearchJobStatus.running

abbrev shown : JobSchema
shown =
    to_job_schema settings.text_of settings.files running.db true (job_as ResearchJobStatus.running)

answered_with_data : get_research_job settings request 1 running ≡ (inr shown, running)
unfolding get_research_job endpoint get_job get identify get_actor_id get_tenant_id
answered_with_data = refl

get_research_job-IsOwn_example : IsOwn settings request 1 running shown × (running ≡ running)
get_research_job-IsOwn_example =
    get_research_job-IsOwn settings request 1 running running shown refl answered_with_data
