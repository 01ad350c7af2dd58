-- ===== src/Router.antt =====
-- backend/app/engine/router.py: the endpoints. A request is let in by the dependencies of an endpoint, in
-- their order, calls the service as its actor and tenant, and is answered with what the mapper makes of
-- the result, or with the response of the handler of backend/app/main.py for what was raised. Bodies are
-- values of their schemas already.
pub mod Isolation
use researchhub_engine.Prelude.{
  ℕ, String, ◌⊎◌, inl, inr, Bool, true, false, Option, none, some, List, [], ◌∷◌, map, str_eq,
  if◌then◌else◌,
}
use researchhub_engine.Errors.{Response, Raised, http_exception_handler, respond}
use researchhub_engine.Models.{Uuid, Time, ResearchJob}
use researchhub_engine.Repository.{Db}
use researchhub_engine.World.{World, Result, ok, err, M, ResearchService}
use researchhub_engine.Access.{Claims, identify}
use researchhub_engine.Limiter.{Limits, rate_limit}
use researchhub_engine.Adapters.{File}
use researchhub_engine.Mappers.{JobSchema, JobSummary, to_job_schema, to_job_summary_schema}
use researchhub_engine.Service.{get_job, cancel_job, list_order_jobs}
use researchhub_engine.Service.Creation.{create_job, retry_job}

-- what the dependencies read of a request
pub record Request : Type 0 where
  pub credentials : Option String
  pub x_actor_id : Option String
  pub x_tenant_id : Option String
  pub x_idempotency_key : Option Uuid
  pub host : Option String

pub record CreateResearchJobRequest : Type 0 where
  pub order_id : Uuid
  pub document_types : List String
  pub idempotency_key : Option Uuid
  pub callback_url : Option String

-- the settings and libraries that the endpoints share
pub record Settings : Type 0 where
  pub jwt_enabled : Bool
  pub decode : String → Option Claims
  pub parse : String → Option Uuid
  pub http_code : ℕ → String
  pub limits : Limits
  pub text_of : Uuid → String
  pub files : List File

-- an endpoint's answer: the response to what was raised, or the data with status 200
abbrev pub Answer : Type 0 → Type 0
Answer A = (Response ⊎ A) × World

-- `payload.callback_url if payload.callback_url else None`
abbrev pub full_url : Option String → Option String
full_url none = none
full_url (some url) = if str_eq url "" then none else some url

module _ (settings : Settings) where
  -- what becomes of the result of a call
  abbrev pub answer : {A B : Type 0} → (Db → A → B) → Result A × World → Answer B
  answer read (ok a, w) = (inr (read w.db a), w)
  answer read (err e, w) = (inl (respond e), w)

  abbrev pub as_caller :
      {A B : Type 0}
      → (Uuid → Uuid → M A)
      → (Db → A → B)
      → World
      → String ⊎ (Uuid × Uuid)
      → Answer B
  as_caller call read w (inl detail) =
      (inl (http_exception_handler settings.http_code 401 detail), w)
  as_caller call read w (inr (actor_id, tenant_id)) = answer read (call actor_id tenant_id w)

  -- the dependencies, the call and the mapper
  unfoldable pub endpoint :
      {A B : Type 0} → Request → (Uuid → Uuid → M A) → (Db → A → B) → World → Answer B
  unfolding identify http_exception_handler respond
  endpoint request call read w = as_caller call read w (
      identify settings.decode settings.parse settings.jwt_enabled request.credentials
        request.x_actor_id request.x_tenant_id)

  abbrev pub job_data : Db → ResearchJob → JobSchema
  job_data db job = to_job_schema settings.text_of settings.files db true job

  unfoldable pub get_research_job : Request → Uuid → World → Answer JobSchema
  unfolding endpoint get_job to_job_schema
  get_research_job request job_id =
      endpoint request (λ actor_id tenant_id. get_job tenant_id job_id) job_data

  unfoldable pub cancel_research_job :
      Request → Uuid → Option (Option String) → World → Answer JobSchema
  unfolding endpoint cancel_job to_job_schema
  cancel_research_job request job_id body =
      endpoint request
        (λ actor_id tenant_id.
          cancel_job tenant_id job_id (elim body [ none ↦ none | some reason ↦ reason ]))
        job_data

  -- `list_order_jobs`
  unfoldable pub list_research_jobs : Request → Uuid → World → Answer (List JobSummary)
  unfolding endpoint list_order_jobs to_job_summary_schema
  list_research_jobs request order_id =
      endpoint request (λ actor_id tenant_id. list_order_jobs tenant_id order_id)
        (λ db jobs. map to_job_summary_schema jobs)

  module _ (service : ResearchService) (lower : String → String) (uuid4 : ℕ → Uuid) (race : Db → Db)
      (now : Time) where
    -- a request that the limiter refuses goes no further
    abbrev pub unless_refused : World → Option Response → Answer JobSchema → Answer JobSchema
    unless_refused w none rest = rest
    unless_refused w (some response) rest = (inl response, w)

    unfoldable pub create_research_job :
        Request → CreateResearchJobRequest → World → Answer JobSchema
    unfolding endpoint create_job to_job_schema rate_limit
    create_research_job request body w =
        unless_refused w
          (rate_limit settings.http_code settings.limits request.x_tenant_id request.host)
          (endpoint request
            (λ actor_id tenant_id.
              create_job service lower uuid4 race now tenant_id actor_id body.order_id
                body.document_types request.x_idempotency_key (full_url body.callback_url))
            job_data w)

    unfoldable pub retry_research_job :
        Request → Uuid → Option (Option (List String)) → World → Answer JobSchema
    unfolding endpoint retry_job to_job_schema
    retry_research_job request job_id body =
        endpoint request
          (λ actor_id tenant_id.
            retry_job service lower uuid4 race now tenant_id actor_id job_id
              (elim body [ none ↦ none | some document_types ↦ document_types ]))
          job_data
