-- ===== src/Router/Isolation.antt =====
-- Whose data the endpoints of backend/app/engine/router.py show.
use mathlib.Core.Path.{subst}
use researchhub_engine.Prelude.{String, ◌≡◌, refl, ◌⊎◌, inl, inr, true, Option, none, some}
use researchhub_engine.Errors.{job_not_found}
use researchhub_engine.Models.{Uuid, ResearchJob}
use researchhub_engine.Repository.{get}
use researchhub_engine.Repository.Queries.{get-tenant_id}
use researchhub_engine.World.{World, or_raise}
use researchhub_engine.Access.{identify}
use researchhub_engine.Access.Tokens.{Vouches, identify-Vouches}
use researchhub_engine.Mappers.{JobSchema, to_job_schema}
use researchhub_engine.Service.{get_job}
use researchhub_engine.Router.{
  Request, Settings, answer, as_caller, endpoint, job_data, get_research_job,
}

-- The caller's token vouches for a tenant, and the schema is that of a job of this tenant.
abbrev pub IsOwn : Settings → Request → Uuid → World → JobSchema → Type 0
IsOwn settings request job_id w schema =
    (token : String) × (actor_id : Uuid) × (tenant_id : Uuid) × (job : ResearchJob)
    × (request.credentials ≡ some token)
    × Vouches settings.decode settings.parse token actor_id tenant_id
    × (get w.db job_id tenant_id ≡ some job)
    × (job.tenant_id ≡ tenant_id)
    × (schema ≡ to_job_schema settings.text_of settings.files w.db true job)

module _ (settings : Settings) (request : Request) (job_id : Uuid) (w w' : World)
    (schema : JobSchema) where
  read :
      (tenant_id : Uuid) (o : Option ResearchJob)
      → answer settings (job_data settings) (or_raise o (job_not_found (some job_id)) w)
        ≡ (inr schema, w')
      → (job : ResearchJob) × (o ≡ some job)
        × (schema ≡ to_job_schema settings.text_of settings.files w.db true job)
        × (w' ≡ w)
  read tenant_id none e = cc
  read tenant_id (some job) e = (job, refl, cc, cc)

  -- Where tokens are required, a request for a job that is answered with data comes with a token that
  -- decodes and names a tenant, and the data are those of the job that this tenant reads under the id;
  -- no header has a say. Nothing is written.
  pub get_research_job-IsOwn :
      settings.jwt_enabled ≡ true
      → get_research_job settings request job_id w ≡ (inr schema, w')
      → IsOwn settings request job_id w schema × (w' ≡ w)
  unfolding get_research_job endpoint get_job
  get_research_job-IsOwn required e =
      by_identity
        (identify settings.decode settings.parse true request.credentials request.x_actor_id
          request.x_tenant_id)
        refl
        (subst
          (λ b.
            as_caller settings (λ a t. get_job t job_id) (job_data settings) w
              (identify settings.decode settings.parse b request.credentials request.x_actor_id
                request.x_tenant_id)
            ≡ (inr schema, w'))
          required e)
    where
      by_identity :
          (r : String ⊎ (Uuid × Uuid))
          → identify settings.decode settings.parse true request.credentials request.x_actor_id
              request.x_tenant_id
            ≡ r
          → as_caller settings (λ a t. get_job t job_id) (job_data settings) w r ≡ (inr schema, w')
          → IsOwn settings request job_id w schema × (w' ≡ w)
      by_identity (inl detail) hi h = cc
      by_identity (inr (actor_id, tenant_id)) hi h =
          let (token, presented, vouches) =
            identify-Vouches settings.decode settings.parse request.credentials request.x_actor_id
              request.x_tenant_id actor_id tenant_id hi in
          let (job, found, same, still) = read tenant_id (get w.db job_id tenant_id) h in
          (
            (
              token,
              actor_id,
              tenant_id,
              job,
              presented,
              vouches,
              found,
              get-tenant_id w.db job_id tenant_id job found,
              same,
            ),
            still,
          )
