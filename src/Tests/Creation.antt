-- ===== src/Tests/Creation.antt =====
-- A test of the creation of a job.
use researchhub_engine.Prelude.{
  Bool, ℕ, String, ◌+◌, ◌≡◌, refl, none, [], ◌∷◌, ◌++◌, true, arith, length,
}
use researchhub_engine.Models.{Uuid}
use researchhub_engine.Repository.{Db}
use researchhub_engine.World.{World, Task, ok}
use researchhub_engine.Schemas.{ResearchJobStatus}
use researchhub_engine.DocTypes.{
  collect, canonical_of, from_keys, has_key, lookup, validate_doc_types,
}
use researchhub_engine.Service.{resolve_order}
use researchhub_engine.Service.Creation.{create_job}
use researchhub_engine.Service.Success.{
  IsFresh, IsQueued, created_job, with_job, create_job_creates,
}
use researchhub_engine.Tests.{order, service, two_types, world_as}

abbrev as_written : String → String
as_written s = s

abbrev uuid4 : ℕ → Uuid
uuid4 n = n

abbrev no_race : Db → Db
no_race db = db

abbrev send : Task → Bool
send task = true

-- a world with a job and two documents already
abbrev before : World
before = world_as ResearchJobStatus.running

before-IsFresh : IsFresh service as_written uuid4 no_race 60 before.drawn before.db
before-IsFresh = record {
  jobs = ((λ e. absurd (omega (arith, e)), λ e. absurd (omega (arith, e))), tt);
  documents = (
    ((λ k le e. absurd (omega (arith, le, e))), λ e. absurd (omega (arith, e))),
    (((λ k le e. absurd (omega (arith, le, e))), λ e. absurd (omega (arith, e))), tt),
  );
}

accepted : validate_doc_types as_written two_types ≡ ok two_types
unfolding validate_doc_types collect from_keys canonical_of has_key lookup
accepted = refl

create_job_creates_example :
    let job = created_job service as_written uuid4 no_race 60 before.drawn 2 9 7 two_types none in
    (create_job service as_written uuid4 no_race 60 2 9 7 two_types none none before ≡ (
      ok job,
      record {
        db = with_job service as_written uuid4 no_race 60 (before.drawn + 2) job before.db;
        queue =
            before.queue
            ++ record { job_id = uuid4 (before.drawn + 1); tenant_id = 2; actor_id = 9 } ∷ [];
        drawn = before.drawn + 2 + length two_types;
      },
    ))
    × IsQueued 2 7 two_types job
create_job_creates_example =
    create_job_creates service as_written uuid4 no_race 60 send 2 9 7 order two_types two_types none
      before (λ i j e. e) refl (λ task. refl) (unfold resolve_order in refl) accepted before-IsFresh
