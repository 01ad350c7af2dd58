-- ===== src/Tests/Retries.antt =====
-- Tests of the retry of a job and of a task that is delivered again.
use researchhub_engine.Prelude.{
  ℕ, String, ◌≡◌, refl, inr, Option, none, some, List, [], ◌∷◌, All, arith, HasDistinctKeys,
}
use researchhub_engine.Schemas.{ResearchJobStatus, ResearchDocStatus}
use researchhub_engine.Models.{Uuid, ResearchJob}
use researchhub_engine.Repository.{
  Db, get, new_job, insert_job, list_failed, insert_document, new_document, list_for_job,
}
use researchhub_engine.World.{World, ok}
use researchhub_engine.DocTypes.{
  collect, canonical_of, from_keys, has_key, lookup, validate_doc_types,
}
use researchhub_engine.DocTypes.Lookup.{IsRequestable}
use researchhub_engine.Service.{get_job}
use researchhub_engine.Service.Creation.{retry_job, create_job}
use researchhub_engine.Service.Retries.{failed_types, IsRetry, retry_job-IsRetry}
use researchhub_engine.Worker.{research_job}
use researchhub_engine.Worker.Rounds.{id_of}
use researchhub_engine.Worker.Cancellation.{RowEnds}
use researchhub_engine.Worker.Redelivery.{IsUnreviewed, reviewed_job_reruns}
use researchhub_engine.Tests.{service, provider, clock, unchanged, job_as, db_as}
use researchhub_engine.Tests.Runs.{service-ReturnsSettled, unchanged-IsLeftAlone}

abbrev as_written : String → String
as_written s = s

abbrev uuid4 : ℕ → Uuid
uuid4 n = n

abbrev no_race : Db → Db
no_race db = db

-- the benchmarks failed
abbrev partial_world : World
partial_world = record {
  db = db_as ResearchJobStatus.partial ResearchDocStatus.fetched ResearchDocStatus.failed;
  queue = [];
  drawn = 100;
}

abbrev wanted : Option (List String)
wanted = some ("PARCEL_RECORD" ∷ "NGS_CONTROL" ∷ [])

abbrev second_job : ResearchJob
second_job = record (job_as ResearchJobStatus.queued) {
  id = 101;
  idempotency_key = 100;
  requested_doc_types = "NGS_CONTROL" ∷ [];
  total_documents = 1;
  started_at = none;
  created_at = 60;
}

abbrev after_retry : World
after_retry = (retry_job service as_written uuid4 no_race 60 2 9 1 wanted partial_world).1

retried :
    retry_job service as_written uuid4 no_race 60 2 9 1 wanted partial_world
    ≡ (ok second_job, after_retry)
unfolding retry_job get_job get list_failed create_job validate_doc_types collect canonical_of
    has_key lookup insert_job new_job from_keys insert_document new_document
retried = refl

failed_types-IsRequestable : All IsRequestable (failed_types partial_world.db 1)
unfolding list_failed has_key lookup
failed_types-IsRequestable = (refl, tt)

retry_job-IsRetry_example :
    (original : ResearchJob) × (get partial_world.db 1 2 ≡ some original)
    × IsRetry original 2 (failed_types partial_world.db 1) wanted second_job
retry_job-IsRetry_example =
    retry_job-IsRetry service as_written uuid4 no_race 60 2 9 1 wanted second_job partial_world
      after_retry failed_types-IsRequestable retried

abbrev archived_db : Db
archived_db = db_as ResearchJobStatus.archived ResearchDocStatus.fetched ResearchDocStatus.uploaded

archived_distinct : HasDistinctKeys id_of (list_for_job archived_db 1)
unfolding list_for_job
archived_distinct = ((λ e. absurd (omega (arith, e)), tt), (tt, tt))

reviewed_job_reruns_example :
    RowEnds 1 2 IsUnreviewed (research_job service 2 clock unchanged 1 archived_db)
reviewed_job_reruns_example =
    reviewed_job_reruns service 2 clock unchanged 1 archived_db (job_as ResearchJobStatus.archived)
      {provider = provider} service-ReturnsSettled unchanged-IsLeftAlone refl (unfold get in refl)
      (inr refl) archived_distinct
