-- ===== src/Tests/Calls.antt =====
-- Tests of the service's calls, of the counters and of the document types.
use researchhub_engine.Prelude.{
  ℕ, String, ◌+◌, ◌≡◌, ◌≢◌, ◌↔◌, refl, ◌⊎◌, none, some, List, [], ◌∷◌, All, AreDistinct, contains,
  any_by,
}
use researchhub_engine.Errors.{engine, invalid_doc_types}
use researchhub_engine.Schemas.{ResearchJobStatus, ResearchDocStatus, ResearchErrorCode, value}
use researchhub_engine.Models.{Uuid, ResearchJob}
use researchhub_engine.Repository.{
  Db, get_by_idempotency, new_job, insert_job, insert_document, new_document, list_for_job,
}
use researchhub_engine.World.{World, ok, err}
use researchhub_engine.DocTypes.{
  step_to_doc_type, doc_type_to_step, lookup, has_key, canonical_of, collect, from_keys,
  validate_doc_types,
}
use researchhub_engine.DocTypes.Lookup.{IsRequestable, lookup-eq-some_iff}
use researchhub_engine.DocTypes.Order.{sorted, IsAscending, count_of}
use researchhub_engine.DocTypes.Validation.{
  stands_for, unknown_types, validate_doc_types-eq-err_iff, validate_doc_types_sound,
  contains-validate_doc_types, validate_doc_types_idem,
}
use researchhub_engine.Service.{
  recalc_job_counters, resolve_job_terminal_status, resolve_order, cancel_job, mark_reviewed,
  archive_job,
}
use researchhub_engine.Service.Outcome.{
  HasBounds, NoneFailed, AllLost, recalc_job_counters-HasBounds, recalc_job_counters_total,
  resolve_job_terminal_status_iff,
}
use researchhub_engine.Service.Lifecycle.{
  CanCancel, CanReview, CanArchive, IsCancelled, Advances, cancel_job-Advances,
  mark_reviewed-Advances, archive_job-Advances,
}
use researchhub_engine.Service.Creation.{create_job}
use researchhub_engine.Service.Idempotency.{create_job-get_by_idempotency}
use researchhub_engine.Consistency.Repeats.{at_once, later, create_job_again}
use researchhub_engine.Consistency.Reachable.{cancels}
use researchhub_engine.Mappers.{to_error_code}
use researchhub_engine.Mappers.Codes.{to_error_code-eq-some_iff}
use researchhub_engine.Tests.{order, service, two_types, job_as, two_documents, db_as, world_as}

cancel_job-Advances_example :
    Advances CanCancel IsCancelled 2 1
      (world_as ResearchJobStatus.running)
      (cancel_job 2 1 (some "no longer needed") (world_as ResearchJobStatus.running))
cancel_job-Advances_example =
    cancel_job-Advances 2 1 (some "no longer needed") (world_as ResearchJobStatus.running)

mark_reviewed-Advances_example :
    Advances CanReview
      (λ s. s ≡ ResearchJobStatus.reviewed)
      2
      1
      (world_as ResearchJobStatus.partial)
      (mark_reviewed 2 1 (world_as ResearchJobStatus.partial))
mark_reviewed-Advances_example = mark_reviewed-Advances 2 1 (world_as ResearchJobStatus.partial)

archive_job-Advances_example :
    Advances CanArchive
      (λ s. s ≡ ResearchJobStatus.archived)
      2
      1
      (world_as ResearchJobStatus.reviewed)
      (archive_job 2 1 (world_as ResearchJobStatus.reviewed))
archive_job-Advances_example = archive_job-Advances 2 1 (world_as ResearchJobStatus.reviewed)

recalc_job_counters-HasBounds_example : HasBounds (
    recalc_job_counters
      (job_as ResearchJobStatus.running)
      (two_documents ResearchDocStatus.uploaded ResearchDocStatus.failed))
recalc_job_counters-HasBounds_example =
    recalc_job_counters-HasBounds (job_as ResearchJobStatus.running)
      (two_documents ResearchDocStatus.uploaded ResearchDocStatus.failed)

recalc_job_counters_total_example :
    let j =
      recalc_job_counters
        (job_as ResearchJobStatus.running)
        (two_documents ResearchDocStatus.uploaded ResearchDocStatus.failed) in
    j.fetched_documents + j.failed_documents + j.cancelled_documents ≡ j.total_documents
recalc_job_counters_total_example =
    recalc_job_counters_total (job_as ResearchJobStatus.running)
      (two_documents ResearchDocStatus.uploaded ResearchDocStatus.failed) (refl, (refl, tt))

resolve_job_terminal_status_iff_example :
    let db = db_as ResearchJobStatus.running ResearchDocStatus.uploaded ResearchDocStatus.failed in
    let docs = list_for_job db 1 in
    let s = resolve_job_terminal_status db (job_as ResearchJobStatus.running) in
    ((s ≡ ResearchJobStatus.completed) ↔ ((docs ≢ []) × NoneFailed docs))
    × ((s ≡ ResearchJobStatus.partial) ↔ ((¬ NoneFailed docs) × (¬ AllLost docs)))
    × ((s ≡ ResearchJobStatus.failed) ↔ ((docs ≡ []) ⊎ ((¬ NoneFailed docs) × AllLost docs)))
resolve_job_terminal_status_iff_example =
    resolve_job_terminal_status_iff
      (db_as ResearchJobStatus.running ResearchDocStatus.uploaded ResearchDocStatus.failed)
      (job_as ResearchJobStatus.running) (λ e. cc)

-- `str.lower` on names that are in lower case or known as they are
abbrev as_written : String → String
as_written s = s

abbrev deed_types : List String
deed_types = "DEED_SUBJECT_PARCEL" ∷ "PARCEL_RECORD" ∷ []

abbrev deed_request : List String
deed_request = "deed" ∷ "PARCEL_RECORD" ∷ "deed" ∷ []

accepted : validate_doc_types as_written deed_request ≡ ok deed_types
unfolding validate_doc_types collect from_keys canonical_of has_key lookup
accepted = refl

abbrev bad_names : List String
bad_names = "sonar" ∷ "deed" ∷ "radar" ∷ []

validate_doc_types-eq-err_iff_example :
    let unknown = unknown_types as_written bad_names in
    ((validate_doc_types as_written bad_names
        ≡ err (engine (invalid_doc_types ("radar" ∷ "sonar" ∷ []))))
      ↔ ((unknown ≢ [])
          × (engine (invalid_doc_types ("radar" ∷ "sonar" ∷ []))
              ≡ engine (invalid_doc_types (sorted unknown)))))
    × IsAscending (sorted unknown)
    × ((t : String) → count_of t (sorted unknown) ≡ count_of t unknown)
validate_doc_types-eq-err_iff_example =
    validate_doc_types-eq-err_iff as_written bad_names
      (engine (invalid_doc_types ("radar" ∷ "sonar" ∷ [])))

validate_doc_types_sound_example :
    All IsRequestable deed_types × AreDistinct deed_types × (deed_types ≢ [])
validate_doc_types_sound_example =
    validate_doc_types_sound as_written deed_request {types = deed_types} accepted

contains-validate_doc_types_example :
    contains "PARCEL_RECORD" deed_types
    ≡ any_by (λ r. stands_for as_written r "PARCEL_RECORD") deed_request
contains-validate_doc_types_example =
    contains-validate_doc_types as_written "deed" ("PARCEL_RECORD" ∷ "deed" ∷ [])
      {types = deed_types} "PARCEL_RECORD" accepted

validate_doc_types_idem_example : validate_doc_types as_written deed_types ≡ ok deed_types
validate_doc_types_idem_example =
    validate_doc_types_idem as_written deed_request {types = deed_types} accepted

lookup-eq-some_iff_example :
    (lookup "benchmarks" step_to_doc_type ≡ some "NGS_CONTROL")
    ↔ (lookup "NGS_CONTROL" doc_type_to_step ≡ some "benchmarks")
lookup-eq-some_iff_example = lookup-eq-some_iff "benchmarks" "NGS_CONTROL"

to_error_code-eq-some_iff_example :
    (to_error_code "TIMEOUT" ≡ some ResearchErrorCode.timeout)
    ↔ ("TIMEOUT" ≡ value ResearchErrorCode.timeout)
to_error_code-eq-some_iff_example = to_error_code-eq-some_iff "TIMEOUT" ResearchErrorCode.timeout

abbrev empty : World
empty = record { db = record { jobs = []; documents = [] }; queue = []; drawn = 100 }

abbrev uuid4 : ℕ → Uuid
uuid4 n = n

abbrev no_race : Db → Db
no_race db = db

-- the job and the world after a first request with the key 5
abbrev first_job : ResearchJob
first_job = record (job_as ResearchJobStatus.queued) { id = 100; started_at = none }

abbrev first_world : World
first_world = (create_job service as_written uuid4 no_race 0 2 9 7 two_types (some 5) none empty).1

created :
    create_job service as_written uuid4 no_race 0 2 9 7 two_types (some 5) none empty
    ≡ (ok first_job, first_world)
unfolding create_job validate_doc_types collect canonical_of has_key lookup get_by_idempotency
    insert_job new_job from_keys insert_document new_document
created = refl

create_job-get_by_idempotency_example : get_by_idempotency first_world.db 5 2 ≡ some first_job
create_job-get_by_idempotency_example =
    create_job-get_by_idempotency service as_written uuid4 no_race 0 2 9 7 two_types 5 none
      first_job empty first_world created

-- the job is cancelled before the second call
abbrev cancelled_world : World
cancelled_world = (cancel_job 2 first_job.id none first_world).1

create_job_again_example :
    (job' : ResearchJob) × (create_job service as_written uuid4 no_race 60 2 8 7 deed_request
        (some 5)
        none
        cancelled_world
      ≡ (ok job', cancelled_world))
    × (get_by_idempotency cancelled_world.db 5 2 ≡ some job')
    × (job'.id ≡ first_job.id)
    × (job'.tenant_id ≡ first_job.tenant_id)
    × (job'.idempotency_key ≡ first_job.idempotency_key)
create_job_again_example =
    create_job_again service as_written uuid4 no_race no_race 0 60 2 9 8 7 7 two_types deed_request
      deed_types 5 none none first_job order empty first_world cancelled_world created
      (later at_once (cancels 2 first_job.id none)) (unfold resolve_order in refl) accepted
