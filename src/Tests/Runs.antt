-- ===== src/Tests/Runs.antt =====
-- Tests of the worker and the reaper.
use researchhub_engine.Prelude.{
  ℕ, String, ◌≡◌, refl, inr, Bool, true, false, Option, none, some, [], ◌∷◌, arith, map, length,
  HasDistinctKeys, str_eq, if◌then◌else◌, ◌==◌, ◌≢◌,
}
use researchhub_engine.Schemas.{ResearchJobStatus, ResearchDocStatus}
use researchhub_engine.Models.{ResearchJob, FetchedDocument}
use researchhub_engine.Repository.{Db, get, update_job, list_for_job}
use researchhub_engine.Repository.Queries.{KeepsIdentity, get-update_job, get-update_job_self}
use researchhub_engine.World.{Task}
use researchhub_engine.Service.{status_of_documents}
use researchhub_engine.Worker.{
  fetched_of, skip, drain, research_job, returned, finish, finished, loop,
}
use researchhub_engine.Worker.Rounds.{id_of, ReturnsSettled}
use researchhub_engine.Worker.Runs.{IsLeftAlone}
use researchhub_engine.Worker.Stopping.{StaysAt, EndsWith}
use researchhub_engine.Worker.Cancellation.{
  RowEnds, cancel_skips_rest, late_cancel_lost, cancelled_run_completes,
}
use researchhub_engine.Models.{ResearchDocument}
use researchhub_engine.Worker.Drain.{IsDrained, research_job_drains}
use researchhub_engine.Worker.Callback.{attempts}
use researchhub_engine.Worker.Delivery.{IsDelivery, attempts-IsDelivery}
use researchhub_engine.Worker.Reaper.{reaper_research_jobs}
use researchhub_engine.Worker.Sweeps.{IsSweep, reaper_research_jobs-IsSweep}
use researchhub_engine.Service.Outcome.{is_settled}
use researchhub_engine.Tests.{
  order, fetched_link, service, clock, unchanged, job_as, document_as, two_documents, db_as,
  world_as,
}

abbrev queued_db : Db
queued_db = db_as ResearchJobStatus.queued ResearchDocStatus.queued ResearchDocStatus.queued

pub service-ReturnsSettled : ReturnsSettled service
unfolding fetched_of
service-ReturnsSettled = record { at = λ o t i f h. answered t f (str_eq t "PARCEL_RECORD") h }
  where
    answered :
        (t : String) (f : FetchedDocument) (b : Bool)
        → (if b then inr (fetched_link "PARCEL_RECORD") else fetched_of t (inr [])) ≡ inr f
        → is_settled f.status ≡ true
    answered t f true h = let same : f ≡ fetched_link "PARCEL_RECORD" = cc in rw same refl
    answered t f false h = cc

pub unchanged-IsLeftAlone : IsLeftAlone unchanged 1 2
unchanged-IsLeftAlone = record { documents = λ i db. refl; present = λ i db job h. (job, h) }

research_job_drains_example :
    let db = db_as ResearchJobStatus.cancelled ResearchDocStatus.queued ResearchDocStatus.queued in
    let db' = drain clock (job_as ResearchJobStatus.cancelled) db in
    (research_job service 2 clock unchanged 1 db ≡ returned db')
    × (list_for_job db' 1 ≡ map skip (list_for_job db 1))
    × ((row : ResearchJob) × (get db' 1 2 ≡ some row) × IsDrained (length (list_for_job db 1)) row)
research_job_drains_example =
    research_job_drains service 2 clock unchanged 1
      (db_as ResearchJobStatus.cancelled ResearchDocStatus.queued ResearchDocStatus.queued)
      (job_as ResearchJobStatus.cancelled) (unfold get in refl) refl
      (unfold list_for_job in ((λ e. absurd (omega (arith, e)), tt), (tt, tt)))

-- Another session cancels the running job at the second look of the worker, and it stays so.
abbrev to_cancelling : ResearchJob → ResearchJob
to_cancelling r = record r { status = ResearchJobStatus.cancelling }

abbrev cancelling : ℕ → Db → Db
cancelling i db = update_job 1 to_cancelling db

to_cancelling-KeepsIdentity : KeepsIdentity to_cancelling
to_cancelling-KeepsIdentity = record {
  same_id = λ r. refl;
  same_tenant = λ r. refl;
  same_key = λ r. refl;
  same_deletion = λ r. refl;
}

cancelling-IsLeftAlone : IsLeftAlone cancelling 1 2
cancelling-IsLeftAlone = record {
  documents = λ i db. unfold list_for_job update_job in refl;
  present = λ i db job h. (
    to_cancelling job,
    get-update_job_self to_cancelling to_cancelling-KeepsIdentity db 1 2 job h,
  );
}

cancelling-StaysAt : StaysAt ResearchJobStatus.cancelling cancelling 1 2 1
cancelling-StaysAt = record { read = λ i db job le h. read db job h (get db 1 2) refl }
  where
    read :
        (db : Db) (job : ResearchJob)
        → get (update_job 1 to_cancelling db) 1 2 ≡ some job
        → (o : Option ResearchJob) → get db 1 2 ≡ o
        → job.status ≡ ResearchJobStatus.cancelling
    read db job h none e =
        absurd (cc (h, get-update_job to_cancelling to_cancelling-KeepsIdentity db 1 1 2, e))
    read db job h (some r) e =
        let same : job ≡ to_cancelling r =
          cc (h, get-update_job_self to_cancelling to_cancelling-KeepsIdentity db 1 2 r e) in
        rw same refl

abbrev running_db : Db
running_db = db_as ResearchJobStatus.running ResearchDocStatus.fetched ResearchDocStatus.queued

abbrev done : ResearchDocument
done = document_as 10 "PARCEL_RECORD" ResearchDocStatus.fetched

abbrev waiting : ResearchDocument
waiting = document_as 11 "NGS_CONTROL" ResearchDocStatus.queued

distinct_running : HasDistinctKeys id_of (done ∷ waiting ∷ [])
distinct_running = ((λ e. absurd (omega (arith, e)), tt), (tt, tt))

cancel_skips_rest_example :
    EndsWith
      (λ s. s ≡ ResearchJobStatus.cancelled)
      1
      2
      (done ∷ map skip (waiting ∷ []))
      (finish service 2 clock cancelling (
        loop service 2 clock cancelling
          (some order)
          1
          running_db
          (job_as ResearchJobStatus.running)
          (done ∷ [])
          (waiting ∷ [])))
cancel_skips_rest_example =
    cancel_skips_rest service 2 clock cancelling 1 cancelling-IsLeftAlone 1 (some order)
      cancelling-StaysAt 1 running_db (job_as ResearchJobStatus.running)
      (job_as ResearchJobStatus.running) (done ∷ []) waiting [] (omega arith) refl
      (unfold get in refl) (unfold list_for_job in refl) distinct_running

-- Another session cancels a job whose row it saw as queued.
abbrev to_cancelled : ResearchJob → ResearchJob
to_cancelled r = record r { status = ResearchJobStatus.cancelled }

abbrev cancelled : ℕ → Db → Db
cancelled i db = update_job 1 to_cancelled db

to_cancelled-KeepsIdentity : KeepsIdentity to_cancelled
to_cancelled-KeepsIdentity = record {
  same_id = λ r. refl;
  same_tenant = λ r. refl;
  same_key = λ r. refl;
  same_deletion = λ r. refl;
}

cancelled-IsLeftAlone : IsLeftAlone cancelled 1 2
cancelled-IsLeftAlone = record {
  documents = λ i db. unfold list_for_job update_job in refl;
  present = λ i db job h.
      (to_cancelled job, get-update_job_self to_cancelled to_cancelled-KeepsIdentity db 1 2 job h);
}

cancelled-StaysAt : StaysAt ResearchJobStatus.cancelled cancelled 1 2 1
cancelled-StaysAt = record { read = λ i db job le h. read db job h (get db 1 2) refl }
  where
    read :
        (db : Db) (job : ResearchJob)
        → get (update_job 1 to_cancelled db) 1 2 ≡ some job
        → (o : Option ResearchJob) → get db 1 2 ≡ o
        → job.status ≡ ResearchJobStatus.cancelled
    read db job h none e =
        absurd (cc (h, get-update_job to_cancelled to_cancelled-KeepsIdentity db 1 1 2, e))
    read db job h (some r) e =
        let same : job ≡ to_cancelled r =
          cc (h, get-update_job_self to_cancelled to_cancelled-KeepsIdentity db 1 2 r e) in
        rw same refl

cancelled_run_completes_example :
    EndsWith
      (λ s. s ≡ ResearchJobStatus.completed)
      1
      2
      (done ∷ map skip (waiting ∷ []))
      (finish service 2 clock cancelled (
        loop service 2 clock cancelled
          (some order)
          1
          running_db
          (job_as ResearchJobStatus.running)
          (done ∷ [])
          (waiting ∷ [])))
cancelled_run_completes_example =
    cancelled_run_completes service 2 clock cancelled 1 cancelled-IsLeftAlone 1 (some order)
      cancelled-StaysAt 1 running_db (job_as ResearchJobStatus.running)
      (job_as ResearchJobStatus.running) (done ∷ []) waiting [] (omega arith) refl
      (unfold get in refl) (unfold list_for_job in refl) distinct_running (refl, tt)

late_cancel_lost_example :
    let docs = two_documents ResearchDocStatus.fetched ResearchDocStatus.fetched in
    let db = db_as ResearchJobStatus.running ResearchDocStatus.fetched ResearchDocStatus.fetched in
    RowEnds 1 2
      (λ s.
        (s ≡ status_of_documents (list_for_job (cancelling 2 db) 1))
        × (s ≢ ResearchJobStatus.cancelled))
      (finish service 2 clock cancelling (finished db (job_as ResearchJobStatus.running) docs))
late_cancel_lost_example =
    late_cancel_lost service 2 clock cancelling
      (db_as ResearchJobStatus.running ResearchDocStatus.fetched ResearchDocStatus.fetched)
      (job_as ResearchJobStatus.running) (job_as ResearchJobStatus.cancelling)
      (two_documents ResearchDocStatus.fetched ResearchDocStatus.fetched) refl
      (unfold get update_job in refl) refl

-- The client answers with a server error at first, and then takes the callback.
abbrev post : ℕ → Option ℕ
post k = if k == 1 then some 503 else some 200

attempts-IsDelivery_example : IsDelivery post true 3 1 2 (attempts post true 3 1 2)
attempts-IsDelivery_example = attempts-IsDelivery post true 3 1 2

abbrev send : Task → Bool
send task = true

reaper_research_jobs-IsSweep_example :
    let w = world_as ResearchJobStatus.queued in
    IsSweep send 5000 5 w (reaper_research_jobs send 5000 5 w)
reaper_research_jobs-IsSweep_example =
    reaper_research_jobs-IsSweep send 5000 5 (world_as ResearchJobStatus.queued)
