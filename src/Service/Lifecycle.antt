-- ===== src/Service/Lifecycle.antt =====
-- The lifecycle of a job, as the comment on `ResearchJobStatus` in backend/app/engine/schemas.py
-- gives it, and the service methods that assign a status.
use researchhub_engine.Prelude.{
  String, ◌≡◌, refl, ◌⊎◌, inl, inr, Bool, true, false, Option, none, some, arith,
}
use researchhub_engine.Schemas.{ResearchJobStatus}
use researchhub_engine.Models.{Uuid, ResearchJob}
use researchhub_engine.Repository.{get, update_job}
use researchhub_engine.Repository.Queries.{KeepsIdentity, get-update_job_self}
use researchhub_engine.Errors.{ResearchEngineError, job_not_found}
use researchhub_engine.World.{World, Result, ok, err, M, or_raise, guard, ◌>>=◌, ◌>>◌}
use researchhub_engine.Service.{
  is_cancellable, is_reviewable, is_reviewed, get_job, commit_job, cancelled_from, cancel_job,
  mark_reviewed, archive_job,
}

-- One documented transition.
pub data Transition : ResearchJobStatus → ResearchJobStatus → Type 0 where
  pick_up : Transition ResearchJobStatus.queued ResearchJobStatus.running
  complete : Transition ResearchJobStatus.running ResearchJobStatus.completed
  complete_partly : Transition ResearchJobStatus.running ResearchJobStatus.partial
  fail : Transition ResearchJobStatus.running ResearchJobStatus.failed
  cancel_queued : Transition ResearchJobStatus.queued ResearchJobStatus.cancelled
  cancel_running : Transition ResearchJobStatus.running ResearchJobStatus.cancelling
  drain : Transition ResearchJobStatus.cancelling ResearchJobStatus.cancelled
  review_completed : Transition ResearchJobStatus.completed ResearchJobStatus.reviewed
  review_partial : Transition ResearchJobStatus.partial ResearchJobStatus.reviewed
  archive : Transition ResearchJobStatus.reviewed ResearchJobStatus.archived

-- Zero or one transition.
abbrev pub Moves : ResearchJobStatus → ResearchJobStatus → Type 0
Moves s t = (t ≡ s) ⊎ Transition s t

-- The documented lifecycle lets a job of this status be cancelled, reviewed, archived.
abbrev pub CanCancel : ResearchJobStatus → Type 0
CanCancel s = Transition s ResearchJobStatus.cancelled ⊎ Transition s ResearchJobStatus.cancelling

abbrev pub CanReview : ResearchJobStatus → Type 0
CanReview s = Transition s ResearchJobStatus.reviewed

abbrev pub CanArchive : ResearchJobStatus → Type 0
CanArchive s = Transition s ResearchJobStatus.archived

abbrev pub IsCancelled : ResearchJobStatus → Type 0
IsCancelled s = (s ≡ ResearchJobStatus.cancelled) ⊎ (s ≡ ResearchJobStatus.cancelling)

-- What a call on one job has done, by how it ended. A job came back: the lifecycle allowed it (`Can`),
-- the status moved to a goal of the call (`Goal`), the tenant now reads that job, and documents and
-- queue are as before. Or the call raised: nothing was written, and the job was missing or the
-- lifecycle does not allow the call.
abbrev pub Advances :
    (ResearchJobStatus → Type 0)
    → (ResearchJobStatus → Type 0)
    → Uuid
    → Uuid
    → World
    → Result ResearchJob × World
    → Type 0
Advances Can Goal tenant_id job_id w (ok job', w') =
    (job : ResearchJob) × (get w.db job_id tenant_id ≡ some job)
    × Can job.status
    × Goal job'.status
    × Moves job.status job'.status
    × (get w'.db job_id tenant_id ≡ some job')
    × (w'.db.documents ≡ w.db.documents)
    × (w'.queue ≡ w.queue)
Advances Can Goal tenant_id job_id w (err e, w') =
    (w' ≡ w)
    × ((get w.db job_id tenant_id ≡ none)
        ⊎ ((job : ResearchJob) × (get w.db job_id tenant_id ≡ some job) × (¬ Can job.status)))

-- The shape of the three methods: read the job, check its status, assign columns.
abbrev pub checked_commit :
    (ResearchJobStatus → Bool)
    → ResearchEngineError
    → (ResearchJob → ResearchJob → ResearchJob)
    → Uuid
    → Uuid
    → M ResearchJob
checked_commit allowed error f tenant_id job_id = do
  job ← get_job tenant_id job_id
  guard (allowed job.status) error
  commit_job tenant_id job_id (f job)

-- What has to be known of a status check and an assignment.
record IsLawful (Can Goal : ResearchJobStatus → Type 0) (allowed : ResearchJobStatus → Bool)
    (f : ResearchJob → ResearchJob → ResearchJob) : Type 0 where
  keeps : (job : ResearchJob) → KeepsIdentity (f job)
  sound : (s : ResearchJobStatus) → allowed s ≡ true → Can s
  complete_check : (s : ResearchJobStatus) → allowed s ≡ false → ¬ Can s
  reaches : (job : ResearchJob) → allowed job.status ≡ true → Goal (f job job).status
  moves : (job : ResearchJob) → allowed job.status ≡ true → Moves job.status (f job job).status

module _ (Can Goal : ResearchJobStatus → Type 0) (allowed : ResearchJobStatus → Bool)
    (error : ResearchEngineError) (f : ResearchJob → ResearchJob → ResearchJob)
    (lawful : IsLawful Can Goal allowed f) (tenant_id job_id : Uuid) (w : World) where
  committed :
      (job : ResearchJob)
      → get w.db job_id tenant_id ≡ some job
      → (b : Bool) → allowed job.status ≡ b
      → Advances Can Goal tenant_id job_id w
          ((guard b error >> commit_job tenant_id job_id (f job)) w)
  unfolding commit_job
  committed job found true e =
      let now = get-update_job_self (f job) (lawful.keeps job) w.db job_id tenant_id job found in
      rw now (
        unfold update_job in
        (
          job,
          found,
          lawful.sound job.status e,
          lawful.reaches job e,
          lawful.moves job e,
          now,
          refl,
          refl,
        ))
  committed job found false e = (refl, inr (job, found, lawful.complete_check job.status e))

  checked_commit-Advances :
      Advances Can Goal tenant_id job_id w (checked_commit allowed error f tenant_id job_id w)
  unfolding get_job
  checked_commit-Advances = go (get w.db job_id tenant_id) refl
    where
      go :
          (o : Option ResearchJob)
          → get w.db job_id tenant_id ≡ o
          → Advances Can Goal tenant_id job_id w (
              (or_raise o (job_not_found (some job_id)) >>= λ job.
              guard (allowed job.status) error >> commit_job tenant_id job_id (f job))
                w)
      go none e = (refl, inl e)
      go (some job) e = committed job e (allowed job.status) refl

keeps_identity :
    (f : ResearchJob → ResearchJob)
    → ((r : ResearchJob) → (f r).id ≡ r.id)
    → ((r : ResearchJob) → (f r).tenant_id ≡ r.tenant_id)
    → ((r : ResearchJob) → (f r).idempotency_key ≡ r.idempotency_key)
    → ((r : ResearchJob) → (f r).deleted_at ≡ r.deleted_at)
    → KeepsIdentity f
keeps_identity f a b c d = record { same_id = a; same_tenant = b; same_key = c; same_deletion = d }

cancel_sound : (s : ResearchJobStatus) → is_cancellable s ≡ true → CanCancel s
cancel_sound ResearchJobStatus.queued h = inl cancel_queued
cancel_sound ResearchJobStatus.running h = inr cancel_running
cancel_sound ResearchJobStatus.cancelling h = inl drain
cancel_sound _ h = cc

cancel_complete : (s : ResearchJobStatus) → is_cancellable s ≡ false → ¬ CanCancel s
cancel_complete s h (inl cancel_queued) = cc
cancel_complete s h (inl drain) = cc
cancel_complete s h (inr cancel_running) = cc

cancel_reaches : (s : ResearchJobStatus) → is_cancellable s ≡ true → IsCancelled (cancelled_from s)
cancel_reaches s h = ground arith

cancel-Moves : (s : ResearchJobStatus) → is_cancellable s ≡ true → Moves s (cancelled_from s)
cancel-Moves ResearchJobStatus.queued h = inr cancel_queued
cancel-Moves ResearchJobStatus.running h = inr cancel_running
cancel-Moves ResearchJobStatus.cancelling h = inl refl
cancel-Moves _ h = cc

review_sound : (s : ResearchJobStatus) → is_reviewable s ≡ true → CanReview s
review_sound ResearchJobStatus.completed h = review_completed
review_sound ResearchJobStatus.partial h = review_partial
review_sound _ h = cc

review_complete : (s : ResearchJobStatus) → is_reviewable s ≡ false → ¬ CanReview s
review_complete s h review_completed = cc
review_complete s h review_partial = cc

archive_sound : (s : ResearchJobStatus) → is_reviewed s ≡ true → CanArchive s
archive_sound ResearchJobStatus.reviewed h = archive
archive_sound _ h = cc

archive_complete : (s : ResearchJobStatus) → is_reviewed s ≡ false → ¬ CanArchive s
archive_complete s h archive = cc

-- `cancel_job` returns a job exactly where the documented lifecycle has a way from its status to
-- `cancelled` or `cancelling`. The job is then in one of the two, one transition on or where it was,
-- and is what the tenant reads; documents and queue are as before. Otherwise it raises and writes
-- nothing.
pub cancel_job-Advances :
    (tenant_id job_id : Uuid) (reason : Option String) (w : World)
    → Advances CanCancel IsCancelled tenant_id job_id w (cancel_job tenant_id job_id reason w)
unfolding cancel_job
cancel_job-Advances tenant_id job_id reason w =
    checked_commit-Advances CanCancel IsCancelled is_cancellable _ _
      (record {
        keeps = λ job. keeps_identity _ (λ r. refl) (λ r. refl) (λ r. refl) (λ r. refl);
        sound = cancel_sound;
        complete_check = cancel_complete;
        reaches = λ job. cancel_reaches job.status;
        moves = λ job. cancel-Moves job.status;
      })
      tenant_id job_id w

-- `mark_reviewed` returns the job as reviewed exactly where the documented lifecycle leads from its
-- status to `reviewed`, and the tenant then reads it so; otherwise it raises and writes nothing.
pub mark_reviewed-Advances :
    (tenant_id job_id : Uuid) (w : World)
    → Advances CanReview
        (λ s. s ≡ ResearchJobStatus.reviewed)
        tenant_id
        job_id
        w
        (mark_reviewed tenant_id job_id w)
unfolding mark_reviewed
mark_reviewed-Advances tenant_id job_id w =
    checked_commit-Advances CanReview _ is_reviewable _ _
      (record {
        keeps = λ job. keeps_identity _ (λ r. refl) (λ r. refl) (λ r. refl) (λ r. refl);
        sound = review_sound;
        complete_check = review_complete;
        reaches = λ job h. refl;
        moves = λ job h. inr (review_sound job.status h);
      })
      tenant_id job_id w

-- `archive_job` returns the job as archived exactly where the documented lifecycle leads from its
-- status to `archived`, and the tenant then reads it so; otherwise it raises and writes nothing.
pub archive_job-Advances :
    (tenant_id job_id : Uuid) (w : World)
    → Advances CanArchive
        (λ s. s ≡ ResearchJobStatus.archived)
        tenant_id
        job_id
        w
        (archive_job tenant_id job_id w)
unfolding archive_job
archive_job-Advances tenant_id job_id w =
    checked_commit-Advances CanArchive _ is_reviewed _ _
      (record {
        keeps = λ job. keeps_identity _ (λ r. refl) (λ r. refl) (λ r. refl) (λ r. refl);
        sound = archive_sound;
        complete_check = archive_complete;
        reaches = λ job h. refl;
        moves = λ job h. inr (archive_sound job.status h);
      })
      tenant_id job_id w
