-- ===== src/Consistency/Calls.antt =====
-- The calls of backend/app/engine/service.py as sequences of writes.
use researchhub_engine.Prelude.{String, ◌≡◌, refl, Bool, true, false, Option, none, some}
use researchhub_engine.Errors.{ResearchEngineError}
use researchhub_engine.Models.{Uuid, ResearchJob}
use researchhub_engine.Repository.{Db, get, update_job}
use researchhub_engine.World.{World, Result, ok, err, M, or_raise, ◌>>=◌, ◌>>◌, guard}
use researchhub_engine.Service.{
  get_job, commit_job, cancel_job, mark_reviewed, archive_job, is_cancellable, is_reviewable,
  is_reviewed,
}
use researchhub_engine.Service.Lifecycle.{checked_commit}
use researchhub_engine.Schemas.{ResearchJobStatus}
use researchhub_engine.Service.Outcome.{HasBounds}
use researchhub_engine.Consistency.{IsAssignment, Writes, assigns_job, here, next}

pub Writes-trans : {a b c : Db} → Writes a b → Writes b c → Writes a c
Writes-trans ws here = ws
Writes-trans ws (next vs v) = next (Writes-trans ws vs) v

-- A call that does nothing to the database but write to it, in this sense.
abbrev pub IsWriting : {A : Type 0} → M A → Type 0
IsWriting m = (w : World) → Writes w.db (m w).1.db

pub or_raise-IsWriting :
    {A : Type 0} (o : Option A) (e : ResearchEngineError) → IsWriting (or_raise o e)
or_raise-IsWriting none e w = here
or_raise-IsWriting (some a) e w = here

pub guard-IsWriting : (b : Bool) (e : ResearchEngineError) → IsWriting (guard b e)
guard-IsWriting true e w = here
guard-IsWriting false e w = here

pub >>=-IsWriting :
    {A B : Type 0} (m : M A) (f : A → M B)
    → IsWriting m
    → ((a : A) → IsWriting (f a))
    → IsWriting (m >>= f)
>>=-IsWriting {A} {B} m f hm hf w = go (m w) (hm w)
  where
    go :
        (x : Result A × World)
        → Writes w.db x.1.db
        → Writes w.db (((λ (v : World). x) >>= f) w).1.db
    go (ok a, v) h = Writes-trans h (hf a v)
    go (err e, v) h = h

pub get_job-IsWriting : (tenant_id job_id : Uuid) → IsWriting (get_job tenant_id job_id)
unfolding get_job
get_job-IsWriting tenant_id job_id w = or_raise-IsWriting (get w.db job_id tenant_id) _ w

commit_job-IsWriting :
    (tenant_id job_id : Uuid) (f : ResearchJob → ResearchJob)
    → IsAssignment f
    → IsWriting (commit_job tenant_id job_id f)
unfolding commit_job
commit_job-IsWriting tenant_id job_id f lawful w =
    Writes-trans (next here (assigns_job job_id f lawful refl))
      (get_job-IsWriting tenant_id job_id (record w { db = update_job job_id f w.db }))

-- A method that reads a job, checks its status and assigns columns.
checked_commit-IsWriting :
    (allowed : ResearchJobStatus → Bool) (error : ResearchEngineError)
    (f : ResearchJob → ResearchJob → ResearchJob)
    → ((job : ResearchJob) → IsAssignment (f job))
    → (tenant_id job_id : Uuid) → IsWriting (checked_commit allowed error f tenant_id job_id)
checked_commit-IsWriting allowed error f lawful tenant_id job_id =
    >>=-IsWriting (get_job tenant_id job_id)
      (λ job. guard (allowed job.status) error >> commit_job tenant_id job_id (f job))
      (get_job-IsWriting tenant_id job_id)
      (λ job.
        >>=-IsWriting (guard (allowed job.status) error) (λ _. commit_job tenant_id job_id (f job))
          (guard-IsWriting (allowed job.status) error)
          (λ _. commit_job-IsWriting tenant_id job_id (f job) (lawful job)))

-- An assignment to columns that are neither counters nor part of the identity.
pub assigns :
    (f : ResearchJob → ResearchJob)
    → ((r : ResearchJob) → (f r).id ≡ r.id)
    → ((r : ResearchJob) → (f r).tenant_id ≡ r.tenant_id)
    → ((r : ResearchJob) → (f r).idempotency_key ≡ r.idempotency_key)
    → ((r : ResearchJob) → (f r).deleted_at ≡ r.deleted_at)
    → ((r : ResearchJob) → HasBounds r → HasBounds (f r))
    → IsAssignment f
assigns f a b c d bounds = record {
  keeps = record { same_id = a; same_tenant = b; same_key = c; same_deletion = d };
  bounds = bounds;
}

pub cancel_job-IsWriting :
    (tenant_id job_id : Uuid) (reason : Option String)
    → IsWriting (cancel_job tenant_id job_id reason)
unfolding cancel_job
cancel_job-IsWriting tenant_id job_id reason =
    checked_commit-IsWriting is_cancellable _ _
      (λ job.
        assigns _ (λ r. refl) (λ r. refl) (λ r. refl) (λ r. refl)
          (λ r h. record { uploaded_within = h.uploaded_within; within_total = h.within_total }))
      tenant_id job_id

pub mark_reviewed-IsWriting : (tenant_id job_id : Uuid) → IsWriting (mark_reviewed tenant_id job_id)
unfolding mark_reviewed
mark_reviewed-IsWriting tenant_id job_id =
    checked_commit-IsWriting is_reviewable _ _
      (λ job.
        assigns _ (λ r. refl) (λ r. refl) (λ r. refl) (λ r. refl)
          (λ r h. record { uploaded_within = h.uploaded_within; within_total = h.within_total }))
      tenant_id job_id

pub archive_job-IsWriting : (tenant_id job_id : Uuid) → IsWriting (archive_job tenant_id job_id)
unfolding archive_job
archive_job-IsWriting tenant_id job_id =
    checked_commit-IsWriting is_reviewed _ _
      (λ job.
        assigns _ (λ r. refl) (λ r. refl) (λ r. refl) (λ r. refl)
          (λ r h. record { uploaded_within = h.uploaded_within; within_total = h.within_total }))
      tenant_id job_id
