-- ===== src/Worker/Sweeps.antt =====
-- What one sweep of `reaper_research_jobs` in backend/app/engine/worker.py does to the jobs and to
-- the queue, whether the broker takes every task or not.
use mathlib.Core.Option
use mathlib.Core.Path.{subst}
use researchhub_engine.Prelude.{
  ◌+◌, ◌*◌, ◌<◌, ◌≢◌, ◌↔◌, ◌&&◌, ltb, none, Option, is_none, or_else, filter_by, Bool-cases,
}
use researchhub_engine.Repository.{is_queued}
use researchhub_engine.Worker.Reaper.{is_started_running}
use researchhub_engine.Prelude.{
  ◌≡◌, refl, sym, ap, ◌∙◌, ◌⊎◌, inl, inr, ℕ, Bool, true, false, some, List, [], ◌∷◌, ◌++◌, map,
  arith, All, find_by-map, if◌then◌else◌,
}
use researchhub_engine.Schemas.{ResearchJobStatus}
use researchhub_engine.Models.{Uuid, Time, ResearchJob}
use researchhub_engine.Repository.{Db, get, is_job, list_stale_queued}
use researchhub_engine.World.{World, Task}
use researchhub_engine.Worker.Reaper.{
  fail_if_running, fail_running, task_of, requeue, reaper_research_jobs,
}

append-cons : (xs : List Task) (y : Task) (ys : List Task) → (xs ++ y ∷ []) ++ ys ≡ xs ++ y ∷ ys
append-cons [] y ys = refl
append-cons (x ∷ xs) y ys = ap (λ l. x ∷ l) (append-cons xs y ys)

append_nil : (xs : List Task) → xs ++ [] ≡ xs
append_nil [] = refl
append_nil (x ∷ xs) = ap (λ l. x ∷ l) (append_nil xs)

module _ (send : Task → Bool) where
  -- The broker takes every task, or refuses one, after those of the jobs before it.
  abbrev pub Requeued : List ResearchJob → List Task → Bool × List Task → Type 0
  Requeued jobs queue r =
      (All (λ job. send (task_of job) ≡ true) jobs × (r ≡ (true, queue ++ map task_of jobs)))
      ⊎ ((before : List ResearchJob) × (job : ResearchJob) × (after : List ResearchJob) × (jobs
            ≡ before ++ job ∷ after)
          × (send (task_of job) ≡ false)
          × (r ≡ (false, queue ++ map task_of before)))

  requeue-Requeued :
      (jobs : List ResearchJob) (queue : List Task) → Requeued jobs queue (requeue send jobs queue)
  unfolding requeue
  requeue-Requeued [] queue = inl (tt, rw (append_nil queue) refl)
  requeue-Requeued (job ∷ jobs) queue =
      one_more (send (task_of job)) refl _ (requeue-Requeued jobs (queue ++ task_of job ∷ []))
    where
      one_more :
          (b : Bool)
          → send (task_of job) ≡ b
          → (rest : Bool × List Task) → Requeued jobs (queue ++ task_of job ∷ []) rest
          → Requeued (job ∷ jobs) queue (if b then rest else (false, queue))
      one_more true h rest (inl (hs, e)) =
          inl ((h, hs), e ∙ ap (λ q. (true, q)) (append-cons queue _ _))
      one_more true h rest (inr (before, j, after, e, refused, q)) = inr (
        job ∷ before,
        j,
        after,
        ap (λ l. job ∷ l) e,
        refused,
        q ∙ ap (λ q. (false, q)) (append-cons queue _ _),
      )
      one_more false h rest _ =
          inr ([], job, jobs, refl, h, ap (λ q. (false, q)) (sym (append_nil queue)))

is_job-fail_if_running :
    (i t : Uuid) (r : ResearchJob) → is_job i t (fail_if_running r) ≡ is_job i t r
is_job-fail_if_running i t r = ground arith

pub get-fail_running :
    (db : Db) (i t : Uuid)
    → get (record db { jobs = fail_running db.jobs }) i t ≡ Option.map fail_if_running (get db i t)
unfolding get fail_running
get-fail_running db i t =
    find_by-map fail_if_running (is_job i t) db.jobs (is_job-fail_if_running i t)

-- A job that waits for longer than the minutes allow.
abbrev pub IsStale : Time → ℕ → ResearchJob → Type 0
IsStale now minutes job =
    (job.status ≡ ResearchJobStatus.queued)
    × (job.created_at + minutes * 60 < now)
    × (job.deleted_at ≡ none)

-- A list of the rows, in their order, for which `P` holds.
pub data Selects {ℓ} {A : Type ℓ} (P : A → Type 0) : List A → List A → Type ℓ where
  none_left : Selects P [] []
  takes : (x : A) (xs ys : List A) → P x → Selects P xs ys → Selects P (x ∷ xs) (x ∷ ys)
  leaves : (x : A) (xs ys : List A) → ¬ P x → Selects P xs ys → Selects P (x ∷ xs) ys

-- The task for a job: the actor is the creator, or else the tenant.
abbrev pub IsTaskOf : ResearchJob → Task → Type 0
IsTaskOf job task =
    (task.job_id ≡ job.id)
    × (task.tenant_id ≡ job.tenant_id)
    × ((job.created_by ≡ some task.actor_id)
        ⊎ ((job.created_by ≡ none) × (task.actor_id ≡ job.tenant_id)))

abbrev pub AreTasksOf : List ResearchJob → List Task → Type 0
AreTasksOf [] [] = Unit
AreTasksOf [] (t ∷ ts) = ⊥
AreTasksOf (j ∷ js) [] = ⊥
AreTasksOf (j ∷ js) (t ∷ ts) = IsTaskOf j t × AreTasksOf js ts

abbrev pub HasStarted : ResearchJob → Type 0
HasStarted job = (job.status ≡ ResearchJobStatus.running) × (job.started_at ≢ none)

-- What is read of a job after the sweep, against what was read before.
abbrev pub IsReadAs : Option ResearchJob → Option ResearchJob → Type 0
IsReadAs none o = o ≡ none
IsReadAs (some job) o =
    (HasStarted job × (o ≡ some (record job { status = ResearchJobStatus.failed })))
    ⊎ ((¬ HasStarted job) × (o ≡ some job))

-- A sweep either sends a task for every stale job and fails every started job that runs, or stops at a
-- job that the broker refuses, with the database as it was.
abbrev pub IsSweep : (Task → Bool) → Time → ℕ → World → World → Type 0
IsSweep send now minutes w w' =
    (stale : List ResearchJob) × Selects (IsStale now minutes) w.db.jobs stale
    × (((tasks : List Task) × AreTasksOf stale tasks
          × All (λ t. send t ≡ true) tasks
          × (w'.queue ≡ w.queue ++ tasks)
          × ((i t : Uuid) → IsReadAs (get w.db i t) (get w'.db i t)))
        ⊎ ((before : List ResearchJob) × (job : ResearchJob) × (after : List ResearchJob)
            × (tasks : List Task) × (refused : Task) × (stale ≡ before ++ job ∷ after)
            × AreTasksOf before tasks
            × IsTaskOf job refused
            × (send refused ≡ false)
            × (w'.queue ≡ w.queue ++ tasks)
            × (w'.db ≡ w.db)))

IsStale-iff :
    (now : Time) (minutes : ℕ) (job : ResearchJob)
    → ((is_queued job.status && ltb (job.created_at + minutes * 60) now && is_none job.deleted_at)
        ≡ true)
      ↔ IsStale now minutes job
IsStale-iff now minutes job = (λ h. ground arith, λ h. ground (arith, h.0, h.1, h.2))

filter_by-Selects {ℓ} :
    {A : Type ℓ} (p : A → Bool) (P : A → Type 0)
    → ((x : A) → (p x ≡ true) ↔ P x)
    → (xs : List A) → Selects P xs (filter_by p xs)
filter_by-Selects p P same [] = none_left
filter_by-Selects p P same (x ∷ xs) = elim (Bool-cases (p x)) [
  | inl chosen ↦
      rw chosen (takes x xs (filter_by p xs) ((same x).0 chosen) (filter_by-Selects p P same xs))
  | inr passed ↦ rw passed (
      leaves x xs (filter_by p xs) (λ h. absurd (cc ((same x).1 h, passed)))
        (filter_by-Selects p P same xs))
]

task_of-IsTaskOf : (job : ResearchJob) → IsTaskOf job (task_of job)
task_of-IsTaskOf job = (refl, refl, by_creator job.created_by)
  where
    by_creator :
        (o : Option Uuid)
        → (o ≡ some (or_else o job.tenant_id))
          ⊎ ((o ≡ none) × (or_else o job.tenant_id ≡ job.tenant_id))
    by_creator none = inr (refl, refl)
    by_creator (some a) = inl refl

map-task_of-AreTasksOf : (jobs : List ResearchJob) → AreTasksOf jobs (map task_of jobs)
map-task_of-AreTasksOf [] = tt
map-task_of-AreTasksOf (j ∷ js) = (task_of-IsTaskOf j, map-task_of-AreTasksOf js)

All-map-task_of :
    (send : Task → Bool) (jobs : List ResearchJob)
    → All (λ job. send (task_of job) ≡ true) jobs
    → All (λ t. send t ≡ true) (map task_of jobs)
All-map-task_of send [] h = tt
All-map-task_of send (j ∷ js) h = (h.0, All-map-task_of send js h.1)

is_started_running_iff : (job : ResearchJob) → (is_started_running job ≡ true) ↔ HasStarted job
is_started_running_iff job =
    (λ h. (ground arith, λ e. ground (arith, h)), λ h. ground (arith, h.0, h.1))

map-IsReadAs : (o : Option ResearchJob) → IsReadAs o (Option.map fail_if_running o)
map-IsReadAs none = refl
map-IsReadAs (some job) = elim (Bool-cases (is_started_running job)) [
  | inl chosen ↦ inl ((is_started_running_iff job).0 chosen, rw chosen refl)
  | inr passed ↦ inr (λ h. absurd (cc ((is_started_running_iff job).1 h, passed)), rw passed refl)
]

-- One sweep requeues exactly the jobs that are queued, not deleted and older than the minutes allow, each
-- with its creator, or else its tenant, as the actor, and fails every job that is running and has started,
-- whatever its age, and no other; or the broker refuses a job, the tasks of the stale jobs before it are
-- in the queue, and the database is unchanged.
pub reaper_research_jobs-IsSweep :
    (send : Task → Bool) (now : Time) (minutes : ℕ) (w : World)
    → IsSweep send now minutes w (reaper_research_jobs send now minutes w)
unfolding reaper_research_jobs list_stale_queued
reaper_research_jobs-IsSweep send now minutes w = (
  list_stale_queued w.db now minutes,
  filter_by-Selects _ (IsStale now minutes) (IsStale-iff now minutes) w.db.jobs,
  go _ (requeue-Requeued send (list_stale_queued w.db now minutes) w.queue),
)
  where
    go :
        (r : Bool × List Task)
        → Requeued send (list_stale_queued w.db now minutes) w.queue r
        → let stale = list_stale_queued w.db now minutes in
          let w' : World = record w {
            queue = r.1;
            db = if r.0 then record w.db { jobs = fail_running w.db.jobs } else w.db;
          } in
          ((tasks : List Task) × AreTasksOf stale tasks
            × All (λ t. send t ≡ true) tasks
            × (w'.queue ≡ w.queue ++ tasks)
            × ((i t : Uuid) → IsReadAs (get w.db i t) (get w'.db i t)))
          ⊎ ((before : List ResearchJob) × (job : ResearchJob) × (after : List ResearchJob)
              × (tasks : List Task) × (refused : Task) × (stale ≡ before ++ job ∷ after)
              × AreTasksOf before tasks
              × IsTaskOf job refused
              × (send refused ≡ false)
              × (w'.queue ≡ w.queue ++ tasks)
              × (w'.db ≡ w.db))
    go r (inl (hs, e)) = inl (
      map task_of (list_stale_queued w.db now minutes),
      map-task_of-AreTasksOf (list_stale_queued w.db now minutes),
      All-map-task_of send (list_stale_queued w.db now minutes) hs,
      ap (λ x. x.1) e,
      λ i t. rw (e, get-fail_running w.db i t) (map-IsReadAs (get w.db i t)),
    )
    go r (inr (before, job, after, split, refused, e)) = inr (
      before,
      job,
      after,
      map task_of before,
      task_of job,
      split,
      map-task_of-AreTasksOf before,
      task_of-IsTaskOf job,
      refused,
      ap (λ x. x.1) e,
      rw e refl,
    )

-- With a broker that takes every task, a sweep fails a running job that has started, however short
-- ago, and records no error on it.
reaper_fails_running :
    (send : Task → Bool) (now started : Time) (minutes : ℕ) (w : World) (i t : Uuid)
    (job : ResearchJob)
    → ((task : Task) → send task ≡ true)
    → get w.db i t ≡ some job
    → job.status ≡ ResearchJobStatus.running
    → job.started_at ≡ some started
    → get (reaper_research_jobs send now minutes w).db i t
      ≡ some (record job { status = ResearchJobStatus.failed })
reaper_fails_running send now started minutes w i t job accepts h running started_at =
    go (reaper_research_jobs-IsSweep send now minutes w)
  where
    read :
        (o : Option ResearchJob)
        → IsReadAs (some job) o
        → o ≡ some (record job { status = ResearchJobStatus.failed })
    read o (inl (_, e)) = e
    read o (inr (idle, _)) = absurd (idle (running, λ e. cc))

    go :
        IsSweep send now minutes w (reaper_research_jobs send now minutes w)
        → get (reaper_research_jobs send now minutes w).db i t
          ≡ some (record job { status = ResearchJobStatus.failed })
    go (stale, _, inl (tasks, _, _, _, found)) = read _ (
        subst (λ o. IsReadAs o (get (reaper_research_jobs send now minutes w).db i t)) h
          (found i t))
    go (stale, _, inr (before, j, after, tasks, refused, _, _, _, denied, _, _)) =
        absurd (cc (accepts refused, denied))
