-- ===== src/Worker/Reaper.antt =====
-- `reaper_research_jobs` of backend/app/engine/worker.py. `send` is the broker: it takes a task or
-- raises, and then the sweep stops, rolled back, with the tasks sent so far in the queue.
use researchhub_engine.Prelude.{
  ℕ, Bool, true, ◌&&◌, List, [], ◌∷◌, ◌++◌, map, if◌then◌else◌, is_none, not, or_else,
}
use researchhub_engine.Schemas.{ResearchJobStatus}
use researchhub_engine.Models.{Time, ResearchJob}
use researchhub_engine.Repository.{is_running, list_stale_queued}
use researchhub_engine.World.{World, Task}

-- the WHERE of the bulk UPDATE
abbrev pub is_started_running : ResearchJob → Bool
is_started_running j = is_running j.status && not (is_none j.started_at)

abbrev pub fail_if_running : ResearchJob → ResearchJob
fail_if_running j =
    if is_started_running j then record j { status = ResearchJobStatus.failed } else j

unfoldable pub fail_running : List ResearchJob → List ResearchJob
fail_running = map fail_if_running

abbrev pub task_of : ResearchJob → Task
task_of job = record {
  job_id = job.id;
  tenant_id = job.tenant_id;
  actor_id = or_else job.created_by job.tenant_id;
}

module _ (send : Task → Bool) where
  -- the queue after the sends, and whether all went through
  unfoldable pub requeue : List ResearchJob → List Task → Bool × List Task
  requeue [] queue = (true, queue)
  requeue (job ∷ jobs) queue =
      let rest = requeue jobs (queue ++ task_of job ∷ []) in
      if send (task_of job) then rest else (Bool.false, queue)

  unfoldable pub reaper_research_jobs : Time → ℕ → World → World
  unfolding requeue fail_running list_stale_queued
  reaper_research_jobs now minutes w =
      let (sent, queue) = requeue (list_stale_queued w.db now minutes) w.queue in
      record w {
        queue = queue;
        db = if sent then record w.db { jobs = fail_running w.db.jobs } else w.db;
      }
