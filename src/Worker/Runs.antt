-- ===== src/Worker/Runs.antt =====
-- A whole run of `research_job`: what the job's row and its documents hold at the end.
use mathlib.Core.List.{append-nil, append_assoc}
use mathlib.Core.Path.{subst}
use researchhub_engine.Prelude.{
  ℕ, ◌+◌, ◌*◌, ◌≡◌, refl, sym, ap, ◌∙◌, inl, inr, false, Option, some, List, [], ◌∷◌, ◌++◌, arith,
  HasDistinctKeys, Bool-cases, All-append, length, length-append,
}
use researchhub_engine.Schemas.{ResearchJobStatus}
use researchhub_engine.Models.{Uuid, Time, ResearchJob, ResearchDocument, OrderData}
use researchhub_engine.Repository.{Db, get, update_job, list_for_job}
use researchhub_engine.Repository.Queries.{KeepsIdentity, get-update_job_self, get-id}
use researchhub_engine.World.{ResearchService}
use researchhub_engine.Service.{resolve_job_terminal_status, recalc_job_counters}
use researchhub_engine.Service.Outcome.{AllSettled}
use researchhub_engine.Worker.{
  is_stopped, settle, save_round, LoopEnd, vanished, finished, RunEnd, returned, completed, retried,
  final_columns, start_columns, loop, finish, process_all, start, research_job,
}
use researchhub_engine.Worker.Rounds.{
  id_of, ReturnsSettled, settle-IsSameRow, settle-is_settled, list_for_job-save_round,
  distinct_same,
}
use researchhub_engine.Worker.Looks.{
  last_look, last_look_of_none, last_look_of_found, IsFinalStatus, resolve_cases,
}

-- While the job `job_id` runs, other sessions neither remove it nor write its documents. They may
-- change its status, and anything else.
pub record IsLeftAlone (others : ℕ → Db → Db) (job_id tenant_id : Uuid) : Type 0 where
  pub documents : (i : ℕ) (db : Db) → list_for_job (others i db) job_id ≡ list_for_job db job_id
  pub present :
      (i : ℕ) (db : Db) (job : ResearchJob)
      → get db job_id tenant_id ≡ some job
      → (job' : ResearchJob) × (get (others i db) job_id tenant_id ≡ some job')

-- A round writes no job.
jobs-save_round :
    (status : ResearchJobStatus) (doc assigned : ResearchDocument) (db : Db)
    → (save_round status doc assigned db).jobs ≡ db.jobs
unfolding save_round
jobs-save_round status doc assigned db = elim (Bool-cases (is_stopped status)) [
  | inl stopped ↦ rw stopped refl
  | inr working ↦ rw working refl
]

pub get-save_round :
    (status : ResearchJobStatus) (doc assigned : ResearchDocument) (db : Db) (i t : Uuid)
    → get (save_round status doc assigned db) i t ≡ get db i t
unfolding get
get-save_round status doc assigned db i t = rw (jobs-save_round status doc assigned db) refl

module _ (tenant_id job_id : Uuid) where
  -- The loop ran to its end: the job is still there, and its `n` documents are all settled;
  -- it was last seen with status `looked`.
  abbrev pub LoopOk : ℕ → ResearchJobStatus → LoopEnd → Type 0
  LoopOk n looked (vanished db) = ⊥
  LoopOk n looked (finished db job docs) =
      (job.id ≡ job_id)
      × (job.status ≡ looked)
      × ((row : ResearchJob) × (get db job_id tenant_id ≡ some row))
      × (list_for_job db job_id ≡ docs)
      × AllSettled docs
      × (length docs ≡ n)

-- The row of a job reports on documents `docs`: its counters are theirs, its status is the one that a job
-- last seen as `looked` ends with, and it has the time of its end.
pub record Reports (docs : List ResearchDocument) (now : Time) (looked : ResearchJobStatus)
    (row : ResearchJob) : Type 0 where
  pub counters : row ≡ recalc_job_counters row docs
  pub status : IsFinalStatus looked docs row.status
  pub ended : row.completed_at ≡ some now

-- The run finished the job: its `n` documents are all settled, and its row reports on them.
abbrev pub RunOk : Uuid → Uuid → (ℕ → Time) → ℕ → ResearchJobStatus → RunEnd → Type 0
RunOk tenant_id job_id clock n looked (returned db) = ⊥
RunOk tenant_id job_id clock n looked (retried db) = ⊥
RunOk tenant_id job_id clock n looked (completed db job) =
    let docs = list_for_job db job_id in
    AllSettled docs
    × (length docs ≡ n)
    × ((row : ResearchJob) × (get db job_id tenant_id ≡ some row)
        × Reports docs (clock (2 * n + 1)) looked row)

pub final_columns-KeepsIdentity :
    (status : ResearchJobStatus) (docs : List ResearchDocument) (now : Time)
    → KeepsIdentity (final_columns status docs now)
unfolding final_columns
final_columns-KeepsIdentity status docs now = record {
  same_id = λ r. refl;
  same_tenant = λ r. refl;
  same_key = λ r. refl;
  same_deletion = λ r. refl;
}

final_columns-Reports :
    (status looked : ResearchJobStatus) (docs : List ResearchDocument) (now : Time)
    (row : ResearchJob)
    → IsFinalStatus looked docs status
    → Reports docs now looked (final_columns status docs now row)
unfolding final_columns
final_columns-Reports status looked docs now row h = record {
  counters = refl;
  status = h;
  ended = refl;
}

pub list_for_job-update_job :
    (f : ResearchJob → ResearchJob) (db : Db) (i j : Uuid)
    → list_for_job (update_job i f db) j ≡ list_for_job db j
unfolding list_for_job update_job
list_for_job-update_job f db i j = refl

completed-RunOk :
    (tenant_id job_id : Uuid) (clock : ℕ → Time) (n : ℕ) (db : Db) (docs : List ResearchDocument)
    (status looked : ResearchJobStatus) (row job : ResearchJob)
    → list_for_job db job_id ≡ docs
    → get db job_id tenant_id ≡ some row
    → AllSettled docs
    → length docs ≡ n
    → IsFinalStatus looked docs status
    → RunOk tenant_id job_id clock n looked
        (completed (update_job job_id (final_columns status docs (clock (2 * n + 1))) db) job)
completed-RunOk tenant_id job_id clock n db docs status looked row job listed found ok counted h =
    let f = final_columns status docs (clock (2 * n + 1)) in
    rw (list_for_job-update_job f db job_id job_id, listed)
      (
        ok,
        counted,
        (
          f row,
          get-update_job_self f (final_columns-KeepsIdentity status docs (clock (2 * n + 1))) db
              job_id tenant_id row found,
          final_columns-Reports status looked docs (clock (2 * n + 1)) row h,
        ),
      )

-- The same, where the job's identifier and the count are known up to an equation.
completed_as :
    (id : Uuid) (m : ℕ) (tenant_id job_id : Uuid) (clock : ℕ → Time) (n : ℕ) (db : Db)
    (docs : List ResearchDocument) (status looked : ResearchJobStatus) (row job : ResearchJob)
    → id ≡ job_id
    → list_for_job db job_id ≡ docs
    → get db job_id tenant_id ≡ some row
    → AllSettled docs
    → m ≡ n
    → length docs ≡ n
    → IsFinalStatus looked docs status
    → RunOk tenant_id job_id clock n looked
        (completed (update_job id (final_columns status docs (clock (2 * m + 1))) db) job)
completed_as id m tenant_id job_id clock n db docs status looked row job same listed found ok em
      counted h =
    rw (same, em)
      (completed-RunOk tenant_id job_id clock n db docs status looked row job listed found ok
        counted h)

module _ (service : ResearchService) (tenant_id : Uuid) (clock : ℕ → Time) (others : ℕ → Db → Db)
    (job_id : Uuid) (returns : ReturnsSettled service)
    (alone : IsLeftAlone others job_id tenant_id) where
  loop-LoopOk :
      (order : Option OrderData) (i : ℕ) (db : Db) (job row : ResearchJob)
      (settled docs : List ResearchDocument) (n : ℕ)
      → job.id ≡ job_id
      → get db job_id tenant_id ≡ some row
      → list_for_job db job_id ≡ settled ++ docs
      → HasDistinctKeys id_of (settled ++ docs)
      → AllSettled settled
      → length settled + length docs ≡ n
      → LoopOk tenant_id job_id n
          (last_look service tenant_id clock others order i db job docs)
          (loop service tenant_id clock others order i db job settled docs)
  unfolding loop
  loop-LoopOk order i db job row settled [] n same found listed distinct ok counted = (
    same,
    last_look_of_none service tenant_id clock others order i db job,
    (row, found),
    listed ∙ append-nil settled,
    ok,
    omega arith,
  )
  loop-LoopOk order i db job row settled (doc ∷ docs) n same found listed distinct ok counted =
      let (job', found') = alone.present i db row found in
      let doc' = settle service tenant_id clock order job'.status i doc in
      let kept = settle-IsSameRow service tenant_id clock order job'.status i doc in
      let listed' =
        list_for_job-save_round (others i db) job_id job'.status settled doc docs doc'
          (alone.documents i db ∙ listed) distinct kept in
      rw
        (
          last_look_of_found service tenant_id clock others order i db job job' doc docs
              (ap (λ k. get (others i db) k tenant_id) same ∙ found'),
          same,
          found',
        )
        (loop-LoopOk order (i + 1) (save_round job'.status doc doc' (others i db)) job' job'
          (settled ++ doc' ∷ []) docs n (get-id (others i db) job_id tenant_id job' found')
          (get-save_round job'.status doc doc' (others i db) job_id tenant_id ∙ found')
          (listed' ∙ sym (append_assoc settled (doc' ∷ []) docs))
          (rw append_assoc (distinct_same settled doc doc' docs kept.1 distinct))
          (All-append _ settled (doc' ∷ []) ok
            (settle-is_settled service tenant_id clock order job'.status i doc returns, tt))
          (omega (arith, length-append settled (doc' ∷ []), counted)))

  finish-RunOk :
      (n : ℕ) (looked : ResearchJobStatus) (e : LoopEnd)
      → LoopOk tenant_id job_id n looked e
      → RunOk tenant_id job_id clock n looked (finish service tenant_id clock others e)
  unfolding finish
  finish-RunOk n looked (vanished db) h = h
  finish-RunOk n looked (finished db job docs) (same, seen, (row, found), listed, ok, counted) =
      let (row', found') = alone.present (length docs) db row found in
      let listed' = alone.documents (length docs) db ∙ listed in
      let status = resolve_job_terminal_status (others (length docs) db) job in
      completed_as job.id (length docs) tenant_id job_id clock n (others (length docs) db) docs
        status looked row' (final_columns status docs (clock (2 * length docs + 1)) job) same
        listed' found' ok counted counted
        (subst (λ l. IsFinalStatus l docs status) seen
          (resolve_cases (others (length docs) db) job docs
            (ap (list_for_job (others (length docs) db)) same ∙ listed')))

pub research_job-RunOk :
    (service : ResearchService) (tenant_id : Uuid) (clock : ℕ → Time) (others : ℕ → Db → Db)
    (job_id : Uuid) (db : Db) (job : ResearchJob) {provider : Uuid → Uuid → Option OrderData}
    → ReturnsSettled service
    → IsLeftAlone others job_id tenant_id
    → service.order_provider ≡ some provider
    → get db job_id tenant_id ≡ some job
    → is_stopped job.status ≡ false
    → HasDistinctKeys id_of (list_for_job db job_id)
    → let looked =
        last_look service tenant_id clock others
          (provider job.order_id tenant_id)
          0
          (update_job job.id (start_columns clock) db)
          (start_columns clock job)
          (list_for_job db job_id) in
      RunOk tenant_id job_id clock
        (length (list_for_job db job_id))
        looked
        (research_job service tenant_id clock others job_id db)
unfolding research_job start process_all
research_job-RunOk service tenant_id clock others job_id db job {provider} returns alone provided
      found going distinct =
    let f = start_columns clock in
    let keeps : KeepsIdentity f = record {
      same_id = λ r. refl;
      same_tenant = λ r. refl;
      same_key = λ r. refl;
      same_deletion = λ r. refl;
    } in
    let same = get-id db job_id tenant_id job found in
    let db' = update_job job.id f db in
    let order = provider job.order_id tenant_id in
    let n = length (list_for_job db job_id) in
    let looked =
      last_look service tenant_id clock others order 0 db' (f job) (list_for_job db job_id) in
    rw (found, going)
      (subst
        (λ o.
          RunOk tenant_id job_id clock n looked
            (process_all service tenant_id clock others o job db'))
        (sym provided)
        (finish-RunOk service tenant_id clock others job_id returns alone n looked _ (
          subst
            (λ docs.
              LoopOk tenant_id job_id n looked
                (loop service tenant_id clock others order 0 db' (f job) [] docs))
            (sym (list_for_job-update_job f db job.id job.id ∙ ap (list_for_job db) same))
            (loop-LoopOk service tenant_id clock others job_id returns alone order 0 db' (f job)
              (f job) [] (list_for_job db job_id) n same
              (ap (λ k. get (update_job k f db) job_id tenant_id) same
                ∙ get-update_job_self f keeps db job_id tenant_id job found)
              (list_for_job-update_job f db job.id job_id) distinct tt (omega arith)))))
