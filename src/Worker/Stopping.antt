-- ===== src/Worker/Stopping.antt =====
-- How a run of `research_job` ends that sees its job in a status in which the rest is skipped.
use mathlib.Core.List.{append-nil, append_assoc}
use mathlib.Core.Path.{subst}
use researchhub_engine.Prelude.{
  ℕ, ◌+◌, ◌*◌, ◌≤◌, ◌≡◌, refl, sym, ap, ◌∙◌, Option, some, List, [], ◌∷◌, ◌++◌, arith, length, map,
}
use researchhub_engine.Schemas.{ResearchJobStatus}
use researchhub_engine.Models.{Uuid, Time, ResearchJob, ResearchDocument, OrderData}
use researchhub_engine.Repository.{Db, get, update_job, list_for_job}
use researchhub_engine.Repository.Queries.{get-update_job_self, get-id}
use researchhub_engine.World.{ResearchService}
use researchhub_engine.Service.{recalc_job_counters, resolve_job_terminal_status}
use researchhub_engine.Worker.{
  is_stopped, skip, settle, save_round, LoopEnd, vanished, finished, RunEnd, returned, completed,
  retried, final_columns, loop, finish,
}
use researchhub_engine.Worker.Looks.{IsFinalStatus, resolve_cases}
use researchhub_engine.Worker.Runs.{
  IsLeftAlone, get-save_round, final_columns-KeepsIdentity, list_for_job-update_job,
}
use researchhub_engine.Worker.Rounds.{
  id_of, settle-IsSameRow, list_for_job-save_round, distinct_same,
}
use researchhub_engine.Prelude.{true, HasDistinctKeys}

-- Every read of the job from the `k`-th on finds it with the status `s`.
pub record StaysAt (s : ResearchJobStatus) (others : ℕ → Db → Db) (job_id tenant_id : Uuid) (k : ℕ)
    : Type 0 where
  pub read :
      (i : ℕ) (db : Db) (job : ResearchJob)
      → k ≤ i
      → get (others i db) job_id tenant_id ≡ some job
      → job.status ≡ s

-- The loop ended with the job last seen as `s`, and with these documents, which are those of its rows.
abbrev pub LoopStops : ResearchJobStatus → Uuid → Uuid → List ResearchDocument → LoopEnd → Type 0
LoopStops s job_id tenant_id docs (vanished db) = ⊥
LoopStops s job_id tenant_id docs (finished db job settled) =
    (settled ≡ docs)
    × (job.status ≡ s)
    × (job.id ≡ job_id)
    × (list_for_job db job_id ≡ docs)
    × ((row : ResearchJob) × (get db job_id tenant_id ≡ some row))

-- The run finished the job: its rows hold these documents and their counters, and its status is as `P`
-- says.
abbrev pub EndsWith :
    (ResearchJobStatus → Type 0) → Uuid → Uuid → List ResearchDocument → RunEnd → Type 0
EndsWith P job_id tenant_id docs (returned db) = ⊥
EndsWith P job_id tenant_id docs (retried db) = ⊥
EndsWith P job_id tenant_id docs (completed db job) =
    (list_for_job db job_id ≡ docs)
    × ((row : ResearchJob) × (get db job_id tenant_id ≡ some row)
        × (row ≡ recalc_job_counters row docs)
        × P row.status)

-- The final write.
final_write :
    (P : ResearchJobStatus → Type 0) (id job_id tenant_id : Uuid) (db : Db)
    (docs : List ResearchDocument) (status : ResearchJobStatus) (now : Time) (row job : ResearchJob)
    → id ≡ job_id
    → list_for_job db job_id ≡ docs
    → get db job_id tenant_id ≡ some row
    → P status
    → EndsWith P job_id tenant_id docs
        (completed (update_job id (final_columns status docs now) db) job)
final_write P id job_id tenant_id db docs status now row job same listed found h =
    let f = final_columns status docs now in
    rw same (
      list_for_job-update_job f db job_id job_id ∙ listed,
      (
        f row,
        get-update_job_self f (final_columns-KeepsIdentity status docs now) db job_id tenant_id row
            found,
        unfold final_columns in refl,
        unfold final_columns in h,
      ),
    )

module _ (service : ResearchService) (tenant_id : Uuid) (clock : ℕ → Time) (others : ℕ → Db → Db)
    (job_id : Uuid) (alone : IsLeftAlone others job_id tenant_id) (s : ResearchJobStatus)
    (stops : is_stopped s ≡ true) (k : ℕ) (stays : StaysAt s others job_id tenant_id k)
    (order : Option OrderData) where
  settle_of_stopped :
      (i : ℕ) (doc : ResearchDocument) (status : ResearchJobStatus)
      → status ≡ s
      → settle service tenant_id clock order status i doc ≡ skip doc
  unfolding settle
  settle_of_stopped i doc status e = rw (e, stops) refl

  loop-LoopStops :
      (i : ℕ) (db : Db) (job row : ResearchJob) (settled docs : List ResearchDocument)
      → k ≤ i
      → job.id ≡ job_id
      → (docs ≡ [] → job.status ≡ s)
      → get db job_id tenant_id ≡ some row
      → list_for_job db job_id ≡ settled ++ docs
      → HasDistinctKeys id_of (settled ++ docs)
      → LoopStops s job_id tenant_id
          (settled ++ map skip docs)
          (loop service tenant_id clock others order i db job settled docs)
  unfolding loop
  loop-LoopStops i db job row settled [] le same status found listed distinct =
      (sym (append-nil settled), status refl, same, listed, (row, found))
  loop-LoopStops i db job row settled (doc ∷ docs) le same status found listed distinct =
      let (job', found') = alone.present i db row found in
      let status' = stays.read i db job' le found' in
      let doc' = settle service tenant_id clock order job'.status i doc in
      let kept = settle-IsSameRow service tenant_id clock order job'.status i doc in
      let listed' =
        list_for_job-save_round (others i db) job_id job'.status settled doc docs doc'
          (alone.documents i db ∙ listed) distinct kept in
      rw (same, found')
        (subst
          (λ l. LoopStops s job_id tenant_id l (
            loop service tenant_id clock others order (i + 1)
              (save_round job'.status doc doc' (others i db)) job' (settled ++ doc' ∷ []) docs))
          (append_assoc settled (doc' ∷ []) (map skip docs)
            ∙ ap (λ d. settled ++ d ∷ map skip docs) (settle_of_stopped i doc job'.status status'))
          (loop-LoopStops (i + 1) (save_round job'.status doc doc' (others i db)) job' job'
            (settled ++ doc' ∷ []) docs (omega arith)
            (get-id (others i db) job_id tenant_id job' found') (λ _. status')
            (get-save_round job'.status doc doc' (others i db) job_id tenant_id ∙ found')
            (listed' ∙ sym (append_assoc settled (doc' ∷ []) docs))
            (rw append_assoc (distinct_same settled doc doc' docs kept.1 distinct))))

  finish_of_stopped :
      (P : ResearchJobStatus → Type 0) (docs : List ResearchDocument) (e : LoopEnd)
      → LoopStops s job_id tenant_id docs e
      → ((final : ResearchJobStatus) → IsFinalStatus s docs final → P final)
      → EndsWith P job_id tenant_id docs (finish service tenant_id clock others e)
  unfolding finish
  finish_of_stopped P docs (vanished db) h p = h
  finish_of_stopped P docs (finished db job settled) (same, status, named, listed, (row, found)) p =
      let (row', found') = alone.present (length settled) db row found in
      let db' = others (length settled) db in
      let listed' = alone.documents (length settled) db ∙ listed in
      let final = resolve_job_terminal_status db' job in
      subst
        (λ l.
          EndsWith P job_id tenant_id l
            (finish service tenant_id clock others (finished db job settled)))
        same
        (final_write P job.id job_id tenant_id db' settled final (clock (2 * length settled + 1))
          row' (final_columns final settled (clock (2 * length settled + 1)) job) named
          (listed' ∙ sym same) found'
          (p final (
            subst (λ l. IsFinalStatus l docs final) status
              (resolve_cases db' job docs (ap (list_for_job db') named ∙ listed')))))

  -- From a document that is looked at while the job is at `s`, every document is skipped.
  pub stopped-EndsWith :
      (P : ResearchJobStatus → Type 0) (i : ℕ) (db : Db) (job row : ResearchJob)
      (settled : List ResearchDocument) (doc : ResearchDocument) (docs : List ResearchDocument)
      → k ≤ i
      → job.id ≡ job_id
      → get db job_id tenant_id ≡ some row
      → list_for_job db job_id ≡ settled ++ doc ∷ docs
      → HasDistinctKeys id_of (settled ++ doc ∷ docs)
      → ((final : ResearchJobStatus)
          → IsFinalStatus s (settled ++ map skip (doc ∷ docs)) final
          → P final)
      → EndsWith P job_id tenant_id (settled ++ map skip (doc ∷ docs)) (
          finish service tenant_id clock others
            (loop service tenant_id clock others order i db job settled (doc ∷ docs)))
  stopped-EndsWith P i db job row settled doc docs le same found listed distinct p =
      finish_of_stopped P (settled ++ map skip (doc ∷ docs)) _
        (loop-LoopStops i db job row settled (doc ∷ docs) le same (λ e. cc) found listed distinct) p
