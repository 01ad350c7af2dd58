-- ===== src/Worker/Cancellation.antt =====
-- What `research_job` makes of a cancel while it runs, and after its last look.
use researchhub_engine.Prelude.{
  ℕ, ◌+◌, ◌*◌, ◌≤◌, ◌≡◌, ◌≢◌, refl, sym, ◌∙◌, Option, some, List, [], ◌∷◌, ◌++◌, arith, length, map,
}
use researchhub_engine.Schemas.{ResearchJobStatus}
use researchhub_engine.Models.{Uuid, Time, ResearchJob, ResearchDocument, OrderData}
use researchhub_engine.Repository.{Db, get, update_job, list_for_job}
use researchhub_engine.Repository.Queries.{get-update_job_self}
use researchhub_engine.World.{ResearchService}
use researchhub_engine.Service.{status_of_documents, resolve_job_terminal_status}
use researchhub_engine.Service.Outcome.{NoneFailed, resolve_of_documents, status-completed_iff}
use researchhub_engine.Worker.{
  skip, finished, RunEnd, returned, completed, retried, final_columns, loop, finish,
}
use researchhub_engine.Worker.Looks.{IsFinalStatus}
use researchhub_engine.Worker.Runs.{IsLeftAlone, final_columns-KeepsIdentity}
use researchhub_engine.Worker.Rounds.{id_of}
use researchhub_engine.Prelude.{inl, inr, All-append, HasDistinctKeys}
use researchhub_engine.Worker.Stopping.{StaysAt, EndsWith, stopped-EndsWith}

status_of_documents-ne-cancelled :
    (docs : List ResearchDocument) → status_of_documents docs ≢ ResearchJobStatus.cancelled
unfolding status_of_documents
status_of_documents-ne-cancelled docs e = ground arith

final_status :
    (status : ResearchJobStatus) (docs : List ResearchDocument) (now : Time) (row : ResearchJob)
    → (final_columns status docs now row).status ≡ status
unfolding final_columns
final_status status docs now row = refl

-- The run finished the job, and the status of its row is as `P` says.
abbrev pub RowEnds : Uuid → Uuid → (ResearchJobStatus → Type 0) → RunEnd → Type 0
RowEnds job_id tenant_id P (returned db) = ⊥
RowEnds job_id tenant_id P (retried db) = ⊥
RowEnds job_id tenant_id P (completed db job) =
    (row : ResearchJob) × (get db job_id tenant_id ≡ some row) × P row.status

NoneFailed-skip : (docs : List ResearchDocument) → NoneFailed (map skip docs)
unfolding skip
NoneFailed-skip [] = tt
NoneFailed-skip (d ∷ docs) = (refl, NoneFailed-skip docs)

nonempty_tail :
    (settled : List ResearchDocument) (d : ResearchDocument) (docs : List ResearchDocument)
    → settled ++ d ∷ docs ≢ []
nonempty_tail [] d docs = λ e. cc
nonempty_tail (x ∷ settled) d docs = λ e. cc

module _ (service : ResearchService) (tenant_id : Uuid) (clock : ℕ → Time) (others : ℕ → Db → Db)
    (job_id : Uuid) (alone : IsLeftAlone others job_id tenant_id) (k : ℕ)
    (order : Option OrderData) where
  -- While other sessions neither remove the job nor write its documents, which have distinct ids, and
  -- every look from the `k`-th on finds it being cancelled: from that document on every document is
  -- skipped, whatever the fetcher would do. In the database that the run leaves, the documents of the job
  -- are those settled before and the skipped ones, and its row has their counters and is cancelled.
  pub cancel_skips_rest :
      (stays : StaysAt ResearchJobStatus.cancelling others job_id tenant_id k) (i : ℕ) (db : Db)
      (job row : ResearchJob) (settled : List ResearchDocument) (doc : ResearchDocument)
      (docs : List ResearchDocument)
      → k ≤ i
      → job.id ≡ job_id
      → get db job_id tenant_id ≡ some row
      → list_for_job db job_id ≡ settled ++ doc ∷ docs
      → HasDistinctKeys id_of (settled ++ doc ∷ docs)
      → EndsWith
          (λ s. s ≡ ResearchJobStatus.cancelled)
          job_id
          tenant_id
          (settled ++ map skip (doc ∷ docs))
          (finish service tenant_id clock others
            (loop service tenant_id clock others order i db job settled (doc ∷ docs)))
  cancel_skips_rest stays i db job row settled doc docs le same found listed distinct =
      stopped-EndsWith service tenant_id clock others job_id alone ResearchJobStatus.cancelling refl
        k stays order (λ s. s ≡ ResearchJobStatus.cancelled) i db job row settled doc docs le same
        found listed distinct go
    where
      go :
          (final : ResearchJobStatus)
          → IsFinalStatus ResearchJobStatus.cancelling (settled ++ map skip (doc ∷ docs)) final
          → final ≡ ResearchJobStatus.cancelled
      go final (inl (_, e)) = e
      go final (inr (apart, e)) = absurd (apart refl)

  -- While other sessions neither remove the job nor write its documents, which have distinct ids,
  -- every look from the `k`-th on finds the job `cancelled`, rather than `cancelling`, and no
  -- document failed before: every document from that one on is skipped, but in the database that the
  -- run leaves, the row of the job is completed, even if no document was fetched. The documents of
  -- the job are those settled before and the skipped ones, and its row has their counters.
  pub cancelled_run_completes :
      (stays : StaysAt ResearchJobStatus.cancelled others job_id tenant_id k) (i : ℕ) (db : Db)
      (job row : ResearchJob) (settled : List ResearchDocument) (doc : ResearchDocument)
      (docs : List ResearchDocument)
      → k ≤ i
      → job.id ≡ job_id
      → get db job_id tenant_id ≡ some row
      → list_for_job db job_id ≡ settled ++ doc ∷ docs
      → HasDistinctKeys id_of (settled ++ doc ∷ docs)
      → NoneFailed settled
      → EndsWith
          (λ s. s ≡ ResearchJobStatus.completed)
          job_id
          tenant_id
          (settled ++ map skip (doc ∷ docs))
          (finish service tenant_id clock others
            (loop service tenant_id clock others order i db job settled (doc ∷ docs)))
  cancelled_run_completes stays i db job row settled doc docs le same found listed distinct well =
      stopped-EndsWith service tenant_id clock others job_id alone ResearchJobStatus.cancelled refl
        k stays order (λ s. s ≡ ResearchJobStatus.completed) i db job row settled doc docs le same
        found listed distinct go
    where
      go :
          (final : ResearchJobStatus)
          → IsFinalStatus ResearchJobStatus.cancelled (settled ++ map skip (doc ∷ docs)) final
          → final ≡ ResearchJobStatus.completed
      go final (inl (absent, _)) = cc
      go final (inr (_, e)) =
          e
          ∙ (status-completed_iff (settled ++ map skip (doc ∷ docs))).1 (
            nonempty_tail settled (skip doc) (map skip docs),
            All-append _ settled (map skip (doc ∷ docs)) well (NoneFailed-skip (doc ∷ docs)),
          )

module _ (service : ResearchService) (tenant_id : Uuid) (clock : ℕ → Time)
    (others : ℕ → Db → Db) where
  finish_lem :
      (db : Db) (job : ResearchJob) (docs : List ResearchDocument)
      → finish service tenant_id clock others (finished db job docs) ≡ (
          let db' = others (length docs) db in
          let f =
            final_columns
              (resolve_job_terminal_status db' job)
              docs
              (clock (2 * length docs + 1)) in
          completed (update_job job.id f db') (f job))
  unfolding finish
  finish_lem db job docs = refl

  -- A cancel that is committed after the last look of the worker is lost: the job, last seen as
  -- running, gets the status that its documents call for, although its row says `cancelling` when the
  -- final write is made.
  pub late_cancel_lost :
      (db : Db) (job row : ResearchJob) (docs : List ResearchDocument)
      → job.status ≡ ResearchJobStatus.running
      → get (others (length docs) db) job.id tenant_id ≡ some row
      → row.status ≡ ResearchJobStatus.cancelling
      → RowEnds job.id tenant_id
          (λ s.
            (s ≡ status_of_documents (list_for_job (others (length docs) db) job.id))
            × (s ≢ ResearchJobStatus.cancelled))
          (finish service tenant_id clock others (finished db job docs))
  late_cancel_lost db job row docs running found cancelling =
      let db' = others (length docs) db in
      let status = resolve_job_terminal_status db' job in
      let now = clock (2 * length docs + 1) in
      let resolved = resolve_of_documents db' job (λ e. cc) in
      rw finish_lem (
        final_columns status docs now row,
        get-update_job_self (final_columns status docs now)
            (final_columns-KeepsIdentity status docs now) db' job.id tenant_id row found,
        (
          final_status status docs now row ∙ resolved,
          λ e.
              status_of_documents-ne-cancelled (list_for_job db' job.id)
                (sym (final_status status docs now row ∙ resolved) ∙ e),
        ),
      )
