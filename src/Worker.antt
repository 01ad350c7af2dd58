-- ===== src/Worker.antt =====
-- backend/app/engine/worker.py: the task `research_job`, one run of it. What other sessions commit
-- meanwhile is `others`: `others i` acts on the database just before the worker reads the job again
-- for its `i`-th document, and `others n`, after the last of `n` documents, before the final write.
-- `clock i` is the `i`-th reading of the time. The writes of a document are seen when they are
-- flushed, and where the job vanishes, skips that were flushed but not committed are kept, while the
-- source undoes them. The callback and the reaper are in the children.
pub mod Callback
pub mod Delivery
pub mod Reaper
pub mod Sweeps
pub mod Rounds
pub mod Looks
pub mod Runs
pub mod Drain
pub mod Stopping
pub mod Cancellation
pub mod Redelivery
use Prim.Native.String
use researchhub_engine.Prelude.{
  ℕ, String, ◌+◌, ◌*◌, ◌⊎◌, inl, inr, Bool, true, false, not, ◌&&◌, Option, none, some, List, [],
  ◌∷◌, ◌++◌, map, if◌then◌else◌, str_eq, length,
}
use researchhub_engine.Schemas.{ResearchJobStatus, ResearchDocStatus, value}
use researchhub_engine.Models.{
  Uuid, Time, ResearchJob, ResearchDocument, OrderData, FetchedDocument,
}
use researchhub_engine.Repository.{Db, is_failed, get, update_job, list_for_job, save_document}
use researchhub_engine.World.{ResearchService}
use researchhub_engine.Service.{is_uploaded, recalc_job_counters, resolve_job_terminal_status}

-- `job.status in (cancelled, cancelling)`
abbrev pub is_stopped : ResearchJobStatus → Bool
is_stopped ResearchJobStatus.cancelled = true
is_stopped ResearchJobStatus.cancelling = true
is_stopped _ = false

-- the truth of an optional text
abbrev pub is_text : Option String → Bool
is_text none = false
is_text (some s) = not (str_eq s "")

unfoldable pub skip : ResearchDocument → ResearchDocument
skip doc = record doc { status = ResearchDocStatus.skipped }

unfoldable pub start_fetching : ResearchDocument → ResearchDocument
start_fetching doc = record doc { status = ResearchDocStatus.fetching }

-- The assignments after a fetch that returned; the times are read once each.
abbrev pub copy_fetched : FetchedDocument → Time → ResearchDocument → ResearchDocument
copy_fetched fetched now doc = record doc {
  status = fetched.status;
  summary = fetched.summary;
  link = fetched.link;
  link_label = fetched.link_label;
  provenance = fetched.provenance;
  warnings = fetched.warnings;
  fetched_at = some now;
}

abbrev pub link_file : FetchedDocument → Time → ResearchDocument → ResearchDocument
link_file fetched now doc = record doc {
  file_id = fetched.file_id;
  order_file_id = fetched.order_file_id;
  uploaded_at = some now;
}

abbrev pub record_failure : FetchedDocument → ResearchDocument → ResearchDocument
record_failure fetched doc = record doc {
  error_code = elim fetched.error_code [ none ↦ none | some c ↦ some (value c) ];
  error_message = fetched.error_message;
  retryable = fetched.retryable;
  retry_count = doc.retry_count + 1;
}

unfoldable pub apply_fetched : FetchedDocument → Time → Time → ResearchDocument → ResearchDocument
apply_fetched fetched now later doc =
    let copied = copy_fetched fetched now doc in
    if is_uploaded fetched.status && is_text fetched.file_key
    then link_file fetched later copied
    else if is_failed fetched.status
    then record_failure fetched copied
    else copied

-- the `except Exception as e` of one document
unfoldable pub apply_exception : String → ResearchDocument → ResearchDocument
apply_exception e doc = record doc {
  status = ResearchDocStatus.failed;
  error_code = some "INTERNAL_ERROR";
  error_message = some e;
  retryable = true;
  retry_count = doc.retry_count + 1;
}

-- `d[k]` of a dict; the text of a KeyError is the quoted key
unfoldable pub fetched_of :
    String → String ⊎ List (String × FetchedDocument) → String ⊎ FetchedDocument
fetched_of k (inl e) = inl e
fetched_of k (inr []) = inl (String.◌++◌ "'" (String.◌++◌ k "'"))
fetched_of k (inr ((j, v) ∷ d)) = if str_eq k j then inr v else fetched_of k (inr d)

abbrev pub apply_result :
    String ⊎ FetchedDocument → Time → Time → ResearchDocument → ResearchDocument
apply_result (inl e) now later doc = apply_exception e doc
apply_result (inr fetched) now later doc = apply_fetched fetched now later doc

-- How the loop ends: the job is gone, or the database, the job as last read and its documents.
pub data LoopEnd : Type 0 where
  vanished : Db → LoopEnd
  finished : Db → ResearchJob → List ResearchDocument → LoopEnd

-- How a run ends: it returns without finishing the job, finishes it, or raises and is retried.
pub data RunEnd : Type 0 where
  returned : Db → RunEnd
  completed : Db → ResearchJob → RunEnd
  retried : Db → RunEnd

-- the columns that the end of a run assigns
unfoldable pub final_columns :
    ResearchJobStatus → List ResearchDocument → Time → ResearchJob → ResearchJob
unfolding recalc_job_counters
final_columns status docs now r = record (recalc_job_counters r docs) {
  status = status;
  completed_at = some now;
}

unfoldable pub save_documents : List ResearchDocument → Db → Db
save_documents [] db = db
save_documents (doc ∷ docs) db = save_documents docs (save_document doc db)

module _ (service : ResearchService) (tenant_id : Uuid) (clock : ℕ → Time) where
  -- what becomes of the `i`-th document, once it is marked as being fetched
  unfoldable pub process : Option OrderData → ℕ → ResearchDocument → ResearchDocument
  unfolding fetched_of apply_fetched apply_exception
  process order i doc =
      apply_result
        (fetched_of doc.doc_type (service.document_fetcher order (doc.doc_type ∷ []) tenant_id))
        (clock (2 * i + 1)) (clock (2 * i + 2)) doc

  -- the document that one round of the loop leaves
  unfoldable pub settle :
      Option OrderData → ResearchJobStatus → ℕ → ResearchDocument → ResearchDocument
  unfolding skip process start_fetching
  settle order status i doc =
      if is_stopped status then skip doc else process order i (start_fetching doc)

-- The writes of that round: a skipped document is saved once, a fetched one before and after.
unfoldable pub save_round : ResearchJobStatus → ResearchDocument → ResearchDocument → Db → Db
unfolding start_fetching save_document
save_round status doc settled db =
    save_document settled (if is_stopped status then db else save_document (start_fetching doc) db)

module _ (clock : ℕ → Time) where
  -- a task delivered after a cancel
  unfoldable pub drain : ResearchJob → Db → Db
  unfolding skip final_columns save_documents
  drain job db =
      let docs = map skip (list_for_job db job.id) in
      update_job job.id (final_columns ResearchJobStatus.cancelled docs (clock 0))
        (save_documents docs db)

  abbrev pub start_columns : ResearchJob → ResearchJob
  start_columns r = record r { status = ResearchJobStatus.running; started_at = some (clock 0) }

-- The loop goes on with the job that was read, or ends where it is gone.
abbrev pub go_on : Db → (ResearchJob → LoopEnd) → Option ResearchJob → LoopEnd
go_on db next none = vanished db
go_on db next (some job) = next job

module _ (service : ResearchService) (tenant_id : Uuid) (clock : ℕ → Time)
    (others : ℕ → Db → Db) where
  unfoldable pub loop :
      Option OrderData
      → ℕ
      → Db
      → ResearchJob
      → List ResearchDocument
      → List ResearchDocument
      → LoopEnd
  loop order i db job settled [] = finished db job settled
  loop order i db job settled (doc ∷ docs) =
      go_on (others i db)
        (λ job'.
          let doc' = settle service tenant_id clock order job'.status i doc in
          loop order (i + 1) (save_round job'.status doc doc' (others i db)) job'
            (settled ++ doc' ∷ []) docs)
        (get (others i db) job.id tenant_id)

  unfoldable pub finish : LoopEnd → RunEnd
  unfolding final_columns resolve_job_terminal_status update_job
  finish (vanished db) = returned db
  finish (finished db job docs) =
      let n = length docs in
      let db' = others n db in
      let status = resolve_job_terminal_status db' job in
      let now = clock (2 * n + 1) in
      completed (update_job job.id (final_columns status docs now) db')
        (final_columns status docs now job)

  -- the call of the order provider, and all that follows; without one the task raises
  unfoldable pub process_all : Option (Uuid → Uuid → Option OrderData) → ResearchJob → Db → RunEnd
  unfolding finish loop list_for_job
  process_all none job db = retried db
  process_all (some provider) job db = finish (
      loop (provider job.order_id tenant_id) 0 db (start_columns clock job) []
        (list_for_job db job.id))

  unfoldable pub start : ResearchJob → Db → RunEnd
  unfolding process_all update_job
  start job db = process_all service.order_provider job (update_job job.id (start_columns clock) db)

  -- what is done with the job that the task names
  unfoldable pub run : Db → Option ResearchJob → RunEnd
  unfolding drain start
  run db none = returned db
  run db (some job) = if is_stopped job.status then returned (drain clock job db) else start job db

  -- `research_job`, up to the callback
  unfoldable pub research_job : Uuid → Db → RunEnd
  unfolding get run
  research_job job_id db = run db (get db job_id tenant_id)
