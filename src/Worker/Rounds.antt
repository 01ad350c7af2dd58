-- ===== src/Worker/Rounds.antt =====
-- One round of the loop of `research_job`: what becomes of a document, and of the job's documents.
use mathlib.Core.Path.{subst}
use researchhub_engine.Prelude.{
  AllPairs, ◌≢◌, if◌then◌else◌, ◌&&◌, ◌*◌, ℕ, String, ◌+◌, ◌≡◌, refl, sym, ap, ◌∙◌, ◌⊎◌, inl, inr,
  Bool, true, false, Option, List, [], ◌∷◌, ◌++◌, HasDistinctKeys, Bool-cases, keys, keys-append,
}
use researchhub_engine.Schemas.{ResearchJobStatus, ResearchDocStatus}
use researchhub_engine.Models.{Uuid, Time, ResearchDocument, OrderData, FetchedDocument}
use researchhub_engine.Repository.{Db, is_failed, list_for_job, write_columns, save_document}
use researchhub_engine.Repository.Queries.{list_for_job-save_document}
use researchhub_engine.World.{ResearchService}
use researchhub_engine.Service.Outcome.{is_settled}
use researchhub_engine.Service.{is_uploaded}
use researchhub_engine.Worker.{
  is_text, apply_result, is_stopped, start_fetching, apply_fetched, apply_exception, fetched_of,
  settle, save_round,
}

abbrev pub id_of : ResearchDocument → Uuid
id_of d = d.id

-- What the worker relies on of the document fetcher: a document that it returns is settled.
pub record ReturnsSettled (service : ResearchService) : Type 0 where
  pub at :
      (order : Option OrderData) (doc_type : String) (tenant_id : Uuid) (f : FetchedDocument)
      → fetched_of doc_type (service.document_fetcher order (doc_type ∷ []) tenant_id) ≡ inr f
      → is_settled f.status ≡ true

-- `assigned` and `doc` agree on the columns that the engine never assigns.
abbrev pub IsSameRow : ResearchDocument → ResearchDocument → Type 0
IsSameRow doc assigned = (write_columns assigned doc ≡ assigned) × (assigned.id ≡ doc.id)

IsSameRow-if :
    (doc : ResearchDocument) (b : Bool) (x y : ResearchDocument)
    → IsSameRow doc x
    → IsSameRow doc y
    → IsSameRow doc (if b then x else y)
IsSameRow-if doc true x y hx hy = hx
IsSameRow-if doc false x y hx hy = hy

apply_fetched-IsSameRow :
    (f : FetchedDocument) (now later : Time) (doc : ResearchDocument)
    → IsSameRow doc (apply_fetched f now later doc)
unfolding apply_fetched
apply_fetched-IsSameRow f now later doc =
    IsSameRow-if doc (is_uploaded f.status && is_text f.file_key) _ _ (refl, refl)
      (IsSameRow-if doc (is_failed f.status) _ _ (refl, refl) (refl, refl))

apply_result-IsSameRow :
    (r : String ⊎ FetchedDocument) (now later : Time) (doc : ResearchDocument)
    → IsSameRow doc (apply_result r now later doc)
apply_result-IsSameRow (inl e) now later doc = unfold apply_exception in (refl, refl)
apply_result-IsSameRow (inr f) now later doc = apply_fetched-IsSameRow f now later doc

status-if :
    (P : ResearchDocStatus → Type 0) (b : Bool) (x y : ResearchDocument)
    → P x.status
    → P y.status
    → P (if b then x else y).status
status-if P true x y hx hy = hx
status-if P false x y hx hy = hy

-- The status after a fetch that returned is the one that it returned.
apply_fetched-status :
    (f : FetchedDocument) (now later : Time) (doc : ResearchDocument)
    → (apply_fetched f now later doc).status ≡ f.status
unfolding apply_fetched
apply_fetched-status f now later doc =
    status-if (λ s. s ≡ f.status) (is_uploaded f.status && is_text f.file_key) _ _ refl
      (status-if (λ s. s ≡ f.status) (is_failed f.status) _ _ refl refl)

apply_result-is_settled :
    (r : String ⊎ FetchedDocument) (now later : Time) (doc : ResearchDocument)
    → ((f : FetchedDocument) → r ≡ inr f → is_settled f.status ≡ true)
    → is_settled (apply_result r now later doc).status ≡ true
apply_result-is_settled (inl e) now later doc h = unfold apply_exception in refl
apply_result-is_settled (inr f) now later doc h =
    rw (apply_fetched-status f now later doc) (h f refl)

module _ (service : ResearchService) (tenant_id : Uuid) (clock : ℕ → Time) where
  -- A round keeps the columns that the engine never assigns.
  pub settle-IsSameRow :
      (order : Option OrderData) (status : ResearchJobStatus) (i : ℕ) (doc : ResearchDocument)
      → IsSameRow doc (settle service tenant_id clock order status i doc)
  unfolding settle
  settle-IsSameRow order status i doc =
      IsSameRow-if doc (is_stopped status) _ _ (refl, refl)
        (apply_result-IsSameRow
          (fetched_of doc.doc_type (service.document_fetcher order (doc.doc_type ∷ []) tenant_id))
          (clock (2 * i + 1)) (clock (2 * i + 2)) (start_fetching doc))

  -- Each document comes out settled: skipped, failed, or as the fetcher returned it.
  pub settle-is_settled :
      (order : Option OrderData) (status : ResearchJobStatus) (i : ℕ) (doc : ResearchDocument)
      → ReturnsSettled service
      → is_settled (settle service tenant_id clock order status i doc).status ≡ true
  unfolding settle
  settle-is_settled order status i doc returns =
      status-if (λ s. is_settled s ≡ true) (is_stopped status) _ _ refl
        (apply_result-is_settled
          (fetched_of doc.doc_type (service.document_fetcher order (doc.doc_type ∷ []) tenant_id))
          (clock (2 * i + 1)) (clock (2 * i + 2)) (start_fetching doc)
          (λ f e. returns.at order doc.doc_type tenant_id f e))

-- Replacing a row by one of the same key keeps the keys distinct.
pub distinct_same :
    (before : List ResearchDocument) (x y : ResearchDocument) (after : List ResearchDocument)
    → y.id ≡ x.id
    → HasDistinctKeys id_of (before ++ x ∷ after)
    → HasDistinctKeys id_of (before ++ y ∷ after)
distinct_same before x y after e h =
    subst (λ l. AllPairs (λ (a b : ℕ). b ≢ a) l)
      (keys-append id_of before (x ∷ after)
        ∙ (ap (λ k. keys id_of before ++ k ∷ keys id_of after) (sym e)
            ∙ sym (keys-append id_of before (y ∷ after))))
      h

-- The documents of a job after a round for one of them.
pub list_for_job-save_round :
    (db : Db) (job_id : Uuid) (status : ResearchJobStatus) (before : List ResearchDocument)
    (doc : ResearchDocument) (after : List ResearchDocument) (assigned : ResearchDocument)
    → list_for_job db job_id ≡ before ++ doc ∷ after
    → HasDistinctKeys id_of (before ++ doc ∷ after)
    → IsSameRow doc assigned
    → list_for_job (save_round status doc assigned db) job_id ≡ before ++ assigned ∷ after
unfolding save_round
list_for_job-save_round db job_id status before doc after assigned h distinct same =
    elim (Bool-cases (is_stopped status)) [
      | inl stopped ↦ rw stopped (
          list_for_job-save_document db job_id before doc after assigned h distinct same.1
          ∙ ap (λ d. before ++ d ∷ after) same.0)
      | inr working ↦ rw working (
          list_for_job-save_document (save_document (start_fetching doc) db) job_id before
            (start_fetching doc) after assigned
            (list_for_job-save_document db job_id before doc after (start_fetching doc) h distinct
              refl)
            (distinct_same before doc (start_fetching doc) after refl distinct) same.1
          ∙ ap (λ d. before ++ d ∷ after) same.0)
    ]
