-- ===== src/Adapters/Results.antt =====
-- What a fetch of backend/app/engine/adapters.py returns, and what it does to the blob store.
use researchhub_engine.Prelude.{
  String, ◌≡◌, refl, ◌∙◌, ◌⊎◌, inl, inr, Bool, true, false, Option, none, some, List, [], ◌∷◌, All,
  arith, if◌then◌else◌, contains, str_eq, ap, sym,
}
use researchhub_engine.Contracts.{StepStatus, ErrorInfo, StepResult, ResearchResult}
use researchhub_engine.Models.{Uuid, OrderData, FetchedDocument}
use researchhub_engine.DocTypes.{step_to_doc_type, lookup}
use researchhub_engine.Service.{is_uploaded}
use researchhub_engine.Service.Outcome.{is_settled}
use researchhub_engine.Adapters.{map_step_status, Environment, Stores, Stored}
use researchhub_engine.Adapters.Uploads.{KeepsBlobs, IsUploadEnd, upload_artifact-end}
use researchhub_engine.Adapters.Fetching.{
  RunArguments, plain_document, copy_error, document_of, put, upload_if, fetch_step, requested_type,
  collect_step, collect_steps, after_run, fetch_included, include_steps, fetch,
}

-- A requested type, with a document that needs no more work.
abbrev pub IsAnswer : List String → String × FetchedDocument → Type 0
IsAnswer doc_types e = (contains e.0 doc_types ≡ true) × (is_settled e.1.status ≡ true)

map_step_status-is_settled : (status : StepStatus) → is_settled (map_step_status status) ≡ true
unfolding map_step_status
map_step_status-is_settled StepStatus.ok = refl
map_step_status-is_settled StepStatus.link = refl
map_step_status-is_settled StepStatus.empty = refl
map_step_status-is_settled StepStatus.error = refl

pub document_of-status :
    (t : String) (step : StepResult) → (document_of t step).status ≡ map_step_status step.status
unfolding document_of
document_of-status t step = go step.error
  where
    go :
        (o : Option ErrorInfo)
        → (copy_error step.source_outcome o (plain_document t step)).status
          ≡ map_step_status step.status
    go none = refl
    go (some e) = refl

put-IsAnswer :
    (doc_types : List String) (k : String) (doc : FetchedDocument)
    (out : List (String × FetchedDocument))
    → contains k doc_types ≡ true
    → is_settled doc.status ≡ true
    → All (IsAnswer doc_types) out
    → All (IsAnswer doc_types) (put k doc out)
unfolding put
put-IsAnswer doc_types k doc [] hk hd h = ((hk, hd), tt)
put-IsAnswer doc_types k doc ((j, d) ∷ out) hk hd h =
    go (str_eq k j) (put-IsAnswer doc_types k doc out hk hd h.1)
  where
    go :
        (b : Bool)
        → All (IsAnswer doc_types) (put k doc out)
        → All (IsAnswer doc_types) (if b then (j, doc) ∷ out else (j, d) ∷ put k doc out)
    go true more = ((h.0.0, hd), h.1)
    go false more = (h.0, more)

module _ (env : Environment) (order_id : Uuid) (tenant_id : Option Uuid) where
  upload_if-settles :
      (b : Bool) (doc : FetchedDocument) (downloaded : List String) (docs_dir : Option String)
      (s : Stores)
      → is_settled doc.status ≡ true
      → KeepsBlobs s (upload_if env order_id tenant_id b doc downloaded docs_dir s).1
        × (is_settled (upload_if env order_id tenant_id b doc downloaded docs_dir s).0.status
            ≡ true)
  upload_if-settles false doc downloaded docs_dir s h = (λ k v e. e, h)
  upload_if-settles true doc downloaded docs_dir s h =
      let (keeps, e) = upload_artifact-end env order_id tenant_id doc downloaded docs_dir s in
      (keeps, go _ e)
    where
      go :
          (r : FetchedDocument × Stores)
          → IsUploadEnd env order_id tenant_id downloaded docs_dir doc s r
          → is_settled r.0.status ≡ true
      go r (inl (_, same)) = rw same h
      go r (inr (_, _, _, _, _, _, _, inl (e, _, failed))) = rw failed refl
      go r (inr (_, _, _, _, _, _, _, inr (key, ids, blob, _, uploaded, _, _, _))) =
          rw uploaded refl

  module _ (doc_types : List String) (docs_dir : Option String) where
    requested_type-contains :
        (o : Option String) (t : String)
        → requested_type env order_id tenant_id doc_types docs_dir o ≡ some t
        → contains t doc_types ≡ true
    requested_type-contains none t h = cc
    requested_type-contains (some u) t h = go (contains u doc_types) refl h
      where
        go :
            (b : Bool)
            → contains u doc_types ≡ b
            → (if b then some u else none) ≡ some t
            → contains t doc_types ≡ true
        go true hb e = ground (arith, hb, e)
        go false hb e = cc

    -- the documents collected so far, and the blobs
    abbrev pub IsCollected : Stores → List (String × FetchedDocument) × Stores → Type 0
    IsCollected s r = KeepsBlobs s r.1 × All (IsAnswer doc_types) r.0

    collect_step-IsCollected :
        (step : StepResult) (o : Option String) (out : List (String × FetchedDocument)) (s : Stores)
        → ((t : String) → o ≡ some t → contains t doc_types ≡ true)
        → All (IsAnswer doc_types) out
        → IsCollected s (collect_step env order_id tenant_id doc_types docs_dir step o out s)
    unfolding fetch_step
    collect_step-IsCollected step none out s known h = (λ k v e. e, h)
    collect_step-IsCollected step (some t) out s known h =
        let (keeps, settled) =
          upload_if-settles (is_uploaded (map_step_status step.status)) (document_of t step)
            step.downloaded docs_dir s
            (ap is_settled (document_of-status t step) ∙ map_step_status-is_settled step.status) in
        (keeps, put-IsAnswer doc_types t _ out (known t refl) settled h)

    collect_steps-IsCollected :
        (steps : List StepResult) (out : List (String × FetchedDocument)) (s : Stores)
        → All (IsAnswer doc_types) out
        → IsCollected s (collect_steps env order_id tenant_id doc_types docs_dir steps out s)
    unfolding collect_steps
    collect_steps-IsCollected [] out s h = (λ k v e. e, h)
    collect_steps-IsCollected (step ∷ steps) out s h =
        let (keeps, answers) =
          collect_step-IsCollected step
            (requested_type env order_id tenant_id doc_types docs_dir
              (lookup step.key step_to_doc_type))
            out s (requested_type-contains (lookup step.key step_to_doc_type)) h in
        let (more, all) = collect_steps-IsCollected steps _ _ answers in
        ((λ k v e. more k v (keeps k v e)), all)

-- A fetch that returns has overwritten no blob, and gives documents of requested types only, each
-- fetched, uploaded, failed or skipped.
pub fetch-IsAnswer :
    (env : Environment) (run_research : RunArguments → String ⊎ ResearchResult)
    (order : Option OrderData) (doc_types : List String) (tenant_id : Option Uuid) (s s' : Stores)
    (out : List (String × FetchedDocument))
    → fetch env run_research order doc_types tenant_id s ≡ (inr out, s')
    → KeepsBlobs s s' × All (IsAnswer doc_types) out
unfolding fetch
fetch-IsAnswer env run_research order doc_types tenant_id s s' out e =
    by_steps (include_steps doc_types) order e
  where
    returned :
        (out' : List (String × FetchedDocument)) (t : Stores)
        → KeepsBlobs s t × All (IsAnswer doc_types) out'
        → ◌≡◌ {A = Stored (List (String × FetchedDocument))} (inr out', t) (inr out, s')
        → KeepsBlobs s s' × All (IsAnswer doc_types) out
    returned out' t h e =
        let same : out' ≡ out = cc in
        let still : t ≡ s' = ap (λ x. x.1) e in rw (sym same, sym still) h

    by_run :
        (id : Uuid) (r : String ⊎ ResearchResult)
        → after_run env run_research id doc_types tenant_id s r ≡ (inr out, s')
        → KeepsBlobs s s' × All (IsAnswer doc_types) out
    by_run id (inl raised) e = cc
    by_run id (inr result) e =
        returned _ _
          (collect_steps-IsCollected env id tenant_id doc_types result.docs_dir result.steps [] s
            tt)
          e

    by_steps :
        (include : List String) (o : Option OrderData)
        → fetch_included env run_research include o doc_types tenant_id s ≡ (inr out, s')
        → KeepsBlobs s s' × All (IsAnswer doc_types) out
    by_steps [] o e = returned [] s (λ k v h. h, tt) e
    by_steps (_ ∷ _) none e = cc
    by_steps (step ∷ steps) (some o) e = by_run o.id _ e
