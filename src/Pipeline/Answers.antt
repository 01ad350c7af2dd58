-- ===== src/Pipeline/Answers.antt =====
-- The document fetcher of backend/app/engine/adapters.py on the pipeline of
-- backend/app/engine/orchestration: what the worker gets for one document type.
use mathlib.Core.Path.{subst}
use researchhub_engine.Prelude.{
  String, ◌≡◌, ◌≢◌, ap, refl, ◌∙◌, ◌⊎◌, inl, inr, Bool, true, false, Option, some, List, [], ◌∷◌,
  map, filter_by, All, str_eq, str_eq_refl, if◌then◌else◌, eq_iff,
}
use researchhub_engine.Contracts.{StepStatus, StepResult, ResearchResult}
use researchhub_engine.Schemas.{ResearchDocStatus}
use researchhub_engine.Models.{Uuid, OrderData, FetchedDocument}
use researchhub_engine.DocTypes.{step_to_doc_type, doc_type_to_step, lookup}
use researchhub_engine.DocTypes.Lookup.{lookup-eq-some_iff}
use researchhub_engine.Service.{is_uploaded}
use researchhub_engine.Sources.{SourceException}
use researchhub_engine.Sources.Context.{Context}
use researchhub_engine.Sources.Services.{Python, Services}
use researchhub_engine.Reference.{DocSpec, residential_docs}
use researchhub_engine.Steps.{is_wanted}
use researchhub_engine.Steps.Statuses.{NotInError}
use researchhub_engine.Adapters.{map_step_status, Environment, Stores}
use researchhub_engine.Adapters.Uploads.{IsUploadEnd, upload_artifact-end}
use researchhub_engine.Adapters.Fetching.{
  RunArguments, document_of, put, upload_if, fetch_step, collect_steps, run_arguments, after_run,
  include_steps, fetch,
}
use researchhub_engine.Adapters.Results.{document_of-status}
use researchhub_engine.Resolution.{Places}
use researchhub_engine.Resolution.Phases.{resolve_property_context}
use researchhub_engine.Pipeline.Runner.{run_research}
use researchhub_engine.Pipeline.Runs.{IsComplete, IsRun, run_research-IsRun}

-- What holds of every pair of a table holds of what is looked up.
lookup-All :
    (P : String → String → Type 0) (k v : String) (d : List (String × String))
    → All (λ (e : String × String). P e.0 e.1) d
    → lookup k d ≡ some v
    → P k v
unfolding lookup
lookup-All P k v [] h e = cc
lookup-All P k v ((j, w) ∷ d) h e = go (str_eq k j) refl (lookup-All P k v d h.1) e
  where
    go :
        (b : Bool)
        → str_eq k j ≡ b
        → (lookup k d ≡ some v → P k v)
        → (if b then some w else lookup k d) ≡ some v
        → P k v
    go true same rest e = let found : w ≡ v = cc in rw (← found, (eq_iff k j).0 same) h.0
    go false apart rest e = rest e

-- The step of a requestable type is one document of the reference.
wanted_step :
    (doc_type step : String)
    → lookup doc_type doc_type_to_step ≡ some step
    → map (λ (d : DocSpec). d.key) (filter_by (is_wanted (some (step ∷ []))) residential_docs)
      ≡ step ∷ []
wanted_step doc_type step =
    lookup-All
      (λ t s.
        map (λ (d : DocSpec). d.key) (filter_by (is_wanted (some (s ∷ []))) residential_docs)
        ≡ s ∷ [])
      doc_type step doc_type_to_step (refl, (refl, (refl, (refl, (refl, (refl, tt))))))

-- What becomes of a step `x` that is asked for as `doc_type`: a step that is `ok` has an uploaded document,
-- with the upload of its files; one with a link has a fetched one and an empty one a skipped one, and the
-- stores are as they were.
abbrev pub IsFetched :
    Environment
    → Uuid
    → Option Uuid
    → String
    → Option String
    → StepResult
    → Stores
    → FetchedDocument × Stores
    → Type 0
IsFetched env order_id tenant_id doc_type docs_dir x s r =
    let doc = document_of doc_type x in
    ((x.status ≡ StepStatus.ok)
      × (doc.status ≡ ResearchDocStatus.uploaded)
      × IsUploadEnd env order_id tenant_id x.downloaded docs_dir doc s r)
    ⊎ ((((x.status ≡ StepStatus.link) × (doc.status ≡ ResearchDocStatus.fetched))
          ⊎ ((x.status ≡ StepStatus.empty) × (doc.status ≡ ResearchDocStatus.skipped)))
        × (r ≡ (doc, s)))

-- The answer of a run with the one step `step`: the run returned, its step is in no error, and the document
-- is what becomes of this step.
abbrev pub IsAnswerOf :
    Environment
    → Uuid
    → Option Uuid
    → String
    → String
    → String ⊎ ResearchResult
    → Stores
    → FetchedDocument × Stores
    → Type 0
IsAnswerOf env order_id tenant_id doc_type step run s r =
    (result : ResearchResult) × (x : StepResult) × (run ≡ inr result)
    × (result.steps ≡ x ∷ [])
    × (x.key ≡ step)
    × (x.status ≢ StepStatus.error)
    × IsFetched env order_id tenant_id doc_type result.docs_dir x s r

module _ (env : Environment) (order_id : Uuid) (tenant_id : Option Uuid) where
  fetch_step-IsFetched :
      (t : String) (docs_dir : Option String) (x : StepResult) (s : Stores)
      → x.status ≢ StepStatus.error
      → IsFetched env order_id tenant_id t docs_dir x s
          (fetch_step env order_id tenant_id t docs_dir x s)
  unfolding fetch_step map_step_status
  fetch_step-IsFetched t docs_dir x s clean = go x.status refl
    where
      go :
          (status : StepStatus)
          → x.status ≡ status
          → IsFetched env order_id tenant_id t docs_dir x s (
              upload_if env order_id tenant_id
                (is_uploaded (map_step_status status))
                (document_of t x)
                x.downloaded
                docs_dir
                s)
      go StepStatus.ok e = inl (
        e,
        document_of-status t x ∙ ap map_step_status e,
        (upload_artifact-end env order_id tenant_id (document_of t x) x.downloaded docs_dir s).1,
      )
      go StepStatus.link e = inr (inl (e, document_of-status t x ∙ ap map_step_status e), refl)
      go StepStatus.empty e = inr (inr (e, document_of-status t x ∙ ap map_step_status e), refl)
      go StepStatus.error e = absurd (clean e)

  -- The one step of a requested type gives that type its document.
  collect_one :
      (doc_type step : String) (docs_dir : Option String) (x : StepResult) (s : Stores)
      → lookup step step_to_doc_type ≡ some doc_type
      → x.key ≡ step
      → collect_steps env order_id tenant_id (doc_type ∷ []) docs_dir (x ∷ []) [] s ≡ (
        (doc_type, (fetch_step env order_id tenant_id doc_type docs_dir x s).0) ∷ [],
        (fetch_step env order_id tenant_id doc_type docs_dir x s).1,
      )
  unfolding collect_steps put
  collect_one doc_type step docs_dir x s known keyed = rw (keyed, known, str_eq_refl doc_type) refl

module _ (python : Python) (cut quote parent : String → String) (now_utc : String)
    (text_of : SourceException → String) (services : Services) (places : Places) where
  -- the pipeline as the fetcher calls it: without a job number
  abbrev pub pipeline : RunArguments → String ⊎ ResearchResult
  pipeline args =
      run_research python cut quote parent now_utc text_of services places "" (some args.include)
        args

  -- one step, and so one document
  one_answer :
      (env : Environment) (order_id : Uuid) (doc_type step : String) (tenant_id : Option Uuid)
      (s : Stores) (r : String ⊎ ResearchResult) (result : ResearchResult)
      → lookup doc_type doc_type_to_step ≡ some step
      → r ≡ inr result
      → IsComplete (some (step ∷ [])) result.steps
      → (doc : FetchedDocument) × (s' : Stores) × (after_run env pipeline order_id
            (doc_type ∷ [])
            tenant_id
            s
            r
          ≡ (inr ((doc_type, doc) ∷ []), s'))
        × IsAnswerOf env order_id tenant_id doc_type step r s (doc, s')
  one_answer env order_id doc_type step tenant_id s r result known returned (keys, clean) =
      rw returned (go result.steps (keys ∙ wanted_step doc_type step known) clean)
    where
      go :
          (steps : List StepResult)
          → map (λ (x : StepResult). x.key) steps ≡ step ∷ []
          → All NotInError steps
          → (doc : FetchedDocument) × (s' : Stores) × (after_run env pipeline order_id
                (doc_type ∷ [])
                tenant_id
                s
                (inr (record result { steps = steps }))
              ≡ (inr ((doc_type, doc) ∷ []), s'))
            × IsAnswerOf env order_id tenant_id doc_type step
                (inr (record result { steps = steps }))
                s
                (doc, s')
      go [] h clean = cc
      go (x ∷ []) h clean =
          let keyed : x.key ≡ step = cc in
          let fetched = fetch_step env order_id tenant_id doc_type result.docs_dir x s in
          (
            fetched.0,
            fetched.1,
            rw
                (collect_one env order_id tenant_id doc_type step result.docs_dir x s
                  ((lookup-eq-some_iff step doc_type).1 known) keyed)
                refl,
            (
              record result { steps = x ∷ [] },
              x,
              refl,
              refl,
              keyed,
              clean.0,
              fetch_step-IsFetched env order_id tenant_id doc_type result.docs_dir x s clean.0,
            ),
          )
      go (x ∷ y ∷ steps) h clean = cc

  -- For an order whose property is found, the fetcher on the pipeline answers every requestable document
  -- type that is asked for alone, with that type's document and nothing else, whatever the services of the
  -- sources raise. The run of the pipeline has returned the one step of this type, in no error. A step with
  -- a link gives a fetched document and an empty one a skipped one; a step that is `ok` gives an uploaded
  -- document, with the first of its files that is on the disk, and a failed one only where the making of a
  -- key, the copying or the evidence tables raised for this file.
  pub fetch_answers :
      (env : Environment) (order : OrderData) (doc_type step : String) (tenant_id : Option Uuid)
      (s : Stores) (ctx : Context)
      → lookup doc_type doc_type_to_step ≡ some step
      → resolve_property_context python places "" (run_arguments env pipeline order (step ∷ []))
        ≡ inr ctx
      → (doc : FetchedDocument) × (s' : Stores) × (fetch env pipeline
            (some order)
            (doc_type ∷ [])
            tenant_id
            s
          ≡ (inr ((doc_type, doc) ∷ []), s'))
        × IsAnswerOf env order.id tenant_id doc_type step
            (pipeline (run_arguments env pipeline order (step ∷ [])))
            s
            (doc, s')
  unfolding fetch include_steps
  fetch_answers env order doc_type step tenant_id s ctx known found =
      let args = run_arguments env pipeline order (step ∷ []) in
      let run =
        run_research-IsRun python cut quote parent now_utc text_of services places ""
          (some (step ∷ [])) args in
      let (result, returned, complete, _) =
        subst (λ o. IsRun (some (step ∷ [])) o (pipeline args)) found run in
      rw known (
        one_answer env order.id doc_type step tenant_id s (pipeline args) result known returned
          complete)
