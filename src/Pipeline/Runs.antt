-- ===== src/Pipeline/Runs.antt =====
-- What `run_research` of backend/app/engine/orchestration/runner.py returns, and when it raises.
use researchhub_engine.Prelude.{
  Bool-cases, String, ◌≡◌, refl, ◌⊎◌, inl, inr, true, false, Option, List, map, filter_by, All,
  contains,
}
use researchhub_engine.Contracts.{StepResult, ResearchResult}
use researchhub_engine.Sources.{SourceException}
use researchhub_engine.Sources.Context.{Context, log}
use researchhub_engine.Sources.Services.{Python, Services}
use researchhub_engine.Sources.Registry.{adapter_for, adapters}
use researchhub_engine.Reference.{DocSpec, residential_docs}
use researchhub_engine.Steps.{is_wanted}
use researchhub_engine.Steps.Assembly.{AreStepsFrom}
use researchhub_engine.Steps.Statuses.{NotInError}
use researchhub_engine.Adapters.Fetching.{RunArguments}
use researchhub_engine.Resolution.{Places}
use researchhub_engine.Resolution.Phases.{unconfirmed_warning, resolve_property_context}
use researchhub_engine.Resolution.Confirmation.{IsResolved, resolve_property_context-IsResolved}
use researchhub_engine.Pipeline.{research_steps}
use researchhub_engine.Pipeline.Runner.{result_of, on_context, run_research}
use researchhub_engine.Pipeline.Fallbacks.{research_steps-NotInError}
use researchhub_engine.Pipeline.Unconfirmed.{IsUnconfirmed}
use researchhub_engine.Pipeline.Suppression.{IsSuppressed, research_steps-IsSuppressed}

-- the steps are those of the wanted documents, and none failed
abbrev pub IsComplete : Option (List String) → List StepResult → Type 0
IsComplete include steps =
    (map (λ (s : StepResult). s.key) steps
      ≡ map (λ (d : DocSpec). d.key) (filter_by (is_wanted include) residential_docs))
    × All NotInError steps

-- A result shows nothing of a parcel.
pub record IsSilent (result : ResearchResult) : Type 0 where
  pub no_id : result.parcel_id ≡ ""
  pub warned : contains unconfirmed_warning result.warnings ≡ true
  pub suppressed : All IsSuppressed result.steps

-- What a run came to, by what the look-up of the property came to: the run raises exactly where the
-- look-up does, with the same text; otherwise its result is complete, and the parcel is confirmed or the
-- result silent.
abbrev pub IsRun : Option (List String) → String ⊎ Context → String ⊎ ResearchResult → Type 0
IsRun include (inl e) r = r ≡ inl e
IsRun include (inr ctx) r =
    (result : ResearchResult) × (r ≡ inr result)
    × IsComplete include result.steps
    × ((ctx.parcel_ok ≡ true) ⊎ IsSilent result)

module _ (python : Python) (cut quote parent : String → String) (now_utc : String)
    (text_of : SourceException → String) (services : Services) (places : Places) where
  resolved-IsUnconfirmed :
      (ctx : Context) → IsResolved ctx → ctx.parcel_ok ≡ false → IsUnconfirmed ctx
  resolved-IsUnconfirmed ctx h off = elim h.known [
    | inl sure ↦ cc
    | inr unknown ↦ record {
      unconfirmed = off;
      no_id = unknown.no_id;
      warned = unknown.warned;
      no_record = h.no_record;
      no_document = inl h.no_documents;
    }
  ]

  silent :
      (include : Option (List String)) (address : String) (ctx : Context)
      (r : (SourceException ⊎ List StepResult) × Context) (steps : List StepResult) (left : Context)
      → r ≡ (inr steps, left)
      → AreStepsFrom python.repr cut log
          (adapter_for (adapters python services))
          IsUnconfirmed
          IsSuppressed
          (filter_by (is_wanted include) residential_docs)
          r
      → IsSilent (result_of quote parent now_utc address steps left)
  unfolding result_of
  silent include address ctx r steps left e (steps', left', e', keys, suppressed, u) =
      let same : steps' ≡ steps = cc in
      let still : left' ≡ left = cc in
      record {
        no_id = rw (← still) u.no_id;
        warned = rw (← still) u.warned;
        suppressed = rw (← same) suppressed;
      }

  on_context-IsRun :
      (include : Option (List String)) (address : String) (o : String ⊎ Context)
      → ((ctx : Context) → o ≡ inr ctx → IsResolved ctx)
      → IsRun include o
          (on_context python cut quote parent now_utc text_of services places include address o)
  on_context-IsRun include address (inl e) resolved = refl
  on_context-IsRun include address (inr ctx) resolved =
      let (steps, left, e, keys, clean, _) =
        research_steps-NotInError python services cut include ctx in
      (
        result_of quote parent now_utc address steps left,
        rw e refl,
        unfold result_of in (keys, clean),
        elim (Bool-cases ctx.parcel_ok) [
          | inl sure ↦ inl sure
          | inr off ↦ inr (
              silent include address ctx (research_steps python cut services include ctx) steps left
                e
                (research_steps-IsSuppressed python cut services include ctx
                  (resolved-IsUnconfirmed ctx (resolved ctx refl) off)))
        ],
      )

  -- A run raises only where the look-up of the property does, with the same text. Otherwise, whatever the
  -- services of the sources raise, it returns one step for each wanted document of the reference, in its
  -- order, none with the status `error`; and where the parcel is not confirmed, the result has no parcel
  -- identifier, a warning, and in the steps of the sources that are asked by parcel no file, situs,
  -- area or address match.
  pub run_research-IsRun :
      (job_number : String) (include : Option (List String)) (args : RunArguments)
      → IsRun include (resolve_property_context python places job_number args) (
          run_research python cut quote parent now_utc text_of services places job_number include
            args)
  unfolding run_research
  run_research-IsRun job_number include args =
      on_context-IsRun include args.address (resolve_property_context python places job_number args)
        (λ ctx e. (resolve_property_context-IsResolved python places job_number args ctx e).0)
