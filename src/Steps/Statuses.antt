-- ===== src/Steps/Statuses.antt =====
-- When no step that backend/app/engine/orchestration/steps.py assembles has the status `error`.
use researchhub_engine.Prelude.{
  ℕ, String, ◌≡◌, ◌≢◌, refl, ◌⊎◌, inl, inr, Option, none, some, List, filter_by,
}
use researchhub_engine.Contracts.{StepStatus, StepResult}
use researchhub_engine.Sources.{
  ManifestEntry, FetchedSource, Classified, SourceException, source_error, http_error,
  connection_error, any_other, SourceAdapter,
}
use researchhub_engine.Reference.{DocSpec, residential_docs}
use researchhub_engine.Steps.{
  is_wanted, assemble, after_source_error, after_exception, after_fetch, run_one, run_doc,
  build_steps,
}
use researchhub_engine.Steps.Assembly.{FallsBack, IsStepOf, AreStepsOf, build_from-AreStepsFrom}

-- A source that was returned, if one was, does not have the status `error`.
abbrev pub IsClean : {Ctx : Type 0} → (SourceException ⊎ FetchedSource) × Ctx → Type 0
IsClean (inl e, ctx) = Unit
IsClean (inr fs, ctx) = fs.status ≢ StepStatus.error

-- The adapter falls back, and never returns the status `error`.
pub record NeverErrs {Ctx : Type 0} (adapter : SourceAdapter Ctx) : Type 0 where
  pub falls : FallsBack adapter
  pub fetches : (ctx : Ctx) → IsClean (adapter.fetch ctx)
  pub fallbacks : (ctx : Ctx) → IsClean (adapter.fallback ctx)

abbrev pub NotInError : StepResult → Type 0
NotInError step = step.status ≢ StepStatus.error

module _ (repr : ℕ → String) (cut : String → String) {Ctx : Type 0}
    (log : ManifestEntry → Ctx → Ctx) where
  after_exception-NotInError :
      (d : DocSpec) (e : Classified) (r : (SourceException ⊎ FetchedSource) × Ctx)
      → IsClean r
      → IsStepOf repr cut log NotInError d (after_exception repr cut log d e r)
  unfolding after_exception assemble
  after_exception-NotInError d e (inl raised, ctx) h = (_, _, refl, refl, cc, tt)
  after_exception-NotInError d e (inr fs, ctx) h = (_, _, refl, refl, h, tt)

  after_source_error-NotInError :
      (d : DocSpec) (e : Classified) (r : (SourceException ⊎ FetchedSource) × Ctx)
      (fs : FetchedSource) (ctx : Ctx)
      → r ≡ (inr fs, ctx)
      → IsClean r
      → IsStepOf repr cut log NotInError d (after_source_error repr cut log d e r)
  unfolding after_source_error assemble
  after_source_error-NotInError d e (inl raised, c) fs ctx h clean = cc
  after_source_error-NotInError d e (inr f, c) fs ctx h clean = (_, _, refl, refl, clean, tt)

  after_fetch-NotInError :
      (d : DocSpec) (adapter : SourceAdapter Ctx) (r : (SourceException ⊎ FetchedSource) × Ctx)
      → NeverErrs adapter
      → IsClean r
      → IsStepOf repr cut log NotInError d (after_fetch repr cut log d adapter r)
  unfolding after_fetch assemble
  after_fetch-NotInError d adapter (inr fs, ctx) safe clean = (_, _, refl, refl, clean, tt)
  after_fetch-NotInError d adapter (inl (source_error e), ctx) safe clean =
      let (fs, ctx', h) = safe.falls ctx in
      after_source_error-NotInError d e (adapter.fallback ctx) fs ctx' h (safe.fallbacks ctx)
  after_fetch-NotInError d adapter (inl (http_error c), ctx) safe clean =
      after_exception-NotInError d _ (adapter.fallback ctx) (safe.fallbacks ctx)
  after_fetch-NotInError d adapter (inl connection_error, ctx) safe clean =
      after_exception-NotInError d _ (adapter.fallback ctx) (safe.fallbacks ctx)
  after_fetch-NotInError d adapter (inl (any_other e), ctx) safe clean =
      after_exception-NotInError d _ (adapter.fallback ctx) (safe.fallbacks ctx)

  run_doc-NotInError :
      (d : DocSpec) (o : Option (SourceAdapter Ctx)) (ctx : Ctx)
      → ((adapter : SourceAdapter Ctx) → o ≡ some adapter → NeverErrs adapter)
      → IsStepOf repr cut log NotInError d (run_doc repr cut log d o ctx)
  unfolding run_doc run_one assemble
  run_doc-NotInError d none ctx safe = (_, _, refl, refl, cc, tt)
  run_doc-NotInError d (some adapter) ctx safe =
      let safe' = safe adapter refl in
      after_fetch-NotInError d adapter (adapter.fetch ctx) safe' (safe'.fetches ctx)

  -- Where every registered adapter falls back and never returns the status `error`, `build_steps`
  -- gives one step for each wanted document, in order, and none has that status.
  pub build_steps-NotInError :
      (adapters : String → Option (SourceAdapter Ctx))
      → ((key : String) (adapter : SourceAdapter Ctx)
          → adapters key ≡ some adapter
          → NeverErrs adapter)
      → (include : Option (List String)) (ctx : Ctx)
      → AreStepsOf repr cut log adapters NotInError
          (filter_by (is_wanted include) residential_docs)
          (build_steps repr cut log adapters include ctx)
  unfolding build_steps
  build_steps-NotInError adapters safe include ctx =
      build_from-AreStepsFrom repr cut log adapters (λ _. Unit) NotInError
        (λ d c i. run_doc-NotInError d (adapters d.key) c (safe d.key)) include residential_docs ctx
        tt
