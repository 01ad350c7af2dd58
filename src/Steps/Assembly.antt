-- ===== src/Steps/Assembly.antt =====
-- Which steps `build_steps` of backend/app/engine/orchestration/steps.py assembles, and when a
-- failing source stops it.
use researchhub_engine.Prelude.{
  ℕ, String, ◌≡◌, refl, ◌⊎◌, inl, inr, Bool, true, false, Option, none, some, List, [], ◌∷◌, map,
  filter_by, if◌then◌else◌, All,
}
use researchhub_engine.Contracts.{Confidence, ErrorInfo, StepResult}
use researchhub_engine.Sources.{
  ManifestEntry, FetchedSource, Classified, SourceException, source_error, http_error,
  connection_error, any_other, SourceAdapter,
}
use researchhub_engine.Reference.{DocSpec, residential_docs}
use researchhub_engine.Steps.{
  is_wanted, assemble, after_source_error, after_exception, after_fetch, run_one, run_doc,
  then_steps, build_from, build_steps,
}

-- The fallback of an adapter returns.
abbrev pub FallsBack : {Ctx : Type 0} → SourceAdapter Ctx → Type 0
FallsBack {Ctx} adapter =
    (ctx : Ctx) → (fs : FetchedSource) × (ctx' : Ctx) × (adapter.fallback ctx ≡ (inr fs, ctx'))

-- A step without an error, or one with an error in which nobody has confidence.
abbrev pub IsGraded : StepResult → Type 0
IsGraded step =
    (step.error ≡ none)
    ⊎ ((e : ErrorInfo) × (step.error ≡ some e) × (step.confidence ≡ Confidence.none))

module _ (repr : ℕ → String) (cut : String → String) {Ctx : Type 0}
    (log : ManifestEntry → Ctx → Ctx) where
  -- a step for `d` was assembled; `Q` holds of it, and `I` of the context that is left
  abbrev pub IsStepFrom :
      (Ctx → Type 0)
      → (StepResult → Type 0)
      → DocSpec
      → (SourceException ⊎ StepResult) × Ctx
      → Type 0
  IsStepFrom I Q d r =
      (step : StepResult) × (ctx : Ctx) × (r ≡ (inr step, ctx))
      × (step.key ≡ d.key)
      × Q step
      × I ctx

  -- the same, whatever the context
  abbrev pub IsStepOf :
      (StepResult → Type 0) → DocSpec → (SourceException ⊎ StepResult) × Ctx → Type 0
  IsStepOf Q d r = IsStepFrom (λ _. Unit) Q d r

  after_exception-IsStepOf :
      (d : DocSpec) (e : Classified) (r : (SourceException ⊎ FetchedSource) × Ctx)
      → IsStepOf IsGraded d (after_exception repr cut log d e r)
  unfolding after_exception assemble
  after_exception-IsStepOf d e (inl raised, ctx) = (_, _, refl, refl, inr (_, refl, refl), tt)
  after_exception-IsStepOf d e (inr fs, ctx) = (_, _, refl, refl, inr (_, refl, refl), tt)

  after_source_error-IsStepOf :
      (d : DocSpec) (e : Classified) (fs : FetchedSource) (ctx : Ctx)
      (r : (SourceException ⊎ FetchedSource) × Ctx)
      → r ≡ (inr fs, ctx)
      → IsStepOf IsGraded d (after_source_error repr cut log d e r)
  unfolding after_source_error assemble
  after_source_error-IsStepOf d e fs ctx r h = rw h (_, _, refl, refl, inr (_, refl, refl), tt)

  after_fetch-IsStepOf :
      (d : DocSpec) (adapter : SourceAdapter Ctx) (r : (SourceException ⊎ FetchedSource) × Ctx)
      → FallsBack adapter
      → IsStepOf IsGraded d (after_fetch repr cut log d adapter r)
  unfolding after_fetch assemble
  after_fetch-IsStepOf d adapter (inr fs, ctx) safe = (_, _, refl, refl, inl refl, tt)
  after_fetch-IsStepOf d adapter (inl (source_error e), ctx) safe =
      let (fs, ctx', h) = safe ctx in after_source_error-IsStepOf d e fs ctx' _ h
  after_fetch-IsStepOf d adapter (inl (http_error c), ctx) safe = after_exception-IsStepOf d _ _
  after_fetch-IsStepOf d adapter (inl connection_error, ctx) safe = after_exception-IsStepOf d _ _
  after_fetch-IsStepOf d adapter (inl (any_other e), ctx) safe = after_exception-IsStepOf d _ _

  run_doc-IsStepOf :
      (d : DocSpec) (o : Option (SourceAdapter Ctx)) (ctx : Ctx)
      → ((adapter : SourceAdapter Ctx) → o ≡ some adapter → FallsBack adapter)
      → IsStepOf IsGraded d (run_doc repr cut log d o ctx)
  unfolding run_doc run_one assemble
  run_doc-IsStepOf d none ctx safe = (_, _, refl, refl, inl refl, tt)
  run_doc-IsStepOf d (some adapter) ctx safe =
      after_fetch-IsStepOf d adapter (adapter.fetch ctx) (safe adapter refl)

  module _ (adapters : String → Option (SourceAdapter Ctx)) where
    module _ (I : Ctx → Type 0) (Q : StepResult → Type 0) where
      -- the steps of the documents `ds` that are wanted were assembled, in their order; `Q` holds of
      -- each, and `I` of the context that is left
      abbrev pub AreStepsFrom : List DocSpec → (SourceException ⊎ List StepResult) × Ctx → Type 0
      AreStepsFrom ds r =
          (steps : List StepResult) × (ctx : Ctx) × (r ≡ (inr steps, ctx))
          × (map (λ (s : StepResult). s.key) steps ≡ map (λ (d : DocSpec). d.key) ds)
          × All Q steps
          × I ctx

      then_steps-AreStepsFrom :
          (d : DocSpec) (ds : List DocSpec) (r : (SourceException ⊎ StepResult) × Ctx)
          (rest : Ctx → (SourceException ⊎ List StepResult) × Ctx)
          → IsStepFrom I Q d r
          → ((ctx : Ctx) → I ctx → AreStepsFrom ds (rest ctx))
          → AreStepsFrom (d ∷ ds) (then_steps repr cut log adapters r rest)
      then_steps-AreStepsFrom d ds r rest (step, ctx, h, k, g, i) more =
          let (steps, ctx', h', ks, gs, i') = more ctx i in
          (step ∷ steps, ctx', rw (h, h') refl, rw (k, ks) refl, (g, gs), i')

      pub build_from-AreStepsFrom :
          ((d : DocSpec) (ctx : Ctx)
            → I ctx
            → IsStepFrom I Q d (run_doc repr cut log d (adapters d.key) ctx))
          → (include : Option (List String)) (ds : List DocSpec) (ctx : Ctx) → I ctx
          → AreStepsFrom
              (filter_by (is_wanted include) ds)
              (build_from repr cut log adapters include ds ctx)
      unfolding build_from
      build_from-AreStepsFrom each include [] ctx i = ([], ctx, refl, refl, tt, i)
      build_from-AreStepsFrom each include (d ∷ ds) ctx i =
          go (is_wanted include d) (build_from-AreStepsFrom each include ds)
        where
          go :
              (b : Bool)
              → ((c : Ctx)
                  → I c
                  → AreStepsFrom
                      (filter_by (is_wanted include) ds)
                      (build_from repr cut log adapters include ds c))
              → AreStepsFrom
                  (if b
                    then d ∷ filter_by (is_wanted include) ds
                    else filter_by (is_wanted include) ds)
                  (if b
                    then then_steps repr cut log adapters
                        (run_doc repr cut log d (adapters d.key) ctx)
                        (build_from repr cut log adapters include ds)
                    else build_from repr cut log adapters include ds ctx)
          go true more = then_steps-AreStepsFrom d _ _ _ (each d ctx i) more
          go false more = more ctx i

    -- the same, whatever the context
    abbrev pub AreStepsOf :
        (StepResult → Type 0) → List DocSpec → (SourceException ⊎ List StepResult) × Ctx → Type 0
    AreStepsOf Q ds r = AreStepsFrom (λ _. Unit) Q ds r

    -- Where every registered adapter's fallback returns, `build_steps` returns, whatever the fetches
    -- raise: one step for each wanted document of the reference, in the order of the reference, and
    -- a step with an error carries the confidence `none`.
    pub build_steps-AreStepsOf :
        ((key : String) (adapter : SourceAdapter Ctx)
          → adapters key ≡ some adapter
          → FallsBack adapter)
        → (include : Option (List String)) (ctx : Ctx)
        → AreStepsOf IsGraded
            (filter_by (is_wanted include) residential_docs)
            (build_steps repr cut log adapters include ctx)
    unfolding build_steps
    build_steps-AreStepsOf safe include ctx =
        build_from-AreStepsFrom (λ _. Unit) IsGraded
          (λ d c i. run_doc-IsStepOf d (adapters d.key) c (safe d.key)) include residential_docs ctx
          tt
