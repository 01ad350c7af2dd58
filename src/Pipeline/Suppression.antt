-- ===== src/Pipeline/Suppression.antt =====
-- For a parcel that is not confirmed, the pipeline of backend/app/engine/orchestration takes nothing
-- from the sources that are asked by parcel: only those asked by location, flood and benchmarks, may
-- bring files.
use researchhub_engine.Prelude.{
  String, ◌≡◌, refl, ◌⊎◌, inl, inr, Bool, true, false, Option, none, some, List, [], ◌∷◌, filter_by,
  str_eq, if◌then◌else◌, All, Bool-cases, eq_iff,
}
use researchhub_engine.Contracts.{StepResult}
use researchhub_engine.Sources.{
  ManifestEntry, FetchedSource, SourceException, SourceAdapter, Classified, source_error, any_other,
  http_error, connection_error,
}
use researchhub_engine.Sources.Context.{Context, log}
use researchhub_engine.Sources.Services.{Python, Services}
use researchhub_engine.Sources.Registry.{Registry, adapter_for, adapters}
use researchhub_engine.Reference.{DocSpec, residential_docs}
use researchhub_engine.Steps.{
  is_wanted, log_all, assemble, after_source_error, after_exception, after_fetch, run_one, run_doc,
  build_steps,
}
use researchhub_engine.Steps.Assembly.{IsStepFrom, AreStepsFrom, build_from-AreStepsFrom}
use researchhub_engine.Pipeline.{research_steps}
use researchhub_engine.Pipeline.Unconfirmed.{IsUnconfirmed, log-IsUnconfirmed}
use researchhub_engine.Pipeline.Quiet.{
  is_by_location, IsBare, bare, IsQuiet, StaysQuiet, adapters-StayQuiet,
}

-- A step is of a source that is asked by the location, or bare.
abbrev pub IsSuppressed : StepResult → Type 0
IsSuppressed step =
    (is_by_location step.key ≡ true)
    ⊎ IsBare step.downloaded step.situs step.land_sqft step.land_acres step.address_match

by_location_or :
    {X : Type 0} (key : String) → (is_by_location key ≡ false → X) → (is_by_location key ≡ true) ⊎ X
by_location_or key h = elim (Bool-cases (is_by_location key)) [ inl e ↦ inl e | inr e ↦ inr (h e) ]

adapter_for-StaysQuiet :
    (registry : Registry) (key : String) (adapter : SourceAdapter Context)
    → All (λ (e : String × SourceAdapter Context). StaysQuiet e.0 e.1) registry
    → adapter_for registry key ≡ some adapter
    → StaysQuiet key adapter
unfolding adapter_for
adapter_for-StaysQuiet [] key adapter h e = cc
adapter_for-StaysQuiet ((k, a) ∷ registry) key adapter h e =
    go (str_eq key k) refl (adapter_for-StaysQuiet registry key adapter h.1) e
  where
    go :
        (b : Bool)
        → str_eq key k ≡ b
        → (adapter_for registry key ≡ some adapter → StaysQuiet key adapter)
        → (if b then some a else adapter_for registry key) ≡ some adapter
        → StaysQuiet key adapter
    go true same rest e =
        let same_adapter : a ≡ adapter = cc in rw (← same_adapter, (eq_iff key k).0 same) h.0
    go false apart rest e = rest e

log_all-IsUnconfirmed :
    (python : Python) (cut : String → String) (entries : List ManifestEntry) (ctx : Context)
    → IsUnconfirmed ctx
    → IsUnconfirmed (log_all python.repr cut log entries ctx)
log_all-IsUnconfirmed python cut [] ctx u = u
log_all-IsUnconfirmed python cut (e ∷ es) ctx u =
    log_all-IsUnconfirmed python cut es (log e ctx) (log-IsUnconfirmed e ctx u)

module _ (python : Python) (cut : String → String) where
  -- the step of a document, suppressed
  abbrev IsStep : DocSpec → (SourceException ⊎ StepResult) × Context → Type 0
  IsStep d r = IsStepFrom python.repr cut log IsUnconfirmed IsSuppressed d r

  after_exception-IsStep :
      (d : DocSpec) (e : Classified) (r : (SourceException ⊎ FetchedSource) × Context)
      → IsQuiet d.key r
      → IsStep d (after_exception python.repr cut log d e r)
  unfolding after_exception assemble
  after_exception-IsStep d e (inl raised, ctx) u = (_, _, refl, refl, inr bare, u)
  after_exception-IsStep d e (inr fs, ctx) (u, h) =
      (_, _, refl, refl, by_location_or d.key h, log_all-IsUnconfirmed python cut fs.records ctx u)

  after_source_error-IsStep :
      (d : DocSpec) (e : Classified) (r : (SourceException ⊎ FetchedSource) × Context)
      (fs : FetchedSource) (ctx : Context)
      → r ≡ (inr fs, ctx)
      → IsQuiet d.key r
      → IsStep d (after_source_error python.repr cut log d e r)
  unfolding after_source_error assemble
  after_source_error-IsStep d e (inl raised, c) fs ctx same u = cc
  after_source_error-IsStep d e (inr f, c) fs ctx same (u, h) =
      (_, _, refl, refl, by_location_or d.key h, log_all-IsUnconfirmed python cut f.records c u)

  after_fetch-IsStep :
      (d : DocSpec) (adapter : SourceAdapter Context)
      (r : (SourceException ⊎ FetchedSource) × Context)
      → StaysQuiet d.key adapter
      → IsQuiet d.key r
      → IsStep d (after_fetch python.repr cut log d adapter r)
  unfolding after_fetch assemble
  after_fetch-IsStep d adapter (inr fs, ctx) safe (u, h) =
      (_, _, refl, refl, by_location_or d.key h, log_all-IsUnconfirmed python cut fs.records ctx u)
  after_fetch-IsStep d adapter (inl (source_error e), ctx) safe u =
      let (fs, ctx', same) = safe.falls ctx in
      after_source_error-IsStep d e (adapter.fallback ctx) fs ctx' same (safe.fallbacks ctx u)
  after_fetch-IsStep d adapter (inl (http_error c), ctx) safe u =
      after_exception-IsStep d _ (adapter.fallback ctx) (safe.fallbacks ctx u)
  after_fetch-IsStep d adapter (inl connection_error, ctx) safe u =
      after_exception-IsStep d _ (adapter.fallback ctx) (safe.fallbacks ctx u)
  after_fetch-IsStep d adapter (inl (any_other e), ctx) safe u =
      after_exception-IsStep d _ (adapter.fallback ctx) (safe.fallbacks ctx u)

  run_doc-IsStep :
      (d : DocSpec) (o : Option (SourceAdapter Context)) (ctx : Context)
      → IsUnconfirmed ctx
      → ((adapter : SourceAdapter Context) → o ≡ some adapter → StaysQuiet d.key adapter)
      → IsStep d (run_doc python.repr cut log d o ctx)
  unfolding run_doc run_one assemble
  run_doc-IsStep d none ctx u safe = (_, _, refl, refl, inr bare, u)
  run_doc-IsStep d (some adapter) ctx u safe =
      let safe' = safe adapter refl in
      after_fetch-IsStep d adapter (adapter.fetch ctx) safe' (safe'.fetches ctx u)

-- For a context that does not confirm its parcel, the pipeline returns a step for each wanted document,
-- and no step but those of flood and benchmarks, which go by the location, has a file to upload, a
-- situs address, a land area or an address match, whatever the services would have answered.
pub research_steps-IsSuppressed :
    (python : Python) (cut : String → String) (services : Services) (include : Option (List String))
    (ctx : Context)
    → IsUnconfirmed ctx
    → AreStepsFrom python.repr cut log
        (adapter_for (adapters python services))
        IsUnconfirmed
        IsSuppressed
        (filter_by (is_wanted include) residential_docs)
        (research_steps python cut services include ctx)
unfolding research_steps build_steps
research_steps-IsSuppressed python cut services include ctx u =
    build_from-AreStepsFrom python.repr cut log (adapter_for (adapters python services))
      IsUnconfirmed IsSuppressed
      (λ d c v.
        run_doc-IsStep python cut d (adapter_for (adapters python services) d.key) c v (λ adapter.
          adapter_for-StaysQuiet (adapters python services) d.key adapter
            (adapters-StayQuiet python services)))
      include residential_docs ctx u
