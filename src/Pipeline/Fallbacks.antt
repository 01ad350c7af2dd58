-- ===== src/Pipeline/Fallbacks.antt =====
-- The registered adapters of backend/app/engine/orchestration/sources.py fall back, and no source of
-- theirs has the status `error`.
use researchhub_engine.Prelude.{
  String, ◌≡◌, ◌≢◌, refl, ◌⊎◌, inl, inr, Bool, true, false, Option, none, some, List, [], ◌∷◌,
  filter_by, str_eq, if◌then◌else◌, All, arith, Bool-cases, or_else, ◌&&◌,
}
use researchhub_engine.Contracts.{StepStatus}
use researchhub_engine.Sources.{FetchedSource, SourceException, SourceAdapter}
use researchhub_engine.Sources.Context.{Attributes, no_appraisal, Context, ClerkDocs, log}
use researchhub_engine.Sources.Services.{Python, Services, Flood, Benchmarks}
use researchhub_engine.Sources.Clerk.{
  deed_adapter, deed_source, plat_adapter, plat_source, attempt_clerk_adapter, attempt_source,
  clerk_source, scrape_documents,
}
use researchhub_engine.Sources.Property.{
  parcel_adapter, appraiser_adapter, matched_parcel, unmatched_parcel, parcel_link, appraiser_link,
  appraiser_source, is_confident, confirmed_parcel, is_nonempty,
}
use researchhub_engine.Sources.Federal.{
  flood_adapter, ngs_adapter, glo_adapter, zoning_adapter, link_only, on_flood, flood_source,
  flood_status, on_benchmarks, benchmarks_source,
}
use researchhub_engine.Sources.Registry.{Registry, adapter_for, adapters}
use researchhub_engine.Reference.{residential_docs}
use researchhub_engine.Steps.{is_wanted}
use researchhub_engine.Steps.Assembly.{AreStepsOf}
use researchhub_engine.Steps.Statuses.{IsClean, NeverErrs, NotInError, build_steps-NotInError}
use researchhub_engine.Pipeline.{research_steps}

pub adapter_for-All :
    (P : SourceAdapter Context → Type 0) (registry : Registry) (key : String)
    (adapter : SourceAdapter Context)
    → All (λ (e : String × SourceAdapter Context). P e.1) registry
    → adapter_for registry key ≡ some adapter
    → P adapter
unfolding adapter_for
adapter_for-All P [] key adapter h e = cc
adapter_for-All P ((k, a) ∷ registry) key adapter h e =
    go (str_eq key k) (adapter_for-All P registry key adapter h.1) e
  where
    go :
        (b : Bool)
        → (adapter_for registry key ≡ some adapter → P adapter)
        → (if b then some a else adapter_for registry key) ≡ some adapter
        → P adapter
    go true rest e = let same : a ≡ adapter = cc in rw (← same) h.0
    go false rest e = rest e

link_only-NeverErrs :
    (source : Context → FetchedSource)
    → ((ctx : Context) → (source ctx).status ≡ StepStatus.link)
    → NeverErrs (link_only source)
unfolding link_only
link_only-NeverErrs source links = record {
  falls = λ ctx. (_, _, refl);
  fetches = λ ctx h. let l = links ctx in cc;
  fallbacks = λ ctx h. let l = links ctx in cc;
}

glo-NeverErrs : NeverErrs glo_adapter
unfolding glo_adapter
glo-NeverErrs = link_only-NeverErrs _ (λ ctx. refl)

zoning-NeverErrs : NeverErrs zoning_adapter
unfolding zoning_adapter
zoning-NeverErrs = link_only-NeverErrs _ (λ ctx. refl)

unmatched-clean : (ctx : Context) → (unmatched_parcel ctx).status ≢ StepStatus.error
unfolding unmatched_parcel parcel_link
unmatched-clean ctx =
    elim (Bool-cases (is_nonempty ctx.parcel.parcels && ctx.parcel.buffered_match)) [
      | inl e ↦ rw e cc
      | inr e ↦ rw e cc
    ]

module _ (python : Python) (services : Services) where
  parcel-NeverErrs : NeverErrs (parcel_adapter python services)
  unfolding parcel_adapter
  parcel-NeverErrs = record {
    falls = λ ctx. (_, _, refl);
    fetches = λ ctx. fetched ctx (is_confident ctx);
    fallbacks = λ ctx. unfold parcel_link in cc;
  }
    where
      fetched :
          (ctx : Context) (b : Bool)
          → (if b then matched_parcel python services ctx else unmatched_parcel ctx).status
            ≢ StepStatus.error
      fetched ctx true = unfold matched_parcel in cc
      fetched ctx false = unmatched-clean ctx

  appraiser-NeverErrs : NeverErrs (appraiser_adapter python services)
  unfolding appraiser_adapter appraiser_source appraiser_link
  appraiser-NeverErrs = record {
    falls = λ ctx. (_, _, refl);
    fetches = λ ctx. fetched ctx (confirmed_parcel ctx);
    fallbacks = λ ctx. cc;
  }
    where
      fetched :
          (ctx : Context) (o : Option Attributes)
          → (appraiser_source python services ctx (or_else ctx.appr no_appraisal) o).status
            ≢ StepStatus.error
      fetched ctx none = cc
      fetched ctx (some attrs) = cc

  deed-NeverErrs : NeverErrs (deed_adapter python services)
  unfolding deed_adapter clerk_source
  deed-NeverErrs = record {
    falls = λ ctx. (_, _, refl);
    fetches = λ ctx. fetched (scrape_documents python services ctx);
    fallbacks = λ ctx. cc;
  }
    where
      fetched : (r : ClerkDocs × Context) → IsClean (deed_source python services r)
      fetched (docs, ctx) = cc

  plat-NeverErrs : NeverErrs (plat_adapter python services)
  unfolding plat_adapter clerk_source
  plat-NeverErrs = record {
    falls = λ ctx. (_, _, refl);
    fetches = λ ctx. fetched (scrape_documents python services ctx);
    fallbacks = λ ctx. cc;
  }
    where
      fetched : (r : ClerkDocs × Context) → IsClean (plat_source python services r)
      fetched (docs, ctx) = cc

  attempt-NeverErrs :
      (k l : String) (read : ClerkDocs → Option String)
      → NeverErrs (attempt_clerk_adapter python services k l read)
  unfolding attempt_clerk_adapter clerk_source
  attempt-NeverErrs k l read = record {
    falls = λ ctx. (_, _, refl);
    fetches = λ ctx. fetched (scrape_documents python services ctx);
    fallbacks = λ ctx. fetched (scrape_documents python services ctx);
  }
    where
      fetched : (r : ClerkDocs × Context) → IsClean (attempt_source python services k l read r)
      fetched (docs, ctx) = cc

  flood-NeverErrs : NeverErrs (flood_adapter python services)
  unfolding flood_adapter flood_source
  flood-NeverErrs = record {
    falls = λ ctx. (_, _, refl);
    fetches = λ ctx. fetched ctx (services.flood ctx.lat ctx.lon ctx.county_fips);
    fallbacks = λ ctx. cc;
  }
    where
      graded : (f : Flood) (map_file : Option String) → flood_status f map_file ≢ StepStatus.error
      graded f (some m) = cc
      graded f none = ground arith

      fetched :
          (ctx : Context) (r : SourceException ⊎ Flood) → IsClean (on_flood python services ctx r)
      fetched ctx (inl e) = tt
      fetched ctx (inr f) = graded f _

  ngs-NeverErrs : NeverErrs (ngs_adapter python services)
  unfolding ngs_adapter benchmarks_source
  ngs-NeverErrs = record {
    falls = λ ctx. (_, _, refl);
    fetches = λ ctx. fetched ctx (services.benchmarks ctx.lat ctx.lon);
    fallbacks = λ ctx. cc;
  }
    where
      fetched :
          (ctx : Context) (r : SourceException ⊎ Benchmarks)
          → IsClean (on_benchmarks python services ctx r)
      fetched ctx (inl e) = tt
      fetched ctx (inr b) = ground arith

  adapters-NeverErrs :
      All (λ (e : String × SourceAdapter Context). NeverErrs e.1) (adapters python services)
  unfolding adapters
  adapters-NeverErrs = (
    parcel-NeverErrs,
    (
      appraiser-NeverErrs,
      (
        deed-NeverErrs,
        (
          plat-NeverErrs,
          (
            attempt-NeverErrs _ _ _,
            (
              attempt-NeverErrs _ _ _,
              (
                attempt-NeverErrs _ _ _,
                (
                  attempt-NeverErrs _ _ _,
                  (flood-NeverErrs, (ngs-NeverErrs, (glo-NeverErrs, (zoning-NeverErrs, tt)))),
                ),
              ),
            ),
          ),
        ),
      ),
    ),
  )

  -- The pipeline with the registered adapters always returns, whatever the services raise: one step
  -- for each wanted document of the reference, in its order, and none with the status `error`.
  pub research_steps-NotInError :
      (cut : String → String) (include : Option (List String)) (ctx : Context)
      → AreStepsOf python.repr cut log
          (adapter_for (adapters python services))
          NotInError
          (filter_by (is_wanted include) residential_docs)
          (research_steps python cut services include ctx)
  unfolding research_steps
  research_steps-NotInError cut include ctx =
      build_steps-NotInError python.repr cut log (adapter_for (adapters python services))
        (λ key adapter.
          adapter_for-All NeverErrs (adapters python services) key adapter adapters-NeverErrs)
        include ctx
