-- ===== src/Pipeline/Quiet.antt =====
-- What the adapters of backend/app/engine/orchestration/sources.py do where the parcel is not confirmed:
-- the ones that are asked by parcel bring nothing, and none confirms the parcel.
use researchhub_engine.Prelude.{
  String, ◌≡◌, refl, ◌⊎◌, inl, inr, Bool, false, ◌&&◌, ◌||◌, Option, none, List, [], str_eq, All,
  Bool-cases,
}
use researchhub_engine.Sources.{FetchedSource, SourceException, SourceAdapter}
use researchhub_engine.Sources.Context.{Context, ClerkDocs}
use researchhub_engine.Sources.Services.{Python, Services, Flood, Benchmarks}
use researchhub_engine.Sources.Clerk.{
  deed_adapter, plat_adapter, attempt_clerk_adapter, clerk_source,
}
use researchhub_engine.Sources.Property.{
  parcel_adapter, appraiser_adapter, is_confident, unmatched_parcel, parcel_link, appraiser_link,
  appraiser_source, appraisal_files, confirmed_parcel, is_nonempty,
}
use researchhub_engine.Sources.Federal.{
  flood_adapter, ngs_adapter, glo_adapter, zoning_adapter, link_only, on_flood, on_benchmarks,
}
use researchhub_engine.Sources.Registry.{adapters}
use researchhub_engine.Steps.Assembly.{FallsBack}
use researchhub_engine.Pipeline.Unconfirmed.{IsUnconfirmed, scrape_documents_lem}

-- a source that is asked by the location, not by the parcel
abbrev pub is_by_location : String → Bool
is_by_location key = str_eq key "flood" || str_eq key "benchmarks"

-- No file, and nothing that only a confirmed parcel has.
pub record IsBare (downloaded : List String) (situs land_sqft land_acres : Option String)
    (address_match : Option Bool) : Type 0 where
  pub no_file : downloaded ≡ []
  pub no_situs : situs ≡ none
  pub no_sqft : land_sqft ≡ none
  pub no_acres : land_acres ≡ none
  pub no_match : address_match ≡ none

abbrev pub IsBareSource : FetchedSource → Type 0
IsBareSource fs = IsBare fs.downloaded fs.situs fs.land_sqft fs.land_acres fs.address_match

pub bare : IsBare [] none none none none
bare = record { no_file = refl; no_situs = refl; no_sqft = refl; no_acres = refl; no_match = refl }

-- What an adapter did leaves the parcel unconfirmed; a source of one asked by the parcel is bare.
abbrev pub IsQuiet : String → (SourceException ⊎ FetchedSource) × Context → Type 0
IsQuiet key (inl e, ctx) = IsUnconfirmed ctx
IsQuiet key (inr fs, ctx) = IsUnconfirmed ctx × (is_by_location key ≡ false → IsBareSource fs)

pub record StaysQuiet (key : String) (adapter : SourceAdapter Context) : Type 0 where
  pub falls : FallsBack adapter
  pub fetches : (ctx : Context) → IsUnconfirmed ctx → IsQuiet key (adapter.fetch ctx)
  pub fallbacks : (ctx : Context) → IsUnconfirmed ctx → IsQuiet key (adapter.fallback ctx)

link_only-StaysQuiet :
    (key : String) (source : Context → FetchedSource)
    → ((ctx : Context) → IsBareSource (source ctx))
    → StaysQuiet key (link_only source)
unfolding link_only
link_only-StaysQuiet key source h = record {
  falls = λ ctx. (_, _, refl);
  fetches = λ ctx u. (u, λ k. h ctx);
  fallbacks = λ ctx u. (u, λ k. h ctx);
}

unmatched_parcel-bare : (ctx : Context) → IsBareSource (unmatched_parcel ctx)
unfolding unmatched_parcel parcel_link
unmatched_parcel-bare ctx =
    elim (Bool-cases (is_nonempty ctx.parcel.parcels && ctx.parcel.buffered_match)) [
      | inl e ↦ rw e bare
      | inr e ↦ rw e bare
    ]

is_confident_lem : (ctx : Context) → IsUnconfirmed ctx → is_confident ctx ≡ false
unfolding is_confident
is_confident_lem ctx u = rw u.unconfirmed refl

module _ (python : Python) (services : Services) where
  parcel-StaysQuiet : StaysQuiet "parcel" (parcel_adapter python services)
  unfolding parcel_adapter parcel_link
  parcel-StaysQuiet = record {
    falls = λ ctx. (_, _, refl);
    fetches = λ ctx u. (u, λ k. rw (is_confident_lem ctx u) (unmatched_parcel-bare ctx));
    fallbacks = λ ctx u. (u, λ k. bare);
  }

  appraiser-StaysQuiet : StaysQuiet "appraiser" (appraiser_adapter python services)
  unfolding appraiser_adapter appraiser_source appraiser_link appraisal_files confirmed_parcel
  appraiser-StaysQuiet = record {
    falls = λ ctx. (_, _, refl);
    fetches = λ ctx u. (u, λ k. rw (u.unconfirmed, u.no_record) bare);
    fallbacks = λ ctx u. (u, λ k. bare);
  }

  deed-StaysQuiet : StaysQuiet "deed" (deed_adapter python services)
  unfolding deed_adapter clerk_source
  deed-StaysQuiet = record {
    falls = λ ctx. (_, _, refl);
    fetches = λ ctx u.
        let (ctx', e, u') = scrape_documents_lem python services ctx u in rw e (u', λ k. bare);
    fallbacks = λ ctx u. (u, λ k. bare);
  }

  plat-StaysQuiet : StaysQuiet "plat" (plat_adapter python services)
  unfolding plat_adapter clerk_source
  plat-StaysQuiet = record {
    falls = λ ctx. (_, _, refl);
    fetches = λ ctx u.
        let (ctx', e, u') = scrape_documents_lem python services ctx u in rw e (u', λ k. bare);
    fallbacks = λ ctx u. (u, λ k. bare);
  }

  attempt-StaysQuiet :
      (key l : String) (read : ClerkDocs → Option String)
      → StaysQuiet key (attempt_clerk_adapter python services key l read)
  unfolding attempt_clerk_adapter clerk_source
  attempt-StaysQuiet key l read = record {
    falls = λ ctx. (_, _, refl);
    fetches = λ ctx u.
        let (ctx', e, u') = scrape_documents_lem python services ctx u in rw e (u', λ k. bare);
    fallbacks = λ ctx u.
        let (ctx', e, u') = scrape_documents_lem python services ctx u in rw e (u', λ k. bare);
  }

  flood-StaysQuiet : StaysQuiet "flood" (flood_adapter python services)
  unfolding flood_adapter
  flood-StaysQuiet = record {
    falls = λ ctx. (_, _, refl);
    fetches = λ ctx u. fetched ctx u (services.flood ctx.lat ctx.lon ctx.county_fips);
    fallbacks = λ ctx u. (u, cc);
  }
    where
      fetched :
          (ctx : Context)
          → IsUnconfirmed ctx
          → (r : SourceException ⊎ Flood) → IsQuiet "flood" (on_flood python services ctx r)
      fetched ctx u (inl e) = u
      fetched ctx u (inr f) = (u, cc)

  ngs-StaysQuiet : StaysQuiet "benchmarks" (ngs_adapter python services)
  unfolding ngs_adapter
  ngs-StaysQuiet = record {
    falls = λ ctx. (_, _, refl);
    fetches = λ ctx u. fetched ctx u (services.benchmarks ctx.lat ctx.lon);
    fallbacks = λ ctx u. (u, cc);
  }
    where
      fetched :
          (ctx : Context)
          → IsUnconfirmed ctx
          → (r : SourceException ⊎ Benchmarks)
          → IsQuiet "benchmarks" (on_benchmarks python services ctx r)
      fetched ctx u (inl e) = u
      fetched ctx u (inr b) = (u, cc)

  pub adapters-StayQuiet :
      All (λ (e : String × SourceAdapter Context). StaysQuiet e.0 e.1) (adapters python services)
  unfolding adapters glo_adapter zoning_adapter
  adapters-StayQuiet = (
    parcel-StaysQuiet,
    (
      appraiser-StaysQuiet,
      (
        deed-StaysQuiet,
        (
          plat-StaysQuiet,
          (
            attempt-StaysQuiet _ _ _,
            (
              attempt-StaysQuiet _ _ _,
              (
                attempt-StaysQuiet _ _ _,
                (
                  attempt-StaysQuiet _ _ _,
                  (
                    flood-StaysQuiet,
                    (
                      ngs-StaysQuiet,
                      (
                        link_only-StaysQuiet _ _ (λ ctx. bare),
                        (link_only-StaysQuiet _ _ (λ ctx. bare), tt),
                      ),
                    ),
                  ),
                ),
              ),
            ),
          ),
        ),
      ),
    ),
  )
