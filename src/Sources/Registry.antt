-- ===== src/Sources/Registry.antt =====
-- `ADAPTERS` and `register_source` of backend/app/engine/orchestration/sources.py: the registry of
-- adapters by step key, as a dict.
use researchhub_engine.Prelude.{String, Option, none, some, List, [], ◌∷◌, str_eq, if◌then◌else◌}
use researchhub_engine.Sources.{SourceAdapter}
use researchhub_engine.Sources.Context.{Context}
use researchhub_engine.Sources.Services.{Python, Services}
use researchhub_engine.Sources.Clerk.{deed_adapter, plat_adapter, attempt_clerk_adapter}
use researchhub_engine.Sources.Property.{parcel_adapter, appraiser_adapter}
use researchhub_engine.Sources.Federal.{flood_adapter, ngs_adapter, glo_adapter, zoning_adapter}

abbrev pub Registry : Type 0
Registry = List (String × SourceAdapter Context)

-- `ADAPTERS.get(key)`
unfoldable pub adapter_for : Registry → String → Option (SourceAdapter Context)
adapter_for [] key = none
adapter_for ((k, adapter) ∷ registry) key =
    if str_eq key k then some adapter else adapter_for registry key

unfoldable pub register_source : String → SourceAdapter Context → Registry → Registry
register_source key adapter [] = (key, adapter) ∷ []
register_source key adapter ((k, a) ∷ registry) =
    let rest = register_source key adapter registry in
    if str_eq key k then (k, adapter) ∷ registry else (k, a) ∷ rest

module _ (python : Python) (services : Services) where
  unfoldable pub adapters : Registry
  adapters =
      ("parcel", parcel_adapter python services)
      ∷ ("appraiser", appraiser_adapter python services)
      ∷ ("deed", deed_adapter python services)
      ∷ ("plat", plat_adapter python services)
      ∷ (
        "adjoiners",
        attempt_clerk_adapter python services "adjoiners" "Deeds — adjoining parcels"
            (λ docs. docs.deed),
      )
      ∷ (
        "easements",
        attempt_clerk_adapter python services "easements" "Easements / ROW / covenants (CC&Rs)"
            (λ docs. docs.deed),
      )
      ∷ (
        "prior_survey",
        attempt_clerk_adapter python services "prior_survey" "Prior recorded surveys"
            (λ docs. docs.deed),
      )
      ∷ (
        "condo",
        attempt_clerk_adapter python services "condo" "Condominium declaration & exhibits"
            (λ docs. docs.plat),
      )
      ∷ ("flood", flood_adapter python services)
      ∷ ("benchmarks", ngs_adapter python services)
      ∷ ("glo", glo_adapter)
      ∷ ("zoning", zoning_adapter)
      ∷ []
