-- ===== src/Tests/Parcels.antt =====
-- Tests of the choice of a parcel.
use researchhub_engine.Prelude.{◌≡◌, refl, inr, true, none, some, [], ◌∷◌}
use researchhub_engine.Sources.Context.{Attributes, text}
use researchhub_engine.Sources.Services.{Python}
use researchhub_engine.Resolution.Phases.{is_confirmed}
use researchhub_engine.Parcels.Situs.{norm, has_street, situs_of}
use researchhub_engine.Parcels.Matching.{house, street_tokens, addr_match}
use researchhub_engine.Parcels.Choice.{
  Layers, StateService, choose, candidates, finish, layer_parcel, state_parcel, resolve,
}
use researchhub_engine.Parcels.Confidence.{resolve-addr_match}
use mathlib.Core.Path.{subst}
use researchhub_engine.Prelude.{concat, str_eq, if◌then◌else◌, false}
use researchhub_engine.Parcels.Identifiers.{
  Feature, Answers, IdService, parcel_of, services_for, resolve_by_id,
}
use researchhub_engine.Parcels.Lookups.{IsLookup, resolve_by_id-IsLookup}
use researchhub_engine.Tests.Pipeline.{python}

-- every address has the house number 123
abbrev numbered : Python
numbered = record python { search = λ pattern s. some (some "123" ∷ []) }

abbrev candidate : Attributes
candidate = ("situsaddress", text "123 Main St") ∷ []

abbrev statewide : StateService
statewide = record {
  label = "Statewide";
  id_fields = [];
  urls = "https://gis.example/parcels" ∷ [];
  related = none;
}

abbrev layers : Layers
layers = record {
  county = λ fips. none;
  state = λ state_abbr. some statewide;
  layer = λ service. inr none;
  point_query = λ url lat lon distance. inr (candidate ∷ []);
  land_area = λ attrs. (none, none);
}

confirmed :
    is_confirmed (resolve numbered layers "28.5" "-81.4" "123 Main Street" "12095" "FL") ≡ true
unfolding is_confirmed resolve state_parcel layer_parcel finish candidates choose situs_of norm
    has_street addr_match house street_tokens
confirmed = refl

resolve-addr_match_example :
    let p = resolve numbered layers "28.5" "-81.4" "123 Main Street" "12095" "FL" in
    addr_match numbered "123 Main Street" p.situs ≡ some true
resolve-addr_match_example =
    resolve-addr_match numbered layers "28.5" "-81.4" "123 Main Street" refl "12095" "FL"
      (λ county h. cc) (λ state h. let same : statewide ≡ state = cc in rw (← same) refl) confirmed

-- a layer that has the parcel under one of its fields, written without the dash
abbrev parcel_row : Feature
parcel_row = record {
  attributes = ("parcelno", text "1234") ∷ candidate;
  geometry = some (record { point = none; centre = none; rings = (("-81.4", "28.5") ∷ []) ∷ [] });
}

abbrev answers : Answers
answers = record {
  field_names = λ url. inr ("situs" ∷ "parcelno" ∷ []);
  ask =
      λ url predicate. if str_eq predicate "parcelno='1234'" then inr (parcel_row ∷ []) else inr [];
  is_digits = λ s. false;
  mean = λ floats. concat floats;
}

-- texts in which a pattern is found, and that lose a dash
abbrev dashed : Python
dashed = record numbered { substitute = λ pattern u s. if str_eq s "12-34" then "1234" else s }

abbrev service_of : StateService → IdService
service_of svc = record {
  layer_url = "https://gis.example/parcels";
  label = svc.label;
  id_fields = svc.id_fields;
  situs_fn = λ attrs. situs_of dashed attrs [] false;
  related = svc.related;
}

found_by_id :
    resolve_by_id dashed layers answers "FL" "12-34" ""
    ≡ some (parcel_of dashed layers answers (service_of statewide) parcel_row)
unfolding resolve_by_id
found_by_id = refl

resolve_by_id-IsLookup_example :
    IsLookup dashed layers answers "12-34"
      (services_for dashed layers answers "FL" "")
      (some (parcel_of dashed layers answers (service_of statewide) parcel_row))
resolve_by_id-IsLookup_example =
    subst (IsLookup dashed layers answers "12-34" (services_for dashed layers answers "FL" ""))
      found_by_id (resolve_by_id-IsLookup dashed layers answers "FL" "12-34" "" refl)
