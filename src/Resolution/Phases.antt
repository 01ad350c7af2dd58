-- ===== src/Resolution/Phases.antt =====
-- Phases 1b to 3 of `resolve_property_context` in backend/app/engine/orchestration/context.py: from where
-- the run starts to the context of its adapters.
use researchhub_engine.Prelude.{
  String, ◌⊎◌, inl, inr, Bool, true, false, ◌&&◌, not, Option, none, some, List, [], ◌∷◌, str_eq,
  if◌then◌else◌, or_else, concat,
}
use researchhub_engine.Sources.{ManifestEntry}
use researchhub_engine.Sources.Context.{Parcel, no_appraisal, Context, add_warning, log}
use researchhub_engine.Sources.Services.{Python}
use researchhub_engine.Sources.Property.{is_nonempty}
use researchhub_engine.Geocoding.{Geo, state_codes, state_in}
use researchhub_engine.Adapters.Fetching.{RunArguments}
use researchhub_engine.Resolution.{
  Places, full_else, first_full, netronline, find_parcel_id, folder_name, references, Origin,
  origin,
}

-- the parcel of a resolver that raised
abbrev pub failed_parcel : String → Parcel
failed_parcel e = record {
  method = "error";
  parcels = [];
  buffered_match = false;
  address_match = none;
  source = none;
  layer_name = none;
  situs = "";
  land_sqft = none;
  land_acres = none;
  hints = [];
  error = some e;
}

-- `p.get("address_match") is not False`
abbrev pub is_not_false : Option Bool → Bool
is_not_false none = true
is_not_false (some b) = b

-- `parcel_ok`
unfoldable pub is_confirmed : Parcel → Bool
is_confirmed p = is_nonempty p.parcels && is_not_false p.address_match && not p.buffered_match

abbrev pub unconfirmed_warning : String
unconfirmed_warning =
    "Couldn't confirm a parcel matching this address — showing reference links only. Parcel ID, lot area, and deed/plat auto-fetch are skipped to avoid wrong data; use the County Property Appraiser link to look up the parcel."

module _ (python : Python) where
  abbrev pub fallback_warning : String → String
  fallback_warning provider = concat (
      "Address not in the US Census file — matched via "
      ∷ python.upper provider
      ∷ " instead. Please confirm the pinned location on the map is the correct property."
      ∷ [])

  abbrev pub geocoder_warnings : String → List String
  geocoder_warnings provider =
      if str_eq provider "census" then [] else add_warning (fallback_warning provider) []

module _ (python : Python) (places : Places) where
  -- what phase 1b settles: codes, names, the appraiser's link
  pub record Location : Type 0 where
    pub address : String
    pub geo : Geo
    pub lat : String
    pub lon : String
    pub state : String
    pub county : String
    pub appraiser_url : String

  abbrev pub location : Origin python places → String → String → Location
  location o lat lon =
      let state = full_else (state_in o.geo.state_fips state_codes) o.st in
      let county = full_else (places.county_name o.geo.county_fips) o.geo.county_name in
      let entry = places.lookup o.geo.county_fips in
      record {
        address = o.address;
        geo = o.geo;
        lat = lat;
        lon = lon;
        state = state;
        county = county;
        appraiser_url =
            first_full (elim entry [ none ↦ none | some c ↦ c.appraiser_url ])
              (places.state_appraiser state) (netronline python state county);
      }

  abbrev pub unusable : String → Origin python places → String
  unusable what o = concat (
      "Geocoder '" ∷ o.geo.provider ∷ "' returned " ∷ what ∷ " coordinates for '" ∷ o.address ∷ "'."
      ∷ [])

  -- the coordinates, where both are there and are numbers
  abbrev pub with_floats : Origin python places → Option String → Option String → String ⊎ Location
  with_floats o (some lat) (some lon) = inr (location o lat lon)
  with_floats o _ _ = inl (unusable "invalid" o)

  abbrev pub with_coordinates :
      Origin python places → Option String → Option String → String ⊎ Location
  with_coordinates o (some lat) (some lon) = with_floats o (places.float lat) (places.float lon)
  with_coordinates o _ _ = inl (unusable "no usable" o)

  -- Phase 2: the parcel that was found by its identifier, or else what the resolver gives
  abbrev pub resolved_or_failed : String ⊎ Parcel → Parcel
  resolved_or_failed (inl e) = failed_parcel e
  resolved_or_failed (inr p) = p

  unfoldable pub parcel_at : Option Parcel → Location → Parcel
  parcel_at (some p) l = p
  parcel_at none l =
      resolved_or_failed
        (places.resolve l.geo.county_fips l.state l.county l.lat l.lon l.geo.matched_address)

  -- Phase 3: the run's identity and folder, the staged files and the references; `ok` is `parcel_ok`,
  -- `pid` the parcel's identifier and `hints` its hints, both empty where the parcel is suppressed
  abbrev pub staged_file : String → String → String → ManifestEntry
  staged_file folder filename source =
      let written = places.save_json folder filename in
      record {
        source = some source;
        fetched_utc = some written.1;
        file = some filename;
        sha256 = some written.0;
      }

  unfoldable pub finished_context :
      (job_number order_number survey_type : String)
      → Location
      → Parcel
      → Bool
      → String
      → List (String × String)
      → List String
      → Context
  unfolding folder_name references log
  finished_context job_number order_number survey_type l p confirmed pid hints warnings =
      let job_id = full_else pid (python.strip job_number) in
      let name = folder_name python job_id l.address in
      let folder = concat (places.jobs_dir ∷ "/" ∷ name ∷ "/research" ∷ []) in
      let clerk = references python places l.geo.county_fips l.state l.county hints in
      log (staged_file folder "clerk_search_refs.json" clerk.official_records_search) (
        log (staged_file folder "parcel.json" (or_else p.source l.appraiser_url)) (
          log
            (staged_file folder "geocode.json"
              "https://geocoding.geo.census.gov/geocoder/geographies/onelineaddress")
            (record {
              address = l.address;
              matched_address = l.geo.matched_address;
              lat = l.lat;
              lon = l.lon;
              state = l.state;
              state_fips = l.geo.state_fips;
              county = l.county;
              county_fips = l.geo.county_fips;
              geocoder = l.geo.provider;
              parcel = p;
              parcel_ok = confirmed;
              parcel_id = pid;
              parcel_hints = hints;
              appraiser_url = l.appraiser_url;
              clerk_ref = clerk;
              job_number = job_id;
              order = full_else (python.strip order_number) (full_else pid (full_else job_id name));
              name = name;
              folder = folder;
              survey_type = survey_type;
              appr = some no_appraisal;
              clerk_docs = none;
              warnings = warnings;
              manifest = [];
            })))

  -- the check of the parcel, and what a parcel that fails it loses
  unfoldable pub checked_context :
      (job_number : String) → RunArguments → Location → Parcel → Context
  unfolding is_confirmed finished_context find_parcel_id
  checked_context job_number args l p =
      let warnings = geocoder_warnings python l.geo.provider in
      if is_confirmed p
      then finished_context job_number args.order_number args.survey_type l p true
          (find_parcel_id python p.parcels) p.hints warnings
      else finished_context job_number args.order_number args.survey_type l p false "" []
          (add_warning unconfirmed_warning warnings)

  abbrev pub after_location :
      String → RunArguments → Option Parcel → String ⊎ Location → String ⊎ Context
  after_location job_number args preresolved (inl e) = inl e
  after_location job_number args preresolved (inr l) =
      inr (checked_context job_number args l (parcel_at preresolved l))

  abbrev pub after_origin : String → RunArguments → String ⊎ Origin python places → String ⊎ Context
  after_origin job_number args (inl e) = inl e
  after_origin job_number args (inr o) =
      after_location job_number args o.preresolved (with_coordinates o o.geo.lat o.geo.lon)

  unfoldable pub resolve_property_context : String → RunArguments → String ⊎ Context
  unfolding origin checked_context parcel_at
  resolve_property_context job_number args =
      after_origin job_number args (origin python places args)
