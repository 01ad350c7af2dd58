-- ===== src/Tests/Pipeline.antt =====
-- Tests of the pipeline: an address that the Census file has, with a parcel that its address contradicts,
-- and sources that cannot be reached.
use researchhub_engine.Prelude.{
  String, ◌≡◌, refl, inl, inr, true, false, none, some, [], ◌∷◌, str_eq, concat,
}
use researchhub_engine.Sources.{SourceException, connection_error}
use researchhub_engine.Sources.Context.{text, Parcel, Context, log}
use researchhub_engine.Sources.Services.{Python, Services}
use researchhub_engine.DocTypes.{lookup, doc_type_to_step}
use researchhub_engine.Models.{FetchedDocument}
use researchhub_engine.Adapters.{Stores}
use researchhub_engine.Adapters.Fetching.{RunArguments, run_arguments, fetch}
use researchhub_engine.Geocoding.{Geo, geocode}
use researchhub_engine.Resolution.{Places, origin, netronline}
use researchhub_engine.Resolution.Phases.{
  resolve_property_context, checked_context, finished_context, is_confirmed, parcel_at, Location,
}
use researchhub_engine.Resolution.Confirmation.{
  IsResolved, IsParcelOf, resolve_property_context-IsResolved,
}
use researchhub_engine.Pipeline.Runner.{run_research}
use researchhub_engine.Pipeline.Runs.{IsRun, run_research-IsRun}
use researchhub_engine.Pipeline.Answers.{IsAnswerOf, pipeline, fetch_answers}
use researchhub_engine.Tests.{order}
use researchhub_engine.Tests.Sources.{env, stores}

-- functions on texts that leave them alone
abbrev pub python : Python
python = record {
  lower = λ s. s;
  upper = λ s. s;
  strip = λ s. s;
  strip_chars = λ chars s. s;
  words = λ s. s ∷ [];
  join = λ words. concat words;
  remove = λ t s. s;
  replace = λ t u s. s;
  substitute = λ pattern u s. s;
  len = λ s. 2;
  is_alpha = λ s. true;
  has_digit = λ s. true;
  has_alpha = λ s. true;
  ends_with = λ end s. false;
  drop_end = λ n s. s;
  occurs = str_eq;
  search = λ pattern s. none;
  split = λ pattern s. s ∷ [];
  thousands = λ s. s;
  repr = λ n. "403";
}

-- no host answers, and nothing is saved
abbrev services : Services
services = record {
  save_parcel_record = λ folder p meta. inr none;
  save_appraiser_record = λ folder attrs meta url. inr none;
  save_flood_map = λ folder lat lon f meta. inr none;
  save_flood_report = λ folder f meta map_file. inr none;
  download_ngs_datasheets = λ folder marks limit. inr [];
  flood = λ lat lon fips. inl connection_error;
  benchmarks = λ lat lon. inl connection_error;
  appraiser_available = λ fips. true;
  fetch_appraisal = λ fips pid. inl connection_error;
  has_adapter = λ fips. true;
  fetch_documents = λ fips plat deed. inl connection_error;
  payload_text = λ p. "{}";
}

-- the parcel of the neighbour
abbrev neighbour : Parcel
neighbour = record {
  method = "arcgis-rest";
  parcels = (("parcelid", text "12-34") ∷ []) ∷ [];
  buffered_match = false;
  address_match = some false;
  source = none;
  layer_name = none;
  situs = "125 Main St";
  land_sqft = some "7500.0";
  land_acres = none;
  hints = ("subdivision", "Lake Park") ∷ [];
  error = none;
}

abbrev census_hit : String → Geo
census_hit address = record {
  matched_address = address;
  lat = some "28.5";
  lon = some "-81.4";
  county_name = "Orange";
  county_fips = "12095";
  state_fips = "12";
  provider = "census";
}

abbrev places : Places
places = record {
  geocoders = record {
    census_address = λ address. inr (some (census_hit address));
    arcgis = λ address. none;
    nominatim = λ address. none;
    county_from_coords = λ lat lon. record { county_name = ""; county_fips = ""; state_fips = "" };
  };
  county_name = λ fips. "Orange";
  lookup = λ fips. none;
  state_appraiser = λ state. none;
  state_deed = λ state. none;
  state_plat = λ state. none;
  platform_label = λ platform. none;
  has_adapter = λ fips. true;
  resolve = λ fips state county lat lon address. inr neighbour;
  resolve_by_id = λ state pid fips. inr none;
  float = λ s. some s;
  save_json = λ folder filename. ("digest", "now");
  jobs_dir = "jobs";
}

abbrev as_written : String → String
as_written s = s

abbrev text_of : SourceException → String
text_of e = "unreachable"

abbrev deed_arguments : RunArguments
deed_arguments =
    run_arguments env
      (pipeline python as_written as_written as_written "now" text_of services places) order
      ("deed" ∷ [])

abbrev location : Location python places
location = record {
  address = "123 Main St";
  geo = census_hit "123 Main St";
  lat = "28.5";
  lon = "-81.4";
  state = "FL";
  county = "Orange";
  appraiser_url = "https://publicrecords.netronline.com/state/FL/county/Orange";
}

-- what the look-up finds: a parcel that is not confirmed
abbrev found : Context
found = checked_context python places "" deed_arguments location neighbour

found_deed : resolve_property_context python places "" deed_arguments ≡ inr found
unfolding resolve_property_context origin geocode parcel_at netronline
found_deed = refl

resolve_property_context-IsResolved_example :
    IsResolved found × IsParcelOf python places deed_arguments found
resolve_property_context-IsResolved_example =
    resolve_property_context-IsResolved python places "" deed_arguments found found_deed

not_confirmed : found.parcel_ok ≡ false
unfolding checked_context is_confirmed finished_context log
not_confirmed = refl

run_research-IsRun_example :
    IsRun (some ("deed" ∷ [])) (resolve_property_context python places "" deed_arguments) (
      run_research python as_written as_written as_written "now" text_of services places ""
        (some ("deed" ∷ []))
        deed_arguments)
run_research-IsRun_example =
    run_research-IsRun python as_written as_written as_written "now" text_of services places ""
      (some ("deed" ∷ [])) deed_arguments

deed_known : lookup "DEED_SUBJECT_PARCEL" doc_type_to_step ≡ some "deed"
unfolding lookup
deed_known = refl

fetch_answers_example :
    (doc : FetchedDocument) × (s' : Stores) × (fetch env
        (pipeline python as_written as_written as_written "now" text_of services places)
        (some order)
        ("DEED_SUBJECT_PARCEL" ∷ [])
        (some 2)
        stores
      ≡ (inr (("DEED_SUBJECT_PARCEL", doc) ∷ []), s'))
    × IsAnswerOf env 7
        (some 2)
        "DEED_SUBJECT_PARCEL"
        "deed"
        (pipeline python as_written as_written as_written "now" text_of services places
          deed_arguments)
        stores
        (doc, s')
fetch_answers_example =
    fetch_answers python as_written as_written as_written "now" text_of services places env order
      "DEED_SUBJECT_PARCEL" "deed" (some 2) stores found deed_known found_deed
