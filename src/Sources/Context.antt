-- ===== src/Sources/Context.antt =====
-- What the adapters of backend/app/engine/orchestration/sources.py read: `PropertyContext` of
-- backend/app/engine/orchestration/context.py, as `resolve_property_context` returns it, and the dicts
-- of backend/app/services in it, each a record of the keys that are read. A key that holds None counts
-- as one that is missing. A number is the text that prints it; the clerk's documents, cached on the
-- context, are a column of it.
use researchhub_engine.Prelude.{
  String, Bool, ◌||◌, Option, none, List, [], ◌∷◌, ◌++◌, str_eq, contains, if◌then◌else◌,
}
use researchhub_engine.Sources.{ManifestEntry}

-- a value of a parcel's attributes
pub data Value : Type 0 where
  null : Value
  text : String → Value
  number : String → Value

-- a number that is 0
abbrev pub is_zero : String → Bool
is_zero n = str_eq n "0" || str_eq n "0.0"

abbrev pub Attributes : Type 0
Attributes = List (String × Value)

-- the dict of `parcel.resolve`
pub record Parcel : Type 0 where
  pub method : String
  pub parcels : List Attributes
  pub buffered_match : Bool
  pub address_match : Option Bool
  pub source : Option String
  pub layer_name : Option String
  pub situs : String
  pub land_sqft : Option String
  pub land_acres : Option String
  pub hints : List (String × String)
  pub error : Option String

-- the dict of `appraiser.fetch`
pub record Appraisal : Type 0 where
  pub doc : Option String
  pub docs : List String
  pub plat_book : Option String
  pub plat_page : Option String

abbrev pub no_appraisal : Appraisal
no_appraisal = record { doc = none; docs = []; plat_book = none; plat_page = none }

-- the dict of `clerk.references`
pub record ClerkReferences : Type 0 where
  pub county : String
  pub platform : String
  pub platform_label : String
  pub official_records_search : String
  pub plat_search : String
  pub appraiser_url : Option String
  pub directory_url : String
  pub clerk_note : String
  pub search_hints : List (String × String)
  pub automation_status : String

-- the dict of `clerk_scraper.fetch_documents`
pub record ClerkDocs : Type 0 where
  pub deed : Option String
  pub plat : Option String
  pub deed_ref : Option String

abbrev pub no_docs : ClerkDocs
no_docs = record { deed = none; plat = none; deed_ref = none }

-- `WarningBag`
unfoldable pub add_warning : String → List String → List String
add_warning message items =
    if str_eq message "" || contains message items then items else items ++ message ∷ []

pub record Context : Type 0 where
  pub address : String
  pub matched_address : String
  pub lat : String
  pub lon : String
  pub state : String
  pub state_fips : String
  pub county : String
  pub county_fips : String
  pub geocoder : String
  pub parcel : Parcel
  pub parcel_ok : Bool
  pub parcel_id : String
  pub parcel_hints : List (String × String)
  pub appraiser_url : String
  pub clerk_ref : ClerkReferences
  pub job_number : String
  pub order : String
  pub name : String
  pub folder : String
  pub survey_type : String
  pub appr : Option Appraisal
  pub clerk_docs : Option ClerkDocs
  pub warnings : List String
  pub manifest : List ManifestEntry

-- the properties `situs`, `land_sqft` and `land_acres`, which only a confirmed parcel has
unfoldable pub situs : Context → String
situs ctx = if ctx.parcel_ok then ctx.parcel.situs else ""

unfoldable pub land_sqft : Context → Option String
land_sqft ctx = if ctx.parcel_ok then ctx.parcel.land_sqft else none

unfoldable pub land_acres : Context → Option String
land_acres ctx = if ctx.parcel_ok then ctx.parcel.land_acres else none

-- `doc_meta`, for the headers of reports
pub record DocMeta : Type 0 where
  pub parcel_id : String
  pub matched_address : String
  pub county : String
  pub state : String
  pub situs : String
  pub land_sqft : Option String
  pub land_acres : Option String

unfoldable pub doc_meta : Context → DocMeta
unfolding situs land_sqft land_acres
doc_meta ctx = record {
  parcel_id = ctx.parcel_id;
  matched_address = ctx.matched_address;
  county = ctx.county;
  state = ctx.state;
  situs = situs ctx;
  land_sqft = land_sqft ctx;
  land_acres = land_acres ctx;
}

unfoldable pub log : ManifestEntry → Context → Context
log entry ctx = record ctx { manifest = ctx.manifest ++ entry ∷ [] }
