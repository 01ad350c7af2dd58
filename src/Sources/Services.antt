-- ===== src/Sources/Services.antt =====
-- What the adapters of backend/app/engine/orchestration/sources.py call: Python's functions on texts
-- and regular expressions, and the modules of backend/app/services that talk to other hosts and write
-- files. A call that may raise gives the exception, or what it returns.
use researchhub_engine.Prelude.{ℕ, String, ◌⊎◌, Bool, Option, List}
use researchhub_engine.Sources.{SourceException}
use researchhub_engine.Sources.Context.{
  Attributes, Parcel, Appraisal, ClerkReferences, ClerkDocs, DocMeta,
}

-- `lower`, `upper` and `strip` of a text, `s.strip(chars)`, `s.split()`, `" ".join(...)`,
-- `s.replace(t, "")` and `s.replace(t, u)` with the text last, `re.sub` with the text last, `len`,
-- `isalpha`, whether a text holds a digit or a letter, `s.endswith(t)` with the text last, `s[:-n]`, whether one occurs in another, `re.search` with IGNORECASE, as
-- the groups of the match from the first on, `re.split`, `f"{int(x):,}"` and the printing of a number.
pub record Python : Type 0 where
  pub lower : String → String
  pub upper : String → String
  pub strip : String → String
  pub strip_chars : String → String → String
  pub words : String → List String
  pub join : List String → String
  pub remove : String → String → String
  pub replace : String → String → String → String
  pub substitute : String → String → String → String
  pub len : String → ℕ
  pub is_alpha : String → Bool
  pub has_digit : String → Bool
  pub has_alpha : String → Bool
  pub ends_with : String → String → Bool
  pub drop_end : ℕ → String → String
  pub occurs : String → String → Bool
  pub search : String → String → Option (List (Option String))
  pub split : String → String → List String
  pub thousands : String → String
  pub repr : ℕ → String

-- the dicts of `fema.flood` and `ngs.benchmarks`
pub record Flood : Type 0 where
  pub flood_zone : Option String
  pub in_sfha : Option String
  pub firm_panel : Option String
  pub static_bfe : String

pub record Benchmarks : Type 0 where
  pub count : ℕ
  pub radius_m : ℕ
  pub marks : List String

-- what is asked of the county clerk
pub record PlatRequest : Type 0 where
  pub book : String
  pub page : Option String
  pub subdivision : String

pub data DeedRequest : Type 0 where
  by_reference : (doc_number book page : String) → DeedRequest
  by_owner : (owner subdivision : String) → DeedRequest

-- the `data` of a source
pub data Payload : Type 0 where
  parcel_data : Parcel → Payload
  attributes_data : Attributes → Payload
  clerk_data : ClerkReferences → Payload
  flood_data : Flood → Payload
  benchmarks_data : Benchmarks → Payload

-- A call that saves a file gives the name of the file, or nothing.
pub record Services : Type 0 where
  pub save_parcel_record : String → Parcel → DocMeta → SourceException ⊎ Option String
  pub save_appraiser_record :
      String → Attributes → DocMeta → String → SourceException ⊎ Option String
  pub save_flood_map : String → String → String → Flood → DocMeta → SourceException ⊎ Option String
  pub save_flood_report : String → Flood → DocMeta → Option String → SourceException ⊎ Option String
  pub download_ngs_datasheets : String → List String → ℕ → SourceException ⊎ List String
  pub flood : (lat lon county_fips : String) → SourceException ⊎ Flood
  pub benchmarks : (lat lon : String) → SourceException ⊎ Benchmarks
  pub appraiser_available : String → Bool
  pub fetch_appraisal : (county_fips parcel_id : String) → SourceException ⊎ Appraisal
  pub has_adapter : String → Bool
  pub fetch_documents :
      String → Option PlatRequest → Option DeedRequest → SourceException ⊎ ClerkDocs
  pub payload_text : Payload → String
