-- ===== src/Tests/Sources.antt =====
-- Tests of the steps of a run and of the document fetcher.
use researchhub_engine.Prelude.{
  ℕ, String, ◌≡◌, refl, ◌⊎◌, inl, inr, Bool, true, false, Option, none, some, List, [], ◌∷◌,
  filter_by, str_eq, if◌then◌else◌, All,
}
use researchhub_engine.Contracts.{
  StepStatus, SourceOutcome, Confidence, JobState, StepResult, ResearchResult,
}
use researchhub_engine.Schemas.{ResearchDocStatus}
use researchhub_engine.DocTypes.{lookup}
use researchhub_engine.Models.{FetchedDocument}
use researchhub_engine.Sources.{ManifestEntry, fetched_source, http_error, SourceAdapter}
use researchhub_engine.Reference.{residential_docs}
use researchhub_engine.Steps.{is_wanted, build_steps}
use researchhub_engine.Steps.Assembly.{FallsBack, IsGraded, AreStepsOf, build_steps-AreStepsOf}
use researchhub_engine.Adapters.{
  Environment, Stores, Stored, map_step_status, guess_mime, build_key, create_evidence,
  store_artifact, upload_file, upload_artifact,
}
use researchhub_engine.Adapters.Uploads.{KeepsBlobs, IsUploadEnd, upload_artifact-end}
use researchhub_engine.Adapters.Fetching.{
  RunArguments, include_steps, document_of, put, fetch_step, collect_steps, fetch,
}
use researchhub_engine.Adapters.Results.{IsAnswer, fetch-IsAnswer}
use researchhub_engine.Tests.{order, fetched_link}

-- every number prints as this text, and texts are short
abbrev repr : ℕ → String
repr n = "403"

abbrev cut : String → String
cut s = s

-- the context of a run is its manifest
abbrev log : ManifestEntry → List ManifestEntry → List ManifestEntry
log entry ctx = entry ∷ ctx

-- A deed adapter whose source refuses.
abbrev refusing : SourceAdapter (List ManifestEntry)
refusing = record {
  fetch = λ ctx. (inl (http_error (some 403)), ctx);
  fallback = λ ctx. (inr fetched_source, ctx);
}

abbrev deed_only : String → Option (SourceAdapter (List ManifestEntry))
deed_only key = if str_eq key "deed" then some refusing else none

deed_only-FallsBack :
    (key : String) (adapter : SourceAdapter (List ManifestEntry))
    → deed_only key ≡ some adapter
    → FallsBack adapter
deed_only-FallsBack key adapter = go (str_eq key "deed")
  where
    go :
        (b : Bool)
        → ◌≡◌ {A = Option (SourceAdapter (List ManifestEntry))}
            (if b then some refusing else none)
            (some adapter)
        → FallsBack adapter
    go true e = let same : adapter ≡ refusing = cc in rw same (λ ctx. (fetched_source, ctx, refl))
    go false e = cc

build_steps-AreStepsOf_example :
    AreStepsOf repr cut log deed_only IsGraded
      (filter_by (is_wanted (some ("deed" ∷ "zoning" ∷ []))) residential_docs)
      (build_steps repr cut log deed_only (some ("deed" ∷ "zoning" ∷ [])) [])
build_steps-AreStepsOf_example =
    build_steps-AreStepsOf repr cut log deed_only deed_only-FallsBack
      (some ("deed" ∷ "zoning" ∷ [])) []

-- one staged file, and stores that never raise
abbrev pub env : Environment
env = record {
  disk = λ folder name. if str_eq name "deed.pdf" then some "page one" else none;
  size_of = λ content. 8;
  digest = λ content. content;
  safe_ext = λ name. ".pdf";
  lower_suffix = λ name. ".pdf";
  text_of = λ id. "id";
  uuid4 = λ n. n;
  copy_raises = λ key. none;
  evidence_raises = λ key. none;
}

-- a blob of the parcel record is there already
abbrev pub stores : Stores
stores = record {
  blobs = ("id/id/PARCEL_RECORD.pdf", "older") ∷ [];
  files = [];
  order_files = [];
  drawn = 50;
}

abbrev deed_names : List String
deed_names = "lost.pdf" ∷ "deed.pdf" ∷ []

upload_artifact-end_example :
    let r =
      upload_artifact env (fetched_link "DEED_SUBJECT_PARCEL") deed_names none 7 (some 2) stores in
    KeepsBlobs stores r.1
    × IsUploadEnd env 7 (some 2) deed_names none (fetched_link "DEED_SUBJECT_PARCEL") stores r
upload_artifact-end_example =
    upload_artifact-end env 7 (some 2) (fetched_link "DEED_SUBJECT_PARCEL") deed_names none stores

abbrev deed_step : StepResult
deed_step = record {
  key = "deed";
  label = "Deed";
  requirement = "mandatory";
  condition = "";
  description = "";
  summary = "Deed downloaded";
  status = StepStatus.ok;
  link = "";
  link_label = "";
  source_url = "";
  saved_file = none;
  payload = none;
  downloaded = deed_names;
  situs = none;
  land_sqft = none;
  land_acres = none;
  address_match = none;
  source_outcome = SourceOutcome.auto;
  confidence = Confidence.high;
  provenance = [];
  warnings = [];
  error = none;
}

abbrev pub run_research : RunArguments → String ⊎ ResearchResult
run_research arguments = inr (record {
  job_number = "";
  order = "id";
  parcel_id = "";
  address = arguments.address;
  matched_address = arguments.address;
  county = "Orange";
  county_fips = "12095";
  state = "FL";
  lat = "28.5";
  lon = "-81.4";
  name = "123 Main St";
  geocoder = "census";
  map_links = [];
  folder = "jobs";
  steps = deed_step ∷ [];
  warnings = [];
  completed_utc = none;
  job_state = JobState.completed;
  docs_dir = some "staging";
  survey_type = arguments.survey_type;
})

abbrev deed_fetch : Stored (List (String × FetchedDocument))
deed_fetch = fetch env run_research (some order) ("DEED_SUBJECT_PARCEL" ∷ []) (some 2) stores

abbrev uploaded_deed : FetchedDocument
uploaded_deed = record {
  doc_type = "DEED_SUBJECT_PARCEL";
  status = ResearchDocStatus.uploaded;
  summary = "Deed downloaded";
  link = "";
  link_label = "";
  file_key = some "id/id/DEED_SUBJECT_PARCEL.pdf";
  file_name = some "deed.pdf";
  file_size = some 8;
  sha256 = "page one";
  mime_type = none;
  file_id = some 50;
  order_file_id = some 51;
  provenance = [];
  warnings = [];
  error_code = none;
  error_message = none;
  retryable = true;
}

abbrev answers : List (String × FetchedDocument)
answers = ("DEED_SUBJECT_PARCEL", uploaded_deed) ∷ []

fetched_deed : deed_fetch ≡ (inr answers, deed_fetch.1)
unfolding fetch include_steps lookup collect_steps fetch_step document_of map_step_status put
    upload_artifact upload_file store_artifact create_evidence build_key guess_mime
fetched_deed = refl

fetch-IsAnswer_example :
    KeepsBlobs stores deed_fetch.1 × All (IsAnswer ("DEED_SUBJECT_PARCEL" ∷ [])) answers
fetch-IsAnswer_example =
    fetch-IsAnswer env run_research (some order) ("DEED_SUBJECT_PARCEL" ∷ []) (some 2) stores
      deed_fetch.1 answers fetched_deed
