-- ===== src/Sources/Property.antt =====
-- The adapters of backend/app/engine/orchestration/sources.py for the parcel's own record and for that
-- of the property appraiser.
use researchhub_engine.Prelude.{
  String, inr, Bool, true, false, ◌&&◌, not, Option, none, some, List, [], ◌∷◌, ◌++◌, str_eq,
  if◌then◌else◌, or_else, contains, concat,
}
use researchhub_engine.Contracts.{StepStatus}
use researchhub_engine.Sources.{ManifestEntry, FetchedSource, fetched_source, SourceAdapter}
use researchhub_engine.Sources.Context.{
  is_zero, Attributes, Parcel, Appraisal, no_appraisal, Context, doc_meta,
}
use researchhub_engine.Sources.Services.{Python, Services, parcel_data, attributes_data}
use researchhub_engine.Sources.Legal.{is_full, has_text, document_entry}
use researchhub_engine.Sources.Clerk.{or_default, first_parcel, file_of}

-- the truth of a list, and of a number that may be missing
abbrev pub is_nonempty {ℓ} : {A : Type ℓ} → List A → Bool
is_nonempty [] = false
is_nonempty (_ ∷ _) = true

abbrev pub is_nonzero : Option String → Bool
is_nonzero none = false
is_nonzero (some n) = not (is_zero n)

-- `p.get("source") or ctx.appraiser_url`
abbrev pub full_source : Context → String
full_source ctx =
    if has_text ctx.parcel.source
    then or_else ctx.parcel.source ctx.appraiser_url
    else ctx.appraiser_url

-- `parcel.summarize`
unfoldable pub summarize_parcel : Parcel → String
summarize_parcel p =
    if str_eq p.method "arcgis-rest"
    then concat (
        "parcel record via "
        ∷ (if has_text p.layer_name then or_else p.layer_name "" else "ArcGIS")
        ∷ [])
    else "No parcel API - directory link provided"

-- the check of `ParcelAdapter.fetch`
unfoldable pub is_confident : Context → Bool
is_confident ctx =
    ctx.parcel_ok && str_eq ctx.parcel.method "arcgis-rest" && is_nonempty ctx.parcel.parcels

unfoldable pub parcel_link : Context → FetchedSource
parcel_link ctx = record fetched_source {
  status = StepStatus.link;
  summary =
      "Parcel record not found for this address — open the County Property Appraiser to look it up.";
  link = ctx.appraiser_url;
  link_label = "Open County Property Appraiser";
  source_url = ctx.appraiser_url;
  saved_file = some "parcel.json";
}

-- the source where there is no confident match, flagged where there is a buffered one
unfoldable pub unmatched_parcel : Context → FetchedSource
unfolding parcel_link
unmatched_parcel ctx =
    if is_nonempty ctx.parcel.parcels && ctx.parcel.buffered_match
    then record (parcel_link ctx) {
      manual_review = true;
      summary = "Parcel found via a buffered match — review the boundary and ID before using.";
      source_url = full_source ctx;
      warnings =
          "Parcel matched with a 40 m buffer and no address confirmation — verify the parcel boundary and ID before relying on this data."
          ∷ [];
    }
    else parcel_link ctx

-- the files of one that may be missing, and its entry of the manifest
abbrev pub files_of : Option String → List String
files_of none = []
files_of (some fn) = fn ∷ []

abbrev pub entries_of : Option String → String → List ManifestEntry
entries_of none source = []
entries_of (some fn) source = document_entry fn source ∷ []

-- the files that the appraiser's record names: the document, then the others, each once
abbrev pub add_new : List String → List String → List String
add_new files [] = files
add_new files (extra ∷ extras) =
    add_new (if contains extra files then files else files ++ extra ∷ []) extras

unfoldable pub appraisal_files : Appraisal → List String
appraisal_files appr = add_new (files_of (file_of appr.doc)) appr.docs

abbrev pub entries_for : List String → String → List ManifestEntry
entries_for [] source = []
entries_for (fn ∷ files) source = document_entry fn source ∷ entries_for files source

unfoldable pub appraiser_link : Context → FetchedSource
appraiser_link ctx = record fetched_source {
  status = StepStatus.link;
  summary = "Open the County Property Appraiser";
  link = ctx.appraiser_url;
  link_label = "Open County Property Appraiser";
  source_url = ctx.appraiser_url;
}

-- `got`, with the parcel
unfoldable pub confirmed_parcel : Context → Option Attributes
confirmed_parcel ctx = if ctx.parcel_ok then first_parcel ctx.parcel.parcels else none

module _ (python : Python) (services : Services) where
  -- `area_txt`
  unfoldable pub area_text : Parcel → String
  area_text p =
      if is_nonzero p.land_sqft
      then concat (
          " · Lot "
          ∷ python.thousands (or_else p.land_sqft "")
          ∷ " sq ft"
          ∷ (if is_nonzero p.land_acres
              then concat (" (" ∷ or_else p.land_acres "" ∷ " ac)" ∷ [])
              else "")
          ∷ [])
      else ""

  -- what was saved of the parcel, if anything
  abbrev pub saved_parcel : Context → Option String
  saved_parcel ctx =
      file_of (or_default none (services.save_parcel_record ctx.folder ctx.parcel (doc_meta ctx)))

  unfoldable pub matched_parcel : Context → FetchedSource
  unfolding doc_meta area_text summarize_parcel
  matched_parcel ctx = record fetched_source {
    status = StepStatus.ok;
    payload = some (services.payload_text (parcel_data ctx.parcel));
    summary = concat (
        (if is_full ctx.parcel_id
          then concat ("Parcel ID: " ∷ ctx.parcel_id ∷ [])
          else summarize_parcel ctx.parcel)
        ∷ area_text ctx.parcel
        ∷ []);
    link = ctx.appraiser_url;
    link_label = "Open County Property Appraiser";
    source_url = full_source ctx;
    saved_file = some "parcel.json";
    downloaded = files_of (saved_parcel ctx);
    records = entries_of (saved_parcel ctx) (or_else ctx.parcel.source ctx.appraiser_url);
    situs = some ctx.parcel.situs;
    land_sqft = ctx.parcel.land_sqft;
    land_acres = ctx.parcel.land_acres;
    address_match = some true;
  }

  unfoldable pub parcel_adapter : SourceAdapter Context
  unfolding is_confident matched_parcel unmatched_parcel parcel_link
  parcel_adapter = record {
    fetch =
        λ ctx. (inr (if is_confident ctx then matched_parcel ctx else unmatched_parcel ctx), ctx);
    fallback = λ ctx. (inr (parcel_link ctx), ctx);
  }

  abbrev pub save_appraiser : Context → Attributes → Option String
  save_appraiser ctx attrs = file_of (
      or_default none
        (services.save_appraiser_record ctx.folder attrs (doc_meta ctx) ctx.appraiser_url))

  -- the record of a confirmed parcel, saved
  abbrev pub saved_record : Context → Option Attributes → Option String
  saved_record ctx none = none
  saved_record ctx (some attrs) = save_appraiser ctx attrs

  -- the source, by the first parcel where it is confirmed
  unfoldable pub appraiser_source : Context → Appraisal → Option Attributes → FetchedSource
  unfolding doc_meta appraisal_files appraiser_link
  appraiser_source ctx appr none = record (appraiser_link ctx) {
    downloaded = appraisal_files appr;
    records = entries_for (appraisal_files appr) ctx.appraiser_url;
  }
  appraiser_source ctx appr (some attrs) =
      let saved = save_appraiser ctx attrs in
      let files = appraisal_files appr ++ files_of saved in
      record (appraiser_link ctx) {
        status = StepStatus.ok;
        payload = some (services.payload_text (attributes_data attrs));
        summary =
            if has_text appr.doc
            then "Official Property Record Card (county appraiser)"
            else "Owner, values & last sale from the county tax roll";
        downloaded = files;
        saved_file = if is_nonempty files then some "parcel.json" else none;
        records = entries_for files ctx.appraiser_url;
      }

  unfoldable pub appraiser_adapter : SourceAdapter Context
  unfolding appraiser_source confirmed_parcel appraiser_link
  appraiser_adapter = record {
    fetch = λ ctx.
        (inr (appraiser_source ctx (or_else ctx.appr no_appraisal) (confirmed_parcel ctx)), ctx);
    fallback = λ ctx. (inr (appraiser_link ctx), ctx);
  }
