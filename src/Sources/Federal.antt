-- ===== src/Sources/Federal.antt =====
-- The adapters of backend/app/engine/orchestration/sources.py for the federal sources and for zoning,
-- with the summaries of backend/app/services/fema.py and ngs.py.
use researchhub_engine.Prelude.{
  String, ◌⊎◌, inl, inr, Option, none, some, List, [], ◌∷◌, ◌++◌, str_eq, if◌then◌else◌, or_else,
  concat, length, ◌==◌,
}
use researchhub_engine.Contracts.{StepStatus}
use researchhub_engine.Sources.{FetchedSource, fetched_source, SourceException, SourceAdapter}
use researchhub_engine.Sources.Context.{Context, doc_meta}
use researchhub_engine.Sources.Services.{
  Python, Services, Flood, Benchmarks, flood_data, benchmarks_data,
}
use researchhub_engine.Sources.Legal.{is_full, has_text}
use researchhub_engine.Sources.Clerk.{or_default, file_of}
use researchhub_engine.Sources.Property.{is_nonempty, files_of, entries_of, entries_for}

abbrev pub msc_home : String
msc_home = "https://msc.fema.gov/portal/home"

abbrev pub nfhl : String
nfhl = "https://hazards.fema.gov/arcgis/rest/services/public/NFHL/MapServer"

abbrev pub radial : String
radial = "https://geodesy.noaa.gov/api/nde/radial"

abbrev pub glo_records : String
glo_records = "https://glorecords.blm.gov/"

-- `fema.summarize`
unfoldable pub summarize_flood : Flood → String
summarize_flood f =
    let sfha = if str_eq (or_else f.in_sfha "") "T" then "SFHA" else "not in SFHA" in
    concat (
      "Zone "
      ∷ (if has_text f.flood_zone then or_else f.flood_zone "" else "unknown")
      ∷ " ("
      ∷ sfha
      ∷ "), FIRM panel "
      ∷ (if has_text f.firm_panel then or_else f.firm_panel "" else "?")
      ∷ ", BFE "
      ∷ f.static_bfe
      ∷ [])

-- the map is shown itself where there is no report
abbrev pub report_or_map : Option String → Option String → List String
report_or_map (some fn) map_file = fn ∷ []
report_or_map none map_file = files_of map_file

abbrev pub flood_summary : Flood → Option String → String
flood_summary f map_file = if has_text f.flood_zone then summarize_flood f else elim map_file [
  | some _ ↦ "Not in a mapped SFHA polygon (Zone X) — see flood map excerpt, parcel at center"
  | none ↦ "No NFHL polygon here — open the FIRM directly"
]

abbrev pub flood_status : Flood → Option String → StepStatus
flood_status f (some _) = StepStatus.ok
flood_status f none = if has_text f.flood_zone then StepStatus.ok else StepStatus.link

module _ (python : Python) (services : Services) where
  -- `ngs.summarize`
  unfoldable pub summarize_benchmarks : Benchmarks → String
  summarize_benchmarks b =
      concat
        (python.repr b.count ∷ " NGS control marks within " ∷ python.repr b.radius_m ∷ " m" ∷ [])

  abbrev pub flood_map : Context → Flood → Option String
  flood_map ctx f =
      file_of
        (or_default none (services.save_flood_map ctx.folder ctx.lat ctx.lon f (doc_meta ctx)))

  -- the report, where there is a zone
  abbrev pub flood_report : Context → Flood → Option String → Option String
  flood_report ctx f map_file =
      if has_text f.flood_zone
      then file_of
          (or_default none (services.save_flood_report ctx.folder f (doc_meta ctx) map_file))
      else none

  -- what is made of the answer of the flood service
  unfoldable pub flood_source : Context → Flood → FetchedSource
  unfolding summarize_flood doc_meta
  flood_source ctx f =
      let map_file = flood_map ctx f in
      let report = flood_report ctx f map_file in
      record fetched_source {
        status = flood_status f map_file;
        payload = some (services.payload_text (flood_data f));
        summary = flood_summary f map_file;
        link = msc_home;
        link_label = "Open FEMA Map Service Center (FIRMette)";
        source_url = nfhl;
        saved_file = some "flood_zone.json";
        downloaded = report_or_map report map_file;
        records = entries_of map_file nfhl ++ entries_of report nfhl;
      }

  abbrev pub on_flood :
      Context → SourceException ⊎ Flood → (SourceException ⊎ FetchedSource) × Context
  on_flood ctx (inl e) = (inl e, ctx)
  on_flood ctx (inr f) = (inr (flood_source ctx f), ctx)

  unfoldable pub flood_adapter : SourceAdapter Context
  unfolding flood_source
  flood_adapter = record {
    fetch = λ ctx. on_flood ctx (services.flood ctx.lat ctx.lon ctx.county_fips);
    fallback = λ ctx. (
      inr (record fetched_source {
        status = StepStatus.link;
        summary = "Couldn't reach FEMA NFHL from this network — open the FIRM directly";
        link = msc_home;
        link_label = "Open FEMA Map Service Center (FIRMette)";
        source_url = nfhl;
        saved_file = some "flood_zone.json";
      }),
      ctx,
    );
  }

  abbrev pub datasheets : Context → Benchmarks → List String
  datasheets ctx b = or_default [] (services.download_ngs_datasheets ctx.folder b.marks 3)

  unfoldable pub benchmarks_source : Context → Benchmarks → FetchedSource
  unfolding summarize_benchmarks
  benchmarks_source ctx b =
      let files = datasheets ctx b in
      record fetched_source {
        status = if b.count == 0 then StepStatus.empty else StepStatus.ok;
        payload = some (services.payload_text (benchmarks_data b));
        summary =
            if is_nonempty files
            then concat (
                summarize_benchmarks b
                ∷ "  ·  downloaded "
                ∷ python.repr (length files)
                ∷ " datasheet(s)"
                ∷ [])
            else summarize_benchmarks b;
        link = "https://geodesy.noaa.gov/";
        link_label = "Open NGS datasheets";
        source_url = radial;
        saved_file = some "benchmarks.json";
        downloaded = files;
        records = entries_for files radial;
      }

  abbrev pub on_benchmarks :
      Context → SourceException ⊎ Benchmarks → (SourceException ⊎ FetchedSource) × Context
  on_benchmarks ctx (inl e) = (inl e, ctx)
  on_benchmarks ctx (inr b) = (inr (benchmarks_source ctx b), ctx)

  unfoldable pub ngs_adapter : SourceAdapter Context
  unfolding benchmarks_source
  ngs_adapter = record {
    fetch = λ ctx. on_benchmarks ctx (services.benchmarks ctx.lat ctx.lon);
    fallback = λ ctx. (
      inr (record fetched_source {
        status = StepStatus.link;
        summary = "Couldn't reach NGS — open the datasheets directly";
        link = "https://geodesy.noaa.gov/";
        link_label = "Open NGS datasheets";
        source_url = radial;
        saved_file = some "benchmarks.json";
      }),
      ctx,
    );
  }

-- An adapter that only links: its fallback is its fetch.
unfoldable pub link_only : (Context → FetchedSource) → SourceAdapter Context
link_only source = record {
  fetch = λ ctx. (inr (source ctx), ctx);
  fallback = λ ctx. (inr (source ctx), ctx);
}

unfoldable pub glo_adapter : SourceAdapter Context
unfolding link_only
glo_adapter = link_only λ ctx. record fetched_source {
  status = StepStatus.link;
  link = glo_records;
  link_label = "Open BLM GLO Records";
  source_url = glo_records;
}

-- the first of the links that is not empty
abbrev pub zoning_url : Context → String
zoning_url ctx =
    if is_full ctx.appraiser_url
    then ctx.appraiser_url
    else if has_text ctx.clerk_ref.appraiser_url
    then or_else ctx.clerk_ref.appraiser_url ""
    else ctx.clerk_ref.directory_url

unfoldable pub zoning_adapter : SourceAdapter Context
unfolding link_only
zoning_adapter = link_only λ ctx. record fetched_source {
  status = StepStatus.link;
  summary = "Zoning / setback ordinance — search the county zoning/GIS portal";
  link = zoning_url ctx;
  link_label = "Open County Zoning / GIS Portal";
  source_url = if is_full (zoning_url ctx) then zoning_url ctx else "County zoning / GIS portal";
}
