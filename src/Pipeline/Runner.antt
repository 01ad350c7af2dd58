-- ===== src/Pipeline/Runner.antt =====
-- `run_research` of backend/app/engine/orchestration/runner.py. `now_utc` is the time when it ends, `quote`
-- stands for `quote_plus`, `parent` for the folder that holds one, and `text_of` for the text of an
-- exception; the disk takes the manifest and
-- the result.
use researchhub_engine.Prelude.{String, ◌⊎◌, inl, inr, Option, some, List, [], ◌∷◌, concat}
use researchhub_engine.Contracts.{JobState, StepResult, MapLink, ResearchResult}
use researchhub_engine.Sources.{SourceException}
use researchhub_engine.Sources.Context.{Context}
use researchhub_engine.Sources.Services.{Python, Services}
use researchhub_engine.Adapters.Fetching.{RunArguments}
use researchhub_engine.Resolution.{Places, full_else}
use researchhub_engine.Resolution.Phases.{resolve_property_context}
use researchhub_engine.Pipeline.{research_steps}

module _ (quote parent : String → String) where
  abbrev pub map_links : String → Context → List MapLink
  map_links address ctx =
      record {
        label = "Google Maps";
        url =
            concat
              ("https://www.google.com/maps/search/?api=1&query=" ∷ ctx.lat ∷ "," ∷ ctx.lon ∷ []);
      }
      ∷ record {
        label = "Google Street View";
        url = concat (
            "https://www.google.com/maps/@?api=1&map_action=pano&viewpoint=" ∷ ctx.lat ∷ ","
            ∷ ctx.lon ∷ []);
      }
      ∷ record {
        label = "Bing Maps (aerial)";
        url =
            concat
              ("https://www.bing.com/maps?cp=" ∷ ctx.lat ∷ "~" ∷ ctx.lon ∷ "&lvl=19&style=a" ∷ []);
      }
      ∷ record { label = "County Property Appraiser"; url = ctx.appraiser_url }
      ∷ record {
        label = "Search address on Google";
        url = concat (
            "https://www.google.com/search?q="
            ∷ quote (full_else ctx.matched_address address)
            ∷ []);
      }
      ∷ []

  -- the result, by the context that the steps leave
  unfoldable pub result_of : String → String → List StepResult → Context → ResearchResult
  result_of now_utc address steps ctx = record {
    job_number = ctx.job_number;
    order = ctx.order;
    parcel_id = ctx.parcel_id;
    address = ctx.address;
    matched_address = ctx.matched_address;
    county = ctx.county;
    county_fips = ctx.county_fips;
    state = ctx.state;
    lat = ctx.lat;
    lon = ctx.lon;
    name = ctx.name;
    geocoder = ctx.geocoder;
    map_links = map_links address ctx;
    folder = parent ctx.folder;
    steps = steps;
    warnings = ctx.warnings;
    completed_utc = some now_utc;
    job_state = JobState.completed;
    docs_dir = some ctx.folder;
    survey_type = ctx.survey_type;
  }

module _ (python : Python) (cut quote parent : String → String) (now_utc : String)
    (text_of : SourceException → String) (services : Services) (places : Places) where
  abbrev pub after_steps :
      String → (SourceException ⊎ List StepResult) × Context → String ⊎ ResearchResult
  after_steps address (inl e, ctx) = inl (text_of e)
  after_steps address (inr steps, ctx) = inr (result_of quote parent now_utc address steps ctx)

  abbrev pub on_context : Option (List String) → String → String ⊎ Context → String ⊎ ResearchResult
  on_context include address (inl e) = inl e
  on_context include address (inr ctx) =
      after_steps address (research_steps python cut services include ctx)

  unfoldable pub run_research :
      String → Option (List String) → RunArguments → String ⊎ ResearchResult
  unfolding resolve_property_context research_steps result_of
  run_research job_number include args =
      on_context include args.address (resolve_property_context python places job_number args)
