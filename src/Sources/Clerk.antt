-- ===== src/Sources/Clerk.antt =====
-- The adapters of backend/app/engine/orchestration/sources.py for the documents of the county clerk,
-- with the scrape that they share.
use researchhub_engine.Prelude.{
  String, ◌⊎◌, inl, inr, ◌&&◌, Option, none, some, List, [], ◌∷◌, map, str_eq, if◌then◌else◌,
  is_none, or_else, concat,
}
use researchhub_engine.Contracts.{StepStatus, Confidence}
use researchhub_engine.Sources.{FetchedSource, fetched_source, SourceException, SourceAdapter}
use researchhub_engine.Sources.Context.{Attributes, no_appraisal, ClerkDocs, no_docs, Context}
use researchhub_engine.Sources.Services.{Python, Services, PlatRequest, DeedRequest, clerk_data}
use researchhub_engine.Sources.Legal.{
  is_full, has_text, document_entry, attr, plat_request, deed_request,
}

-- an exception becomes a default
abbrev pub or_default {ℓ} : {A : Type ℓ} → A → SourceException ⊎ A → A
or_default d (inl e) = d
or_default d (inr a) = a

abbrev pub first_parcel : List Attributes → Option Attributes
first_parcel [] = none
first_parcel (attrs ∷ _) = some attrs

unfoldable pub clerk_url : Context → String → String
clerk_url ctx doc_key =
    if str_eq doc_key "plat"
    then ctx.clerk_ref.plat_search
    else ctx.clerk_ref.official_records_search

abbrev pub first_four : List String → List String
first_four (a ∷ b ∷ c ∷ d ∷ _) = a ∷ b ∷ c ∷ d ∷ []
first_four xs = xs

-- `", ".join(xs)`
abbrev pub comma_join : List String → String
comma_join [] = ""
comma_join (x ∷ []) = x
comma_join (x ∷ y ∷ xs) = concat (x ∷ ", " ∷ comma_join (y ∷ xs) ∷ [])

unfoldable pub hint_str : Context → String
hint_str ctx = comma_join (first_four (map (λ (h : String × String). h.0) ctx.parcel_hints))

-- a name that is there and not empty
abbrev pub file_of : Option String → Option String
file_of name = if has_text name then name else none

abbrev pub deed_label : String
deed_label = "Deed — subject parcel"

unfoldable pub deed_link_summary : Context → String
unfolding hint_str
deed_link_summary ctx = elim ctx.parcel_hints [
  | [] ↦ concat ("Open Clerk Official Records — " ∷ deed_label ∷ [])
  | _ ∷ _ ↦
      concat ("Open Clerk Official Records — " ∷ deed_label ∷ "  ·  hints: " ∷ hint_str ctx ∷ [])
]

abbrev pub plat_label : String
plat_label = "Recorded plat / subdivision map"

abbrev pub plat_link_summary : String
plat_link_summary = "Open Clerk Official Records — Recorded plat / subdivision map"

module _ (python : Python) (services : Services) where
  -- the appraiser's record, where it was not fetched yet
  unfoldable pub with_appraisal : Context → Context
  with_appraisal ctx =
      if services.appraiser_available ctx.county_fips && is_full ctx.parcel_id && is_none ctx.appr
      then record ctx {
        appr =
            some (or_default no_appraisal (services.fetch_appraisal ctx.county_fips ctx.parcel_id));
      }
      else ctx

  -- the call of the scraper, where there is something to ask for
  abbrev pub ask_clerk : String → Option PlatRequest → Option DeedRequest → ClerkDocs
  ask_clerk county_fips none none = no_docs
  ask_clerk county_fips plat deed =
      or_default no_docs (services.fetch_documents county_fips plat deed)

  abbrev pub scrape_parcel : Context → Option Attributes → ClerkDocs
  scrape_parcel ctx none = no_docs
  scrape_parcel ctx (some attrs) =
      let legal = attr python attrs ("slegal" ∷ "legal" ∷ []) in
      ask_clerk ctx.county_fips (plat_request python legal (or_else ctx.appr no_appraisal))
        (deed_request python attrs legal)

  -- what one scrape finds: nothing, unless the parcel is confirmed and the county has an adapter
  unfoldable pub clerk_documents : Context → ClerkDocs
  unfolding attr plat_request deed_request
  clerk_documents ctx =
      if ctx.parcel_ok && services.has_adapter ctx.county_fips
      then scrape_parcel ctx (first_parcel ctx.parcel.parcels)
      else no_docs

  abbrev pub scraped : Context → ClerkDocs × Context
  scraped ctx = (clerk_documents ctx, record ctx { clerk_docs = some (clerk_documents ctx) })

  abbrev pub scrape_or_cached : Context → Option ClerkDocs → ClerkDocs × Context
  scrape_or_cached ctx (some docs) = (docs, ctx)
  scrape_or_cached ctx none = scraped (with_appraisal ctx)

  -- `_scrape_documents`
  unfoldable pub scrape_documents : Context → ClerkDocs × Context
  unfolding with_appraisal clerk_documents
  scrape_documents ctx = scrape_or_cached ctx ctx.clerk_docs

  -- a source of the clerk, with the file that was fetched, if one was
  unfoldable pub clerk_source : Context → String → String → String → Option String → FetchedSource
  unfolding clerk_url
  clerk_source ctx doc_key label summary file =
      let url = clerk_url ctx doc_key in
      record fetched_source {
        status = StepStatus.ok;
        payload = some (services.payload_text (clerk_data ctx.clerk_ref));
        summary = summary;
        link = url;
        link_label = concat ("Open Clerk Official Records — " ∷ label ∷ []);
        source_url = url;
        saved_file = some "clerk_search_refs.json";
        downloaded = elim file [ none ↦ [] | some f ↦ f ∷ [] ];
        records = elim file [ none ↦ [] | some f ↦ document_entry f url ∷ [] ];
        confidence = elim file [ none ↦ none | some _ ↦ some Confidence.medium ];
      }

  abbrev pub deed_summary : Context → ClerkDocs → String
  deed_summary ctx docs =
      if has_text docs.deed
      then python.strip (
          concat (
            "Auto-fetched deed "
            ∷ or_else docs.deed_ref ""
            ∷ " — verify grantee & legal match the subject parcel"
            ∷ []))
      else deed_link_summary ctx

  abbrev pub deed_source : ClerkDocs × Context → (SourceException ⊎ FetchedSource) × Context
  deed_source (docs, ctx) =
      (inr (clerk_source ctx "deed" deed_label (deed_summary ctx docs) (file_of docs.deed)), ctx)

  unfoldable pub deed_adapter : SourceAdapter Context
  unfolding scrape_documents clerk_source deed_link_summary
  deed_adapter = record {
    fetch = λ ctx. deed_source (scrape_documents ctx);
    fallback = λ ctx. (
      inr (record (clerk_source ctx "deed" deed_label (deed_link_summary ctx) none) {
        status = StepStatus.link;
      }),
      ctx,
    );
  }

  abbrev pub plat_source : ClerkDocs × Context → (SourceException ⊎ FetchedSource) × Context
  plat_source (docs, ctx) = (
    inr (
        clerk_source ctx "plat" plat_label
          (if has_text docs.plat
            then "Auto-fetched the recorded plat / subdivision map"
            else plat_link_summary)
          (file_of docs.plat)),
    ctx,
  )

  unfoldable pub plat_adapter : SourceAdapter Context
  unfolding scrape_documents clerk_source
  plat_adapter = record {
    fetch = λ ctx. plat_source (scrape_documents ctx);
    fallback = λ ctx. (
      inr (record (clerk_source ctx "plat" plat_label plat_link_summary none) {
        status = StepStatus.link;
      }),
      ctx,
    );
  }

  -- `fetch` of `_AttemptClerk`; `read` takes the document of the `source_key`
  abbrev pub attempt_source :
      String
      → String
      → (ClerkDocs → Option String)
      → ClerkDocs × Context
      → (SourceException ⊎ FetchedSource) × Context
  attempt_source step_key label read (docs, ctx) = (
    inr (
        clerk_source ctx step_key label
          (if has_text (read docs)
            then concat ("Auto-fetched " ∷ label ∷ " — verify the match" ∷ [])
            else concat ("Open Clerk Official Records — " ∷ label ∷ []))
          none),
    ctx,
  )

  -- `_attempt_clerk_adapter`, whose fallback is its fetch
  unfoldable pub attempt_clerk_adapter :
      String → String → (ClerkDocs → Option String) → SourceAdapter Context
  unfolding scrape_documents clerk_source
  attempt_clerk_adapter step_key label read = record {
    fetch = λ ctx. attempt_source step_key label read (scrape_documents ctx);
    fallback = λ ctx. attempt_source step_key label read (scrape_documents ctx);
  }
