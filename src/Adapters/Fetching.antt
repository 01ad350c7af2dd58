-- ===== src/Adapters/Fetching.antt =====
-- `fetch` of `build_document_fetcher` in backend/app/engine/adapters.py. `run_research` is an argument:
-- a run of the pipeline raises, with a text, or returns its result.
use researchhub_engine.Prelude.{
  String, ◌⊎◌, inl, inr, Bool, true, false, Option, none, some, List, [], ◌∷◌, str_eq,
  if◌then◌else◌, contains,
}
use researchhub_engine.Contracts.{SourceOutcome, ErrorInfo, StepResult, ResearchResult}
use researchhub_engine.Models.{Uuid, OrderData, FetchedDocument}
use researchhub_engine.DocTypes.{step_to_doc_type, doc_type_to_step, lookup}
use researchhub_engine.Adapters.{
  map_step_status, error_code_for, Environment, Stores, Stored, upload_artifact,
}
use researchhub_engine.Service.{is_uploaded}

-- the arguments of `run_research`
pub record RunArguments : Type 0 where
  pub address : String
  pub survey_type : String
  pub include : List String
  pub selected_state : String
  pub selected_county_fips : String
  pub order_number : String
  pub search_parcel_id : String

-- `x or d`, for an optional text, where "" is falsy
abbrev pub full_or : Option String → String → String
full_or none d = d
full_or (some x) d = if str_eq x "" then d else x

abbrev pub cons_known : Option String → List String → List String
cons_known none steps = steps
cons_known (some step) steps = step ∷ steps

unfoldable pub include_steps : List String → List String
include_steps [] = []
include_steps (d ∷ ds) = cons_known (lookup d doc_type_to_step) (include_steps ds)

-- the document of a step, before its error is copied
abbrev pub plain_document : String → StepResult → FetchedDocument
plain_document doc_type step = record {
  doc_type = doc_type;
  status = map_step_status step.status;
  summary = step.summary;
  link = step.link;
  link_label = step.link_label;
  file_key = none;
  file_name = none;
  file_size = none;
  sha256 = "";
  mime_type = none;
  file_id = none;
  order_file_id = none;
  provenance = step.provenance;
  warnings = step.warnings;
  error_code = none;
  error_message = none;
  retryable = true;
}

abbrev pub copy_error : SourceOutcome → Option ErrorInfo → FetchedDocument → FetchedDocument
copy_error outcome none doc = doc
copy_error outcome (some error) doc = record doc {
  error_code = some (error_code_for outcome error.code);
  error_message = some (if str_eq error.message "" then error.code else error.message);
  retryable = error.retryable;
}

unfoldable pub document_of : String → StepResult → FetchedDocument
unfolding map_step_status error_code_for
document_of doc_type step = copy_error step.source_outcome step.error (plain_document doc_type step)

-- `out[doc_type] = doc`
unfoldable pub put :
    String → FetchedDocument → List (String × FetchedDocument) → List (String × FetchedDocument)
put k doc [] = (k, doc) ∷ []
put k doc ((j, d) ∷ out) =
    let rest = put k doc out in if str_eq k j then (j, doc) ∷ out else (j, d) ∷ rest

module _ (env : Environment) (order_id : Uuid) (tenant_id : Option Uuid) where
  abbrev pub upload_if :
      Bool → FetchedDocument → List String → Option String → Stores → FetchedDocument × Stores
  upload_if true doc downloaded docs_dir s =
      upload_artifact env doc downloaded docs_dir order_id tenant_id s
  upload_if false doc downloaded docs_dir s = (doc, s)

  unfoldable pub fetch_step :
      String → Option String → StepResult → Stores → FetchedDocument × Stores
  unfolding document_of upload_artifact
  fetch_step doc_type docs_dir step s =
      upload_if (is_uploaded (map_step_status step.status)) (document_of doc_type step)
        step.downloaded docs_dir s

  module _ (doc_types : List String) (docs_dir : Option String) where
    -- a step whose type, if it has one, was not requested is passed over
    abbrev pub requested_type : Option String → Option String
    requested_type none = none
    requested_type (some t) = if contains t doc_types then some t else none

    abbrev pub collect_step :
        StepResult
        → Option String
        → List (String × FetchedDocument)
        → Stores
        → List (String × FetchedDocument) × Stores
    collect_step step none out s = (out, s)
    collect_step step (some t) out s = let r = fetch_step t docs_dir step s in (put t r.0 out, r.1)

    unfoldable pub collect_steps :
        List StepResult
        → List (String × FetchedDocument)
        → Stores
        → List (String × FetchedDocument) × Stores
    unfolding fetch_step put
    collect_steps [] out s = (out, s)
    collect_steps (step ∷ steps) out s =
        let r = collect_step step (requested_type (lookup step.key step_to_doc_type)) out s in
        collect_steps steps r.0 r.1

module _ (env : Environment) (run_research : RunArguments → String ⊎ ResearchResult) where
  abbrev pub run_arguments : OrderData → List String → RunArguments
  run_arguments order include = record {
    address = order.address_line_1;
    survey_type = full_or order.survey_type "Residential Land Survey";
    include = include;
    selected_state = full_or order.state "";
    selected_county_fips = full_or order.county "";
    order_number = env.text_of order.id;
    search_parcel_id = full_or order.parcel_id "";
  }

  abbrev pub after_run :
      Uuid
      → List String
      → Option Uuid
      → Stores
      → String ⊎ ResearchResult
      → Stored (List (String × FetchedDocument))
  after_run order_id doc_types tenant_id s (inl e) = (inl e, s)
  after_run order_id doc_types tenant_id s (inr result) =
      let r = collect_steps env order_id tenant_id doc_types result.docs_dir result.steps [] s in
      (inr r.0, r.1)

  -- the fetch for the steps to include; without an order, reading its address raises
  abbrev pub fetch_included :
      List String
      → Option OrderData
      → List String
      → Option Uuid
      → Stores
      → Stored (List (String × FetchedDocument))
  fetch_included [] order doc_types tenant_id s = (inr [], s)
  fetch_included (_ ∷ _) none doc_types tenant_id s =
      (inl "'NoneType' object has no attribute 'address_line_1'", s)
  fetch_included (step ∷ steps) (some order) doc_types tenant_id s =
      after_run order.id doc_types tenant_id s (run_research (run_arguments order (step ∷ steps)))

  unfoldable pub fetch :
      Option OrderData
      → List String
      → Option Uuid
      → Stores
      → Stored (List (String × FetchedDocument))
  unfolding include_steps collect_steps
  fetch order doc_types tenant_id s =
      fetch_included (include_steps doc_types) order doc_types tenant_id s
