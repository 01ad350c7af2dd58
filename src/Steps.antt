-- ===== src/Steps.antt =====
-- backend/app/engine/orchestration/steps.py. The context of a run is an argument `Ctx`, which the
-- adapters and `ctx.log` change; `adapters` is the registry. A call may raise, and the context comes
-- back then too.
pub mod Assembly
pub mod Statuses
use researchhub_engine.Prelude.{
  ℕ, String, ◌⊎◌, inl, inr, Bool, true, false, Option, none, some, List, [], ◌∷◌, map, contains,
  str_eq, if◌then◌else◌, or_else, any_by,
}
use researchhub_engine.Contracts.{
  StepStatus, SourceOutcome, Confidence, ErrorInfo, ProvenanceRecord, StepResult,
}
use researchhub_engine.Sources.{
  ManifestEntry, FetchedSource, fetched_source, Classified, SourceException, source_error,
  SourceAdapter, classify_exception,
}
use researchhub_engine.Reference.{DocSpec, residential_docs}

unfoldable pub outcome_for : FetchedSource → SourceOutcome
outcome_for fs = if fs.manual_review then SourceOutcome.manual_review else elim fs.status [
  | StepStatus.ok ↦ SourceOutcome.auto
  | StepStatus.empty ↦ SourceOutcome.auto
  | _ ↦ SourceOutcome.link_only
]

unfoldable pub default_confidence : StepStatus → Bool → Confidence
default_confidence status true = Confidence.low
default_confidence StepStatus.ok false = Confidence.high
default_confidence StepStatus.empty false = Confidence.medium
default_confidence _ false = Confidence.low

unfoldable pub code_for : SourceOutcome → String
code_for SourceOutcome.blocked = "SOURCE_BLOCKED"
code_for SourceOutcome.broken = "SOURCE_BROKEN"
code_for SourceOutcome.retryable = "SOURCE_UNREACHABLE"
code_for SourceOutcome.link_only = "LINK_ONLY"
code_for SourceOutcome.auto = "AUTO"
code_for SourceOutcome.manual_review = "MANUAL_REVIEW"

-- the defaults of `ProvenanceRecord` are an attempt of 1 and no fallback chain
unfoldable pub provenance_from : ManifestEntry → ProvenanceRecord
provenance_from entry = record {
  source_id = or_else entry.source "";
  provider = or_else entry.source "";
  url = or_else entry.source "";
  retrieved_utc = or_else entry.fetched_utc "";
  attempt = 1;
  fallback_chain = [];
  file = entry.file;
  sha256 = entry.sha256;
}

-- `a or b`, for texts
abbrev pub text_or : String → String → String
text_or a b = if str_eq a "" then b else a

unfoldable pub step_of :
    DocSpec → FetchedSource → SourceOutcome → Option ErrorInfo → Confidence → StepResult
unfolding provenance_from
step_of d fs outcome error confidence = record {
  key = d.key;
  label = d.label;
  requirement = d.requirement;
  condition = or_else d.condition "";
  description = or_else d.description "";
  summary = fs.summary;
  status = fs.status;
  link = fs.link;
  link_label = fs.link_label;
  source_url = fs.source_url;
  saved_file = fs.saved_file;
  payload = fs.payload;
  downloaded = fs.downloaded;
  situs = fs.situs;
  land_sqft = fs.land_sqft;
  land_acres = fs.land_acres;
  address_match = fs.address_match;
  source_outcome = outcome;
  confidence = confidence;
  provenance = map provenance_from fs.records;
  warnings = fs.warnings;
  error = error;
}

-- the error of a `SourceError`, and that of any other exception
abbrev pub source_error_info : Classified → ErrorInfo
source_error_info e = record {
  code = text_or e.code (code_for e.outcome);
  message = e.message;
  retryable = e.retryable;
}

abbrev pub error_info : Classified → ErrorInfo
error_info e = record { code = e.code; message = e.message; retryable = e.retryable }

abbrev pub unreachable : FetchedSource
unreachable = record fetched_source { summary = "Couldn't reach this source." }

-- `d["key"] in wanted`, where there is a filter
abbrev pub is_wanted : Option (List String) → DocSpec → Bool
is_wanted none d = true
is_wanted (some include) d = contains d.key include

module _ (repr : ℕ → String) (cut : String → String) {Ctx : Type 0}
    (log : ManifestEntry → Ctx → Ctx) where
  abbrev pub log_all : List ManifestEntry → Ctx → Ctx
  log_all [] ctx = ctx
  log_all (entry ∷ entries) ctx = log_all entries (log entry ctx)

  unfoldable pub assemble :
      DocSpec
      → FetchedSource
      → SourceOutcome
      → Option ErrorInfo
      → Confidence
      → Ctx
      → StepResult × Ctx
  unfolding step_of
  assemble d fs outcome error confidence ctx =
      (step_of d fs outcome error confidence, log_all fs.records ctx)

  abbrev pub returned : StepResult × Ctx → (SourceException ⊎ StepResult) × Ctx
  returned (step, ctx) = (inr step, ctx)

  -- the fallback of a `SourceError`, which is called unguarded
  unfoldable pub after_source_error :
      DocSpec
      → Classified
      → (SourceException ⊎ FetchedSource) × Ctx
      → (SourceException ⊎ StepResult) × Ctx
  unfolding assemble code_for
  after_source_error d e (inl raised, ctx) = (inl raised, ctx)
  after_source_error d e (inr fs, ctx) =
      returned (assemble d fs e.outcome (some (source_error_info e)) Confidence.none ctx)

  -- the fallback of any other exception, where one that raises is replaced
  unfoldable pub after_exception :
      DocSpec
      → Classified
      → (SourceException ⊎ FetchedSource) × Ctx
      → (SourceException ⊎ StepResult) × Ctx
  unfolding assemble
  after_exception d e (inl raised, ctx) =
      returned (assemble d unreachable e.outcome (some (error_info e)) Confidence.none ctx)
  after_exception d e (inr fs, ctx) =
      returned (assemble d fs e.outcome (some (error_info e)) Confidence.none ctx)

  -- what becomes of what `fetch` did
  unfoldable pub after_fetch :
      DocSpec
      → SourceAdapter Ctx
      → (SourceException ⊎ FetchedSource) × Ctx
      → (SourceException ⊎ StepResult) × Ctx
  unfolding assemble outcome_for default_confidence after_source_error after_exception
      classify_exception
  after_fetch d adapter (inr fs, ctx) = returned (
      assemble d fs (outcome_for fs) none
        (or_else fs.confidence (default_confidence fs.status fs.manual_review)) ctx)
  after_fetch d adapter (inl (source_error e), ctx) = after_source_error d e (adapter.fallback ctx)
  after_fetch d adapter (inl e, ctx) =
      after_exception d (classify_exception repr cut e) (adapter.fallback ctx)

  unfoldable pub run_one : DocSpec → SourceAdapter Ctx → Ctx → (SourceException ⊎ StepResult) × Ctx
  unfolding after_fetch
  run_one d adapter ctx = after_fetch d adapter (adapter.fetch ctx)

  -- a document with an adapter or without
  unfoldable pub run_doc :
      DocSpec → Option (SourceAdapter Ctx) → Ctx → (SourceException ⊎ StepResult) × Ctx
  unfolding run_one assemble
  run_doc d none ctx =
      returned (assemble d fetched_source SourceOutcome.link_only none Confidence.low ctx)
  run_doc d (some adapter) ctx = run_one d adapter ctx

  module _ (adapters : String → Option (SourceAdapter Ctx)) where
    -- what follows one document of the loop, with the loop over the rest
    abbrev pub then_steps :
        (SourceException ⊎ StepResult) × Ctx
        → (Ctx → (SourceException ⊎ List StepResult) × Ctx)
        → (SourceException ⊎ List StepResult) × Ctx
    then_steps (inl e, ctx) rest = (inl e, ctx)
    then_steps (inr step, ctx) rest = cons_step step (rest ctx)
      where
        cons_step :
            StepResult
            → (SourceException ⊎ List StepResult) × Ctx
            → (SourceException ⊎ List StepResult) × Ctx
        cons_step step (inl e, ctx) = (inl e, ctx)
        cons_step step (inr steps, ctx) = (inr (step ∷ steps), ctx)

    unfoldable pub build_from :
        Option (List String) → List DocSpec → Ctx → (SourceException ⊎ List StepResult) × Ctx
    unfolding run_doc
    build_from include [] ctx = (inr [], ctx)
    build_from include (d ∷ ds) ctx =
        let rest = build_from include ds in
        if is_wanted include d then then_steps (run_doc d (adapters d.key) ctx) rest else rest ctx

    unfoldable pub build_steps :
        Option (List String) → Ctx → (SourceException ⊎ List StepResult) × Ctx
    unfolding build_from
    build_steps include ctx = build_from include residential_docs ctx
