-- ===== src/Sources.antt =====
-- The framework of backend/app/engine/orchestration/sources.py: what an adapter of one document step
-- returns and raises, and how an exception is classified. The adapters themselves are arguments, as
-- the registry is the seam for them. `repr` prints a number, and `cut` is the slice `[:300]`.
pub mod Context
pub mod Services
pub mod Legal
pub mod Clerk
pub mod Property
pub mod Federal
pub mod Registry
use Prim.Native.String
use researchhub_engine.Prelude.{
  ℕ, String, Bool, true, false, ◌||◌, ◌==◌, Option, none, some, List, if◌then◌else◌, ◌⊎◌,
}
use researchhub_engine.Contracts.{StepStatus, SourceOutcome, Confidence}

-- an entry of the manifest, with the keys that are read from it
pub record ManifestEntry : Type 0 where
  pub source : Option String
  pub fetched_utc : Option String
  pub file : Option String
  pub sha256 : Option String

pub record FetchedSource : Type 0 where
  pub status : StepStatus
  pub payload : Option String
  pub summary : String
  pub link : String
  pub link_label : String
  pub source_url : String
  pub downloaded : List String
  pub saved_file : Option String
  pub records : List ManifestEntry
  pub warnings : List String
  pub confidence : Option Confidence
  pub manual_review : Bool
  pub situs : Option String
  pub land_sqft : Option String
  pub land_acres : Option String
  pub address_match : Option Bool

-- the defaults of the data class
abbrev pub fetched_source : FetchedSource
fetched_source = record {
  status = StepStatus.link;
  payload = none;
  summary = "";
  link = "";
  link_label = "";
  source_url = "";
  downloaded = List.[];
  saved_file = none;
  records = List.[];
  warnings = List.[];
  confidence = none;
  manual_review = false;
  situs = none;
  land_sqft = none;
  land_acres = none;
  address_match = none;
}

-- The arguments of a `SourceError`, which are also what `classify_exception` returns.
pub record Classified : Type 0 where
  pub outcome : SourceOutcome
  pub code : String
  pub message : String
  pub retryable : Bool

-- What an adapter raises: a `SourceError`, the `HTTPError` of a response, whose status code may be
-- missing, a `Timeout` or `ConnectionError`, or another exception with its text.
pub data SourceException : Type 0 where
  source_error : Classified → SourceException
  http_error : Option ℕ → SourceException
  connection_error : SourceException
  any_other : String → SourceException

-- A call of an adapter may also change the context of the run.
pub record SourceAdapter (Ctx : Type 0) : Type 0 where
  pub fetch : Ctx → (SourceException ⊎ FetchedSource) × Ctx
  pub fallback : Ctx → (SourceException ⊎ FetchedSource) × Ctx

-- `code in (401, 403, 406, 429)`, and `code in (404, 410)`
abbrev pub is_blocked : ℕ → Bool
is_blocked c = c == 401 || c == 403 || c == 406 || c == 429

abbrev pub is_gone : ℕ → Bool
is_gone c = c == 404 || c == 410

module _ (repr : ℕ → String) (cut : String → String) where
  -- `code or '?'`, where 0 is falsy
  abbrev code_or_unknown : ℕ → String
  code_or_unknown c = if c == 0 then "?" else repr c

  unfoldable pub classify_status : ℕ → Classified
  classify_status c =
      if is_blocked c
      then record {
        outcome = SourceOutcome.blocked;
        code = String.◌++◌ "HTTP_" (repr c);
        message =
            String.◌++◌ "Source returned HTTP "
              (String.◌++◌ (repr c) " (WAF/bot/geo block — opens in a browser).");
        retryable = false;
      }
      else if is_gone c
      then record {
        outcome = SourceOutcome.broken;
        code = String.◌++◌ "HTTP_" (repr c);
        message =
            String.◌++◌ "Source returned HTTP "
              (String.◌++◌ (repr c) " — the URL is wrong or moved.");
        retryable = false;
      }
      else record {
        outcome = SourceOutcome.broken;
        code = String.◌++◌ "HTTP_" (code_or_unknown c);
        message = String.◌++◌ "Source returned HTTP " (String.◌++◌ (repr c) " — server error.");
        retryable = true;
      }

  unfoldable pub classify_exception : SourceException → Classified
  unfolding classify_status
  classify_exception (source_error e) = e
  classify_exception (http_error none) = record {
    outcome = SourceOutcome.broken;
    code = "HTTP_?";
    message = "Source returned HTTP None — server error.";
    retryable = true;
  }
  classify_exception (http_error (some c)) = classify_status c
  classify_exception connection_error = record {
    outcome = SourceOutcome.retryable;
    code = "CONNECTION_FAILED";
    message = "Source timed out or connection was reset (network/firewall?).";
    retryable = true;
  }
  classify_exception (any_other e) = record {
    outcome = SourceOutcome.retryable;
    code = "ADAPTER_ERROR";
    message = cut e;
    retryable = true;
  }
