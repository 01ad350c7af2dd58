-- ===== src/Errors.antt =====
-- backend/app/engine/errors.py: one constructor for each exception class, with the arguments of its
-- `__init__`; and the exception handlers of backend/app/main.py.

use researchhub_engine.Prelude.{ℕ, String, Bool, Option, List, ◌==◌, if◌then◌else◌}
use researchhub_engine.Schemas.{ResearchErrorCode, value}

-- `invalid_doc_types` carries the unknown types that its text lists, in the text's order.
pub data ResearchEngineError : Type 0 where
  base : ResearchEngineError
  order_not_found : Option ℕ → ResearchEngineError
  order_not_researchable : String → ResearchEngineError
  invalid_doc_types : List String → ResearchEngineError
  job_not_found : Option ℕ → ResearchEngineError
  job_not_retryable : String → ResearchEngineError
  job_not_cancellable : String → ResearchEngineError
  idempotency_conflict : String → ResearchEngineError
  missing_address : ResearchEngineError
  document_fetch : ResearchErrorCode → String → Bool → ResearchEngineError

-- An exception: one of the engine's, or any other, with its text.
pub data Raised : Type 0 where
  engine : ResearchEngineError → Raised
  other : String → Raised

-- the class attribute `code`
unfoldable pub code : ResearchEngineError → ResearchErrorCode
code base = ResearchErrorCode.internal_error
code (order_not_found _) = ResearchErrorCode.order_not_found
code (order_not_researchable _) = ResearchErrorCode.order_not_researchable
code (invalid_doc_types _) = ResearchErrorCode.invalid_doc_types
code (job_not_found _) = ResearchErrorCode.job_not_found
code (job_not_retryable _) = ResearchErrorCode.job_not_retryable
code (job_not_cancellable _) = ResearchErrorCode.job_not_cancellable
code (idempotency_conflict _) = ResearchErrorCode.idempotency_conflict
code missing_address = ResearchErrorCode.missing_address
code (document_fetch c _ _) = c

-- the class attribute `http_status`
unfoldable pub http_status : ResearchEngineError → ℕ
http_status base = 500
http_status (order_not_found _) = 404
http_status (order_not_researchable _) = 422
http_status (invalid_doc_types _) = 422
http_status (job_not_found _) = 404
http_status (job_not_retryable _) = 409
http_status (job_not_cancellable _) = 409
http_status (idempotency_conflict _) = 409
http_status missing_address = 422
http_status (document_fetch _ _ _) = 200

-- The attribute `message`. Only `DocumentFetchError` assigns it; the other classes hand their text
-- to `Exception.__init__`, which does not, and keep the class attribute of the base.
unfoldable pub message : ResearchEngineError → String
message (document_fetch _ m _) = m
message _ = "Internal error"

-- `{"error": {"code": ..., "message": ...}}` with its HTTP status
pub record Response : Type 0 where
  pub status : ℕ
  pub error_code : String
  pub error_message : String

unfoldable pub research_error_handler : ResearchEngineError → Response
unfolding code http_status message value
research_error_handler exc = record {
  status = http_status exc;
  error_code = value (code exc);
  error_message = message exc;
}

-- `f"HTTP_{exc.status_code}"` is an argument: `http_code` renders it.
unfoldable pub http_exception_handler : (ℕ → String) → ℕ → String → Response
http_exception_handler http_code status_code detail = record {
  status = status_code;
  error_code = if status_code == 429 then "RATE_LIMIT_EXCEEDED" else http_code status_code;
  error_message = detail;
}

unfoldable pub unhandled_exception_handler : String → Response
unhandled_exception_handler exc = record {
  status = 500;
  error_code = "INTERNAL_ERROR";
  error_message = "Internal server error";
}

-- Which handler answers an exception that an endpoint raises.
unfoldable pub respond : Raised → Response
unfolding research_error_handler unhandled_exception_handler
respond (engine exc) = research_error_handler exc
respond (other exc) = unhandled_exception_handler exc
