-- ===== src/Schemas.antt =====
-- backend/app/engine/schemas.py: the lifecycle statuses and the error codes of the API contract.
use researchhub_engine.Prelude.{String}

pub data ResearchJobStatus : Type 0 where
  queued running completed partial failed cancelling cancelled reviewed archived : ResearchJobStatus

pub data ResearchDocStatus : Type 0 where
  queued fetching fetched uploading uploaded failed skipped : ResearchDocStatus

pub data ResearchErrorCode : Type 0 where
  order_not_found order_not_researchable invalid_doc_types job_not_found job_not_retryable :
      ResearchErrorCode
  job_not_cancellable idempotency_conflict missing_address : ResearchErrorCode
  geocode_failed parcel_not_found deed_unavailable plat_unavailable flood_unavailable :
      ResearchErrorCode
  appraiser_unavailable source_unavailable s3_upload_failed timeout : ResearchErrorCode
  internal_error rate_limited : ResearchErrorCode

-- `ResearchErrorCode.value`
unfoldable pub value : ResearchErrorCode → String
value order_not_found = "ORDER_NOT_FOUND"
value order_not_researchable = "ORDER_NOT_RESEARCHABLE"
value invalid_doc_types = "INVALID_DOC_TYPES"
value job_not_found = "JOB_NOT_FOUND"
value job_not_retryable = "JOB_NOT_RETRYABLE"
value job_not_cancellable = "JOB_NOT_CANCELLABLE"
value idempotency_conflict = "IDEMPOTENCY_CONFLICT"
value missing_address = "MISSING_ADDRESS"
value geocode_failed = "GEOCODE_FAILED"
value parcel_not_found = "PARCEL_NOT_FOUND"
value deed_unavailable = "DEED_UNAVAILABLE"
value plat_unavailable = "PLAT_UNAVAILABLE"
value flood_unavailable = "FLOOD_UNAVAILABLE"
value appraiser_unavailable = "APPRAISER_UNAVAILABLE"
value source_unavailable = "SOURCE_UNAVAILABLE"
value s3_upload_failed = "S3_UPLOAD_FAILED"
value timeout = "TIMEOUT"
value internal_error = "INTERNAL_ERROR"
value rate_limited = "RATE_LIMITED"
