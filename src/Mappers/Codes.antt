-- ===== src/Mappers/Codes.antt =====
-- The error codes that backend/app/engine/mappers.py reads back from the texts that were stored.
use researchhub_engine.Prelude.{
  String, ◌≡◌, ◌↔◌, refl, ap, ◌∙◌, some, find_by-eq-some, str_eq, eq_iff,
}
use researchhub_engine.Schemas.{ResearchErrorCode, value}
use researchhub_engine.Mappers.{error_codes, to_error_code}
use ResearchErrorCode.{
  order_not_found, order_not_researchable, invalid_doc_types, job_not_found, job_not_retryable,
  job_not_cancellable, idempotency_conflict, missing_address, geocode_failed, parcel_not_found,
  deed_unavailable, plat_unavailable, flood_unavailable, appraiser_unavailable, source_unavailable,
  s3_upload_failed, timeout, internal_error, rate_limited,
}

to_error_code-value : (c : ResearchErrorCode) → to_error_code (value c) ≡ some c
unfolding to_error_code value
to_error_code-value order_not_found = refl
to_error_code-value order_not_researchable = refl
to_error_code-value invalid_doc_types = refl
to_error_code-value job_not_found = refl
to_error_code-value job_not_retryable = refl
to_error_code-value job_not_cancellable = refl
to_error_code-value idempotency_conflict = refl
to_error_code-value missing_address = refl
to_error_code-value geocode_failed = refl
to_error_code-value parcel_not_found = refl
to_error_code-value deed_unavailable = refl
to_error_code-value plat_unavailable = refl
to_error_code-value flood_unavailable = refl
to_error_code-value appraiser_unavailable = refl
to_error_code-value source_unavailable = refl
to_error_code-value s3_upload_failed = refl
to_error_code-value timeout = refl
to_error_code-value internal_error = refl
to_error_code-value rate_limited = refl

-- A stored text reads back as a code exactly when it is the value of that code: the codes survive
-- being stored, no two share a value, and any other text reads as no code.
pub to_error_code-eq-some_iff :
    (v : String) (c : ResearchErrorCode) → (to_error_code v ≡ some c) ↔ (v ≡ value c)
unfolding to_error_code
to_error_code-eq-some_iff v c = (
  λ h. (eq_iff v (value c)).0 (find_by-eq-some (λ d. str_eq v (value d)) error_codes c h),
  λ h. ap to_error_code h ∙ to_error_code-value c,
)
