-- ===== src/Limiter.antt =====
-- backend/app/core/limiter.py: the limit on the creation of jobs. `hit` is the moving window of the library:
-- it counts a hit of a caller and says whether the caller is still within the limit.
use researchhub_engine.Prelude.{
  String, Bool, ◌||◌, Option, none, some, str_eq, if◌then◌else◌, or_else, concat, [], ◌∷◌, ℕ,
}
use researchhub_engine.Errors.{Response, http_exception_handler}

-- `_identity`: the header, or else the host
unfoldable pub identity : (x_tenant_id host : Option String) → String
identity none host = or_else host "anon"
identity (some x_tenant_id) host =
    if str_eq x_tenant_id "" then or_else host "anon" else x_tenant_id

-- the limiter's settings: the rate, and whether this is the test environment
pub record Limits : Type 0 where
  pub rate : String
  pub is_test : Bool
  pub hit : String → Bool

-- `rate_limit`: the response of a request that is refused
unfoldable pub rate_limit :
    (ℕ → String) → Limits → (x_tenant_id host : Option String) → Option Response
unfolding identity http_exception_handler
rate_limit http_code limits x_tenant_id host =
    if str_eq limits.rate "" || limits.is_test
    then none
    else if limits.hit (concat ("research:" ∷ identity x_tenant_id host ∷ []))
    then none
    else some (http_exception_handler http_code 429 "Rate limit exceeded")
