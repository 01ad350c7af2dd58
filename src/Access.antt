-- ===== src/Access.antt =====
-- backend/app/engine/dependencies.py: who calls, and for which tenant. Arguments: `decode` is the
-- check and decoding of a token, `none` where it raises, and `parse` is `uuid.UUID`, `none` where it
-- raises. A refusal is the detail of an HTTPException with the status 401.
pub mod Tokens
use researchhub_engine.Prelude.{
  String, ◌⊎◌, inl, inr, Bool, true, false, Option, none, some, str_eq, if◌then◌else◌,
}
use researchhub_engine.Models.{Uuid}

-- the claims of a token that are read; `tenant` is the claim `tenant_id`
pub record Claims : Type 0 where
  pub sub : Option String
  pub custom_tenant : Option String
  pub tenant : Option String

-- a text that is there and not empty
abbrev pub full : Option String → Option String
full none = none
full (some s) = if str_eq s "" then none else some s

-- `a or b`
abbrev pub first_full : Option String → Option String → Option String
first_full a b = elim (full a) [ some s ↦ some s | none ↦ full b ]

abbrev pub or_refuse {ℓ} : {A : Type ℓ} → Option A → String → String ⊎ A
or_refuse none detail = inl detail
or_refuse (some a) detail = inr a

module _ (decode : String → Option Claims) (parse : String → Option Uuid) where
  -- a text that must be there and be a UUID
  abbrev pub parse_full : Option String → String → String → String ⊎ Uuid
  parse_full none missing invalid = inl missing
  parse_full (some s) missing invalid = or_refuse (parse s) invalid

  abbrev pub actor_of_sub : Option Claims → Claims → Option String → (String ⊎ Uuid) × Option Claims
  actor_of_sub kept claims none = (inl "Token missing 'sub' claim", kept)
  actor_of_sub kept claims (some sub) =
      (or_refuse (parse sub) "Invalid 'sub' in token", some claims)

  -- the actor of a token, with the claims that are kept on the request
  abbrev pub actor_of_claims : Option Claims → Option Claims → (String ⊎ Uuid) × Option Claims
  actor_of_claims kept none = (inl "Invalid or expired token", kept)
  actor_of_claims kept (some claims) = actor_of_sub kept claims (full claims.sub)

  abbrev pub actor_of_credentials : Option Claims → Option String → (String ⊎ Uuid) × Option Claims
  actor_of_credentials kept none = (inl "Missing Authorization Bearer token", kept)
  actor_of_credentials kept (some token) = actor_of_claims kept (decode token)

  -- `jwt_enabled`: a user pool is configured; `kept` is `request.state.cognito_payload`
  unfoldable pub get_actor_id :
      (jwt_enabled : Bool)
      → Option Claims
      → Option String
      → Option String
      → (String ⊎ Uuid) × Option Claims
  get_actor_id true kept credentials x_actor_id = actor_of_credentials kept credentials
  get_actor_id false kept credentials x_actor_id =
      (parse_full (full x_actor_id) "Missing X-Actor-Id" "Invalid X-Actor-Id", kept)

  abbrev pub tenant_of_claims : Option Claims → String ⊎ Uuid
  tenant_of_claims none = inl "Token not validated"
  tenant_of_claims (some claims) =
      parse_full (first_full claims.custom_tenant claims.tenant) "Token missing tenant claim"
        "Invalid tenant id in token"

  unfoldable pub get_tenant_id :
      (jwt_enabled : Bool) → Option Claims → Option String → String ⊎ Uuid
  get_tenant_id true kept x_tenant_id = tenant_of_claims kept
  get_tenant_id false kept x_tenant_id =
      parse_full (full x_tenant_id) "Missing X-Tenant-Id" "Invalid X-Tenant-Id"

  abbrev pub with_tenant_id : Uuid → String ⊎ Uuid → String ⊎ (Uuid × Uuid)
  with_tenant_id actor_id (inl e) = inl e
  with_tenant_id actor_id (inr tenant_id) = inr (actor_id, tenant_id)

  abbrev pub after_actor :
      Bool → Option String → (String ⊎ Uuid) × Option Claims → String ⊎ (Uuid × Uuid)
  after_actor jwt_enabled x_tenant_id (inl e, kept) = inl e
  after_actor jwt_enabled x_tenant_id (inr actor_id, kept) =
      with_tenant_id actor_id (get_tenant_id jwt_enabled kept x_tenant_id)

  -- The two dependencies of an endpoint, the actor first, on a request without claims yet.
  unfoldable pub identify :
      Bool → (credentials x_actor_id x_tenant_id : Option String) → String ⊎ (Uuid × Uuid)
  unfolding get_actor_id get_tenant_id
  identify jwt_enabled credentials x_actor_id x_tenant_id =
      after_actor jwt_enabled x_tenant_id (get_actor_id jwt_enabled none credentials x_actor_id)
