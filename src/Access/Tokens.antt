-- ===== src/Access/Tokens.antt =====
-- Who is let in where tokens are required, in backend/app/engine/dependencies.py.
use researchhub_engine.Prelude.{String, ◌≡◌, refl, ◌⊎◌, inl, inr, true, Option, none, some}
use researchhub_engine.Models.{Uuid}
use researchhub_engine.Access.{
  Claims, full, first_full, or_refuse, parse_full, actor_of_sub, actor_of_claims, get_actor_id,
  tenant_of_claims, get_tenant_id, with_tenant_id, after_actor, identify,
}

module _ (decode : String → Option Claims) (parse : String → Option Uuid) where
  -- The token vouches for the actor and the tenant.
  pub record Vouches (token : String) (actor_id tenant_id : Uuid) : Type 0 where
    pub claims : Claims
    pub sub : String
    pub tenant : String
    pub valid : decode token ≡ some claims
    pub of_sub : full claims.sub ≡ some sub
    pub actor : parse sub ≡ some actor_id
    pub of_tenant : first_full claims.custom_tenant claims.tenant ≡ some tenant
    pub tenant_parsed : parse tenant ≡ some tenant_id

  parse_full-eq-inr :
      (o : Option String) (missing invalid : String) (i : Uuid)
      → parse_full decode parse o missing invalid ≡ inr i
      → (s : String) × (o ≡ some s) × (parse s ≡ some i)
  parse_full-eq-inr none missing invalid i e = cc
  parse_full-eq-inr (some s) missing invalid i e = (s, refl, go (parse s) e)
    where
      go : (p : Option Uuid) → or_refuse p invalid ≡ inr i → p ≡ some i
      go none e = cc
      go (some j) e = cc

  -- Where tokens are required, a request gets in only with a token that decodes, and then as the actor
  -- and the tenant of its claims: no header has a say.
  pub identify-Vouches :
      (credentials x_actor_id x_tenant_id : Option String) (actor_id tenant_id : Uuid)
      → identify decode parse true credentials x_actor_id x_tenant_id ≡ inr (actor_id, tenant_id)
      → (token : String) × (credentials ≡ some token) × Vouches token actor_id tenant_id
  unfolding identify get_actor_id get_tenant_id
  identify-Vouches none x_actor_id x_tenant_id actor_id tenant_id e = cc
  identify-Vouches (some token) x_actor_id x_tenant_id actor_id tenant_id e =
      (token, refl, by_claims (decode token) refl e)
    where
      by_tenant :
          (claims : Claims) (sub : String) (a : Uuid) (r : String ⊎ Uuid)
          → decode token ≡ some claims
          → full claims.sub ≡ some sub
          → parse sub ≡ some a
          → tenant_of_claims decode parse (some claims) ≡ r
          → with_tenant_id decode parse a r ≡ inr (actor_id, tenant_id)
          → Vouches token actor_id tenant_id
      by_tenant claims sub a (inl x) hd hs ha hr e = cc
      by_tenant claims sub a (inr t) hd hs ha hr e =
          let (s, ho, hp) = parse_full-eq-inr _ _ _ t hr in
          let same : a ≡ actor_id = cc in
          let same' : t ≡ tenant_id = cc in
          record {
            claims = claims;
            sub = sub;
            tenant = s;
            valid = hd;
            of_sub = hs;
            actor = cc;
            of_tenant = ho;
            tenant_parsed = cc;
          }

      by_parse :
          (claims : Claims) (sub : String) (p : Option Uuid)
          → decode token ≡ some claims
          → full claims.sub ≡ some sub
          → parse sub ≡ p
          → after_actor decode parse true x_tenant_id
              (or_refuse p "Invalid 'sub' in token", some claims)
            ≡ inr (actor_id, tenant_id)
          → Vouches token actor_id tenant_id
      by_parse claims sub none hd hs hp e = cc
      by_parse claims sub (some a) hd hs hp e = by_tenant claims sub a _ hd hs hp refl e

      by_sub :
          (claims : Claims) (o : Option String)
          → decode token ≡ some claims
          → full claims.sub ≡ o
          → after_actor decode parse true x_tenant_id (actor_of_sub decode parse none claims o)
            ≡ inr (actor_id, tenant_id)
          → Vouches token actor_id tenant_id
      by_sub claims none hd hs e = cc
      by_sub claims (some sub) hd hs e = by_parse claims sub (parse sub) hd hs refl e

      by_claims :
          (o : Option Claims)
          → decode token ≡ o
          → after_actor decode parse true x_tenant_id (actor_of_claims decode parse none o)
            ≡ inr (actor_id, tenant_id)
          → Vouches token actor_id tenant_id
      by_claims none hd e = cc
      by_claims (some claims) hd e = by_sub claims (full claims.sub) hd refl e
