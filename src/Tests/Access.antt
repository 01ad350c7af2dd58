-- ===== src/Tests/Access.antt =====
-- A test of a request with a token.
use researchhub_engine.Prelude.{
  String, ◌≡◌, refl, inr, true, Option, some, none, str_eq, if◌then◌else◌,
}
use researchhub_engine.Models.{Uuid}
use researchhub_engine.Access.{Claims, get_actor_id, get_tenant_id, identify}
use researchhub_engine.Access.Tokens.{Vouches, identify-Vouches}

-- one token is valid, and two texts are UUIDs
abbrev pub decode : String → Option Claims
decode token =
    if str_eq token "signed"
    then some (record { sub = some "user-9"; custom_tenant = none; tenant = some "tenant-2" })
    else none

abbrev pub parse : String → Option Uuid
parse s = if str_eq s "user-9" then some 9 else if str_eq s "tenant-2" then some 2 else none

let_in : identify decode parse true (some "signed") (some "user-1") (some "tenant-1") ≡ inr (9, 2)
unfolding identify get_actor_id get_tenant_id
let_in = refl

identify-Vouches_example :
    (token : String) × (some "signed" ≡ some token) × Vouches decode parse token 9 2
identify-Vouches_example =
    identify-Vouches decode parse (some "signed") (some "user-1") (some "tenant-1") 9 2 let_in
