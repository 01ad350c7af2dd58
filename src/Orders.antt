-- ===== src/Orders.antt =====
-- backend/app/engine/order_source.py: the table of orders, the provider that reads it, and the seeding
-- of a development order. The tables list their rows in the order of insertion; `uuid4` gives the
-- `n`-th random UUID. A seeded order has no coordinates and no order number.
pub mod Seeding
use researchhub_engine.Prelude.{
  ℕ, String, ◌+◌, Bool, true, false, ◌&&◌, ◌==◌, Option, none, some, List, [], ◌∷◌, ◌++◌, find_by,
  any_by, is_none, str_eq, if◌then◌else◌,
}
use researchhub_engine.Models.{Uuid, Time, OrderData}

pub record Order : Type 0 where
  pub id : Uuid
  pub tenant_id : Uuid
  pub order_number : Option String
  pub address_line_1 : String
  pub address_line_2 : Option String
  pub city : Option String
  pub state : Option String
  pub zip_code : Option String
  pub county : Option String
  pub parcel_id : Option String
  pub lat : Option String
  pub lon : Option String
  pub survey_type : Option String
  pub deleted_at : Option Time

pub record OrderTables : Type 0 where
  pub orders : List Order
  pub tenants : List Uuid
  pub drawn : ℕ

abbrev pub order_data : Order → OrderData
order_data row = record {
  id = row.id;
  address_line_1 = row.address_line_1;
  address_line_2 = row.address_line_2;
  city = row.city;
  state = row.state;
  zip_code = row.zip_code;
  county = row.county;
  parcel_id = row.parcel_id;
  lat = row.lat;
  lon = row.lon;
  survey_type = row.survey_type;
}

-- the filter of `order_provider`
abbrev pub is_order : Uuid → Uuid → Order → Bool
is_order order_id tenant_id row =
    row.id == order_id && row.tenant_id == tenant_id && is_none row.deleted_at

abbrev pub data_of : Option Order → Option OrderData
data_of none = none
data_of (some row) = some (order_data row)

unfoldable pub order_provider : OrderTables → Uuid → Uuid → Option OrderData
order_provider t order_id tenant_id = data_of (find_by (is_order order_id tenant_id) t.orders)

-- the arguments of `seed_dev_order` other than the tenant
pub record SeedArguments : Type 0 where
  pub address_line_1 : String
  pub address_line_2 : Option String
  pub city : Option String
  pub state : Option String
  pub zip_code : Option String
  pub county : Option String
  pub parcel_id : Option String
  pub survey_type : Option String

abbrev pub is_seeded : Uuid → String → Order → Bool
is_seeded tenant_id address row =
    row.tenant_id == tenant_id && str_eq row.address_line_1 address && is_none row.deleted_at

abbrev pub seeded_row : Uuid → Uuid → SeedArguments → Order
seeded_row id tenant_id args = record {
  id = id;
  tenant_id = tenant_id;
  order_number = none;
  address_line_1 = args.address_line_1;
  address_line_2 = args.address_line_2;
  city = args.city;
  state = args.state;
  zip_code = args.zip_code;
  county = args.county;
  parcel_id = args.parcel_id;
  lat = none;
  lon = none;
  survey_type = args.survey_type;
  deleted_at = none;
}

module _ (uuid4 : ℕ → Uuid) where
  -- the tenant's row, which is added where there is none
  abbrev pub with_tenant : Uuid → OrderTables → OrderTables
  with_tenant tenant_id t =
      if any_by (λ i. i == tenant_id) t.tenants
      then t
      else record t { tenants = t.tenants ++ tenant_id ∷ [] }

  abbrev pub return_or_insert :
      Uuid → SeedArguments → OrderTables → Option Order → Order × OrderTables
  return_or_insert tenant_id args t (some row) = (row, t)
  return_or_insert tenant_id args t none =
      let row = seeded_row (uuid4 t.drawn) tenant_id args in
      (row, record t { orders = t.orders ++ row ∷ []; drawn = t.drawn + 1 })

  unfoldable pub seed_for : Uuid → SeedArguments → OrderTables → Order × OrderTables
  seed_for tenant_id args t =
      let t' = with_tenant tenant_id t in
      return_or_insert tenant_id args t'
        (find_by (is_seeded tenant_id args.address_line_1) t'.orders)

  -- a tenant that is not given is drawn
  unfoldable pub seed_dev_order : Option Uuid → SeedArguments → OrderTables → Order × OrderTables
  unfolding seed_for
  seed_dev_order none args t = seed_for (uuid4 t.drawn) args (record t { drawn = t.drawn + 1 })
  seed_dev_order (some tenant_id) args t = seed_for tenant_id args t
