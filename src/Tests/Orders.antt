-- ===== src/Tests/Orders.antt =====
-- A test of the seeding of a development order.
use researchhub_engine.Prelude.{ℕ, ◌≡◌, refl, some, none, []}
use researchhub_engine.Models.{Uuid}
use researchhub_engine.Orders.{OrderTables, SeedArguments, seed_dev_order}
use researchhub_engine.Orders.Seeding.{seed_dev_order_twice}

abbrev no_orders : OrderTables
no_orders = record { orders = []; tenants = []; drawn = 0 }

abbrev uuid4 : ℕ → Uuid
uuid4 n = n

abbrev main_street : SeedArguments
main_street = record {
  address_line_1 = "123 Main St";
  address_line_2 = none;
  city = some "Orlando";
  state = some "FL";
  zip_code = none;
  county = none;
  parcel_id = none;
  survey_type = none;
}

abbrev main_street_again : SeedArguments
main_street_again = record main_street { city = none; county = some "Orange" }

seed_dev_order_twice_example :
    seed_dev_order uuid4
      (some 2)
      main_street_again
      (seed_dev_order uuid4 (some 2) main_street no_orders).1
    ≡ seed_dev_order uuid4 (some 2) main_street no_orders
seed_dev_order_twice_example =
    seed_dev_order_twice uuid4 2 main_street main_street_again no_orders refl
