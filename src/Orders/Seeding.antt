-- ===== src/Orders/Seeding.antt =====
-- Seeding a development order more than once, in backend/app/engine/order_source.py.
use researchhub_engine.Prelude.{
  ℕ, ◌≡◌, refl, ap, ◌∙◌, true, ◌==◌, ==_refl, Option, none, some, List, [], ◌∷◌, ◌++◌, find_by,
  find_by-append, any_by, Bool-cases, inl, inr, str_eq_refl, arith,
}
use researchhub_engine.Models.{Uuid}
use researchhub_engine.Orders.{
  Order, OrderTables, SeedArguments, is_seeded, seeded_row, with_tenant, return_or_insert, seed_for,
  seed_dev_order,
}

any-append : (i : Uuid) (xs : List Uuid) → any_by (λ j. j == i) (xs ++ i ∷ []) ≡ true
any-append i [] = rw (==_refl i) refl
any-append i (x ∷ xs) = ground (arith, any-append i xs)

module _ (uuid4 : ℕ → Uuid) (tenant_id : Uuid) where
  -- the tenant is there
  abbrev HasTenant : OrderTables → Type 0
  HasTenant t = any_by (λ i. i == tenant_id) t.tenants ≡ true

  with_tenant-HasTenant : (t : OrderTables) → HasTenant (with_tenant uuid4 tenant_id t)
  with_tenant-HasTenant t = elim (Bool-cases (any_by (λ i. i == tenant_id) t.tenants)) [
    | inl there ↦ rw there there
    | inr absent ↦ rw absent (any-append tenant_id t.tenants)
  ]

  found_again :
      (args : SeedArguments) (t : OrderTables) (row : Order)
      → HasTenant t
      → find_by (is_seeded tenant_id args.address_line_1) t.orders ≡ some row
      → seed_for uuid4 tenant_id args t ≡ (row, t)
  unfolding seed_for
  found_again args t row there found = rw (there, found) refl

  -- what a seeding leaves: its row is the first that a further seeding finds
  seeded :
      (args : SeedArguments) (t : OrderTables) (o : Option Order)
      → HasTenant t
      → find_by (is_seeded tenant_id args.address_line_1) t.orders ≡ o
      → let r = return_or_insert uuid4 tenant_id args t o in
        HasTenant r.1 × (find_by (is_seeded tenant_id args.address_line_1) r.1.orders ≡ some r.0)
  seeded args t (some row) there found = (there, found)
  seeded args t none there found = (
    there,
    find_by-append _ t.orders (seeded_row (uuid4 t.drawn) tenant_id args ∷ []) found
        ∙ rw (==_refl tenant_id, str_eq_refl args.address_line_1) refl,
  )

  -- Seeding an order of a tenant and an address again, with whatever else, returns the order that was
  -- there after the first time and changes nothing.
  pub seed_dev_order_twice :
      (args args' : SeedArguments) (t : OrderTables)
      → args'.address_line_1 ≡ args.address_line_1
      → let r = seed_dev_order uuid4 (some tenant_id) args t in
        seed_dev_order uuid4 (some tenant_id) args' r.1 ≡ r
  unfolding seed_dev_order seed_for
  seed_dev_order_twice args args' t same =
      let t' = with_tenant uuid4 tenant_id t in
      let (there, found) = seeded args t' _ (with_tenant-HasTenant t) refl in
      found_again args' _ _ there (
        ap
          (λ a.
            find_by (is_seeded tenant_id a)
              (return_or_insert uuid4 tenant_id args t'
                (find_by (is_seeded tenant_id args.address_line_1) t'.orders)).1.orders)
          same
        ∙ found)
