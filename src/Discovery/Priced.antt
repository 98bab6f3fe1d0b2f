-- ===== src/Discovery/Priced.antt =====
-- The price that a diner is told is the price that is charged (src/vertical/restaurants:
-- diner-agent.service.ts, order.service.ts).
use peer_core.Tenancy.Rows.{select_one}
use peer_core.Orders.Pricing.{PriceLineInput}
use peer_core.Orders.Lines.{resolve_line, Snapshot, CheckoutLine}
use peer_core.Discovery.{facts_of, ItemFacts, item_facts}
use peer_core.Base.{arith, Option-cases, ◌==◌, ◌≡◌, String, some, true, inl, inr, Option}
use peer_core.Action.{World, ok}
use peer_core.Tenancy.{Uuid, uuid_of, with_tenant}
use peer_core.Orders.Tables.{CatalogItem, Tables, CatalogItem-scoped}
use peer_core.Orders.Lines.ItemPrice.{resolve_line-item}

module _ {X : Type 0} where
  told :
      (tenant_id : String) (t item : Uuid) (facts : ItemFacts) (w : World Tables X)
      → uuid_of tenant_id ≡ some t
      → (item_facts tenant_id item w).0 ≡ ok (some facts)
      → (r : CatalogItem) × (select_one t (λ x. x.id == item) w.db.catalog_items ≡ some r)
        × (facts ≡ facts_of r)
  unfolding item_facts with_tenant
  told tenant_id t item facts w e h =
      elim (Option-cases (select_one t (λ x. x.id == item) w.db.catalog_items)) [
        | inl f ↦ absurd (ground (arith, e, f))
        | inr (r, f) ↦ (r, f, ground (arith, e, f))
      ]

  -- For a tenant id that is a UUID, where itemFacts tells of an item and a line of an order
  -- with it resolves, at a branch or none, the item was told to be available, and the line
  -- has the price and the name that were told.
  pub item_facts-resolve_line :
      (tenant_id : String) (t : Uuid) (branch : Option Uuid) (line : CheckoutLine)
      (facts : ItemFacts) (priced : PriceLineInput) (snapshot : Snapshot) (w : World Tables X)
      → uuid_of tenant_id ≡ some t
      → (item_facts tenant_id line.item_id w).0 ≡ ok (some facts)
      → resolve_line t w.db branch line ≡ ok (priced, snapshot)
      → (facts.available ≡ true)
        × (priced.unit_price_minor ≡ facts.price_minor)
        × (snapshot.name ≡ facts.name)
  item_facts-resolve_line tenant_id t branch line facts priced snapshot w e h k =
      let (r, found, same) = told tenant_id t line.item_id facts w e h in
      rw same (resolve_line-item t w.db branch line priced snapshot r found k)
