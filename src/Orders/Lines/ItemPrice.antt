-- ===== src/Orders/Lines/ItemPrice.antt =====
-- What a line that resolves is priced at (src/vertical/restaurants/order.service.ts).
use peer_core.Orders.Tables.{CatalogItem-scoped, MenuAvailability-scoped, CatalogItem, Tables}
use peer_core.Tenancy.Rows.{select_one}
use peer_core.Orders.Pricing.{PriceLineInput}
use peer_core.Orders.Lines.{
  check_groups, select_modifiers, gated_at, is_available, Snapshot, resolve_line, CheckoutLine,
}
use peer_core.Tenancy.{Uuid}
use peer_core.Base.{
  ◌∙◌, sym, or_default, arith, Bool-cases, ◌≡◌, ◌==◌, [], some, true, refl, inl, inr, Option,
}
use peer_core.Action.{Result-cases, ok, err}

module _ (t : Uuid) (db : Tables) (branch : Option Uuid) (line : CheckoutLine) where
  -- It is of an available item of the tenant, at its price.
  pub resolve_line-item :
      (priced : PriceLineInput) (snapshot : Snapshot) (r : CatalogItem)
      → select_one t (λ x. x.id == line.item_id) db.catalog_items ≡ some r
      → resolve_line t db branch line ≡ ok (priced, snapshot)
      → (is_available r.status ≡ true)
        × (priced.unit_price_minor ≡ r.price_minor)
        × (snapshot.name ≡ r.name)
  unfolding resolve_line
  resolve_line-item priced snapshot r e h = elim (Bool-cases (is_available r.status)) [
    | inr f ↦ absurd (ground (arith, e, f))
    | inl f ↦ elim (Bool-cases (gated_at t db line.item_id branch)) [
      | inl g ↦ absurd (ground (arith, e, f, g))
      | inr g ↦
          elim (Result-cases (
            select_modifiers (or_default r.modifier_groups []) [] (or_default line.modifiers []))) [
              | inr (x, k) ↦
                  let thrown : resolve_line t db branch line ≡ err x =
                    rw (resolve_line, e, f, g, k) refl in
                  absurd (ground (arith, sym thrown ∙ h))
              | inl ((modifiers, counts), k) ↦
                  elim (Result-cases (check_groups counts (or_default r.modifier_groups []))) [
                    | inr (x, l) ↦
                        let thrown : resolve_line t db branch line ≡ err x =
                          rw (resolve_line, e, f, g, k, l) refl in
                        absurd (ground (arith, sym thrown ∙ h))
                    | inl (u, l) ↦
                        let done : resolve_line t db branch line
                            ≡ ok (
                              record {
                                unit_price_minor = r.price_minor;
                                quantity = line.quantity;
                                modifiers = modifiers;
                              },
                              record { item_id = r.id; name = r.name },
                            ) =
                          rw (resolve_line, e, f, g, k, l) refl in
                        ground (arith, f, sym done ∙ h)
                  ]
            ]
    ]
  ]
