-- ===== src/Menu/SoldOut.antt =====
-- An item that is sold out is in no order (src/vertical/restaurants: menu.service.ts, order.service.ts).
use peer_core.Tenancy.Rows.{sees, update, select_one}
use peer_core.Tenancy.{uuid_of, with_tenant, Uuid}
use peer_core.Base.{
  ◌∙◌, sym, subst, Bool-cases, arith, any, Option-cases, ◌==◌, ◌≡◌, List, String, Bool, [], ◌∷◌,
  some, true, false, refl, inl, inr, Option, ap,
}
use peer_core.Action.{Result-cases, World, ok, err}
use peer_core.Errors.{order_error, bad_item, unavailable, Error}
use peer_core.Menu.{available_at, set_sold_out, is_available_at_branch}
use peer_core.Orders.Tables.{Tables, CatalogItem, sold_out, CatalogItem-scoped}
use peer_core.Orders.Lines.{resolve_line, resolve_lines, CheckoutLine}

abbrev with_id : Uuid → CatalogItem → Bool
with_id item r = r.id == item

abbrev close : CatalogItem → CatalogItem
close r = record r { status = sold_out }

closed_after :
    (t item : Uuid) (rows : List CatalogItem) (r : CatalogItem)
    → select_one t (with_id item) (update t (with_id item) close rows) ≡ some r
    → r.status ≡ sold_out
unfolding select_one update
closed_after t item [] r h = absurd (ground arith)
closed_after t item (x ∷ rows) r h = elim (Bool-cases (sees t (with_id item) x)) [
  | inl e ↦ ground arith
  | inr e ↦ closed_after t item rows r (ground arith)
]

-- No row of the tenant with the id can be ordered.
abbrev IsClosed : Uuid → Uuid → Tables → Type 0
IsClosed t item db =
    (r : CatalogItem) → select_one t (with_id item) db.catalog_items ≡ some r → r.status ≡ sold_out

module _ (t : Uuid) (db : Tables) (branch : Option Uuid) where
  line_fails :
      (line : CheckoutLine)
      → IsClosed t line.item_id db
      → (e : Error) × (resolve_line t db branch line ≡ err e)
  unfolding resolve_line
  line_fails line closed =
      elim (Option-cases (select_one t (with_id line.item_id) db.catalog_items)) [
        | inl f ↦ (order_error bad_item, rw (resolve_line, f) refl)
        | inr (r, f) ↦
            let out = closed r f in (order_error unavailable, rw (resolve_line, f, out) refl)
      ]

  lines_fail :
      (item : Uuid) (lines : List CheckoutLine)
      → IsClosed t item db
      → any (λ l. l.item_id == item) lines ≡ true
      → (e : Error) × (resolve_lines t db branch lines ≡ err e)
  unfolding resolve_lines
  lines_fail item [] closed h = absurd (ground arith)
  lines_fail item (line ∷ lines) closed h = elim (Result-cases (resolve_line t db branch line)) [
    | inr (e, f) ↦ (e, rw (resolve_lines, f) refl)
    | inl (p, f) ↦ elim (Bool-cases (line.item_id == item)) [
      | inl g ↦
          let same : line.item_id ≡ item = ground arith in
          let (e, k) = line_fails line (subst (λ i. IsClosed t i db) (sym same) closed) in
          absurd (ground arith)
      | inr g ↦
          let (e, k) = lines_fail item lines closed (ground arith) in
          (e, rw (resolve_lines, f, k) refl)
    ]
  ]

closed_at_branch :
    (t item branch : Uuid) (db : Tables)
    → IsClosed t item db
    → available_at t db item branch ≡ false
closed_at_branch t item branch db closed =
    elim (Option-cases (select_one t (with_id item) db.catalog_items)) [
      | inl f ↦ rw (available_at, f) refl
      | inr (r, f) ↦ let out = closed r f in rw (available_at, f, out) refl
    ]

module _ {X : Type 0} where
  available-read :
      (tenant_id : String) (t item branch : Uuid) (w : World Tables X)
      → uuid_of tenant_id ≡ some t
      → (is_available_at_branch tenant_id item branch w).0 ≡ ok (available_at t w.db item branch)
  unfolding is_available_at_branch with_tenant
  available-read tenant_id t item branch w e = rw (is_available_at_branch, with_tenant, e) refl

  sold_out-rows :
      (tenant_id : String) (t item : Uuid) (w : World Tables X)
      → uuid_of tenant_id ≡ some t
      → (set_sold_out tenant_id item true w).1.db
        ≡ record w.db { catalog_items = update t (with_id item) close w.db.catalog_items }
  unfolding set_sold_out with_tenant
  sold_out-rows tenant_id t item w e = rw (set_sold_out, with_tenant, e) refl

  -- For a tenant id that is a UUID, after setSoldOut of an item to true, isAvailableAtBranch
  -- says no for it at every branch, and the lines of an order at any branch that has a line
  -- of the item are refused.
  pub set_sold_out-resolve_lines :
      (tenant_id : String) (t item branch : Uuid) (lines : List CheckoutLine) (w : World Tables X)
      → uuid_of tenant_id ≡ some t
      → any (λ l. l.item_id == item) lines ≡ true
      → let w' = (set_sold_out tenant_id item true w).1 in
        ((is_available_at_branch tenant_id item branch w').0 ≡ ok false)
        × (e : Error) × (resolve_lines t w'.db (some branch) lines ≡ err e)
  set_sold_out-resolve_lines tenant_id t item branch lines w e h =
      let left = sold_out-rows tenant_id t item w e in
      let closed : IsClosed t item (set_sold_out tenant_id item true w).1.db =
        subst (IsClosed t item) (sym left) (closed_after t item w.db.catalog_items) in
      let w' = (set_sold_out tenant_id item true w).1 in
      let (x, failed) = lines_fail t w'.db (some branch) item lines closed h in
      let seen = available-read tenant_id t item branch w' e in
      (seen ∙ ap ok (closed_at_branch t item branch w'.db closed), x, failed)
