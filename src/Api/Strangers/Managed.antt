-- ===== src/Api/Strangers/Managed.antt =====
-- The routes of the staff on orders, branches and the menu
-- (src/vertical/restaurants/staff.controller.ts).
use peer_core.Base.{
  [], ◌∷◌, none, some, refl, inl, inr, Option, ap, ◌≡◌, ◌∙◌, Bool, Bool-cases, Option-cases, String,
  any, ◌==◌, ℕ,
}
use peer_core.Api.{List, Site, Stamp}
use peer_core.Api.Staff.{
  manage, ManageRequest, get_queue, post_accept, post_reject, post_advance, get_branches,
  post_branch, patch_branch, post_item, post_sold_out, orders, order, branches, branch, item,
}
use peer_core.Api.Strangers.{without, strangers, IsApart, IsApartBase, on_base-IsApart}
use peer_core.Action.{World, lift}
use peer_core.Action.Keeps.{
  Keeps, Keeps-answer, Keeps-bind, Keeps-lift, Keeps-query, Keeps-statement,
}
use peer_core.Orders.Isolation.{others}
use peer_core.Orders.Notify.{accept, reject, advance, transition}
use peer_core.Orders.Notify.Spares.{transition-IsSpared}
use peer_core.Orders.Reads.{queue}
use peer_core.Orders.Services.{Services, Outside}
use peer_core.Orders.State.{OrderStatus}
use peer_core.Orders.Transition.{Money}
use peer_core.Orders.Tables.{
  Tables, Branch, CatalogItem, CatalogItem-scoped, Branch-scoped, Promotion-scoped,
}
use peer_core.Tenancy.{uuid_of, Uuid}
use peer_core.Tenancy.Isolation.{foreign, foreign-append, foreign-update}
use peer_core.Tenancy.Keeps.{Keeps-with_tenant_at}
use peer_core.Restaurants.{
  create_branch, list_branches, update_branch, change, insert_branch, BranchPatch, NewBranch,
  branch_of,
}
use peer_core.Menu.{
  create_item, create_catalog_item, set_sold_out, set_item_status, natural_of, validate_given,
  NewMenuItem,
}

module _ (t : Uuid) (first : Site) where
  catalog-IsApartBase :
      (db : Tables) (rows : List CatalogItem)
      → foreign t rows ≡ foreign t db.catalog_items
      → IsApartBase t first db
      → IsApartBase t first (record db { catalog_items = rows })
  unfolding without others
  catalog-IsApartBase db rows e h = (λ i. record (without t db) { catalog_items = e i }) ∙ h

  branches-IsApartBase :
      (db : Tables) (rows : List Branch)
      → foreign t rows ≡ foreign t db.branches
      → IsApartBase t first db
      → IsApartBase t first (record db { branches = rows })
  unfolding without others
  branches-IsApartBase db rows e h = (λ i. record (without t db) { branches = e i }) ∙ h

  insert_branch-IsApartBase :
      (row : Branch) (db : Tables)
      → row.tenant_id ≡ t
      → IsApartBase t first db
      → IsApartBase t first (insert_branch row db).1
  insert_branch-IsApartBase row db own h =
      elim (Bool-cases (any (λ b. b.id == row.id) db.branches)) [
        | inl e ↦ rw e h
        | inr e ↦
            rw e (branches-IsApartBase db _ (foreign-append t db.branches (row ∷ []) (own, tt)) h)
      ]

  module _ {X : Type 0} (tenant_id : String) (e : uuid_of tenant_id ≡ some t) where
    create_branch-IsApart :
        (id : Uuid) (input : NewBranch)
        → Keeps {X = X} (IsApartBase t first) (create_branch tenant_id id input)
    unfolding create_branch
    create_branch-IsApart id input =
        Keeps-with_tenant_at tenant_id t _ e
          (Keeps-statement _ (λ db. insert_branch-IsApartBase (branch_of id t input) db refl))

    change-IsApart :
        (id : Uuid) (patch : BranchPatch) (minimum : Option ℕ)
        → Keeps {X = X} (IsApartBase t first) (change tenant_id id patch minimum)
    change-IsApart id patch minimum = Keeps-with_tenant_at tenant_id t _ e (
        Keeps-statement _
          (λ db. branches-IsApartBase db _ (foreign-update t _ _ db.branches (λ r. refl))))

    update_branch-IsApart :
        (id : Uuid) (patch : BranchPatch)
        → Keeps {X = X} (IsApartBase t first) (update_branch tenant_id id patch)
    unfolding update_branch
    update_branch-IsApart id patch = elim (Option-cases patch.min_order_minor) [
      | inl f ↦ rw (update_branch, f) (change-IsApart id patch none)
      | inr (n, f) ↦ elim (Option-cases (natural_of n)) [
        | inl g ↦ rw (update_branch, f, g) (Keeps-lift _)
        | inr (m, g) ↦ rw (update_branch, f, g) (change-IsApart id patch (some m))
      ]
    ]

    create_item-IsApart :
        (id : Uuid) (input : NewMenuItem)
        → Keeps {X = X} (IsApartBase t first) (create_item tenant_id id input)
    unfolding create_item create_catalog_item
    create_item-IsApart id input =
        Keeps-bind (lift (validate_given input.modifier_groups)) _ (Keeps-lift _) (λ _.
          elim (Option-cases (natural_of input.price_minor)) [
            | inl g ↦ rw (create_catalog_item, g) (Keeps-lift _)
            | inr (m, g) ↦
                rw (create_catalog_item, g)
                  (Keeps-with_tenant_at tenant_id t _ e (
                    Keeps-statement _ (λ db.
                      catalog-IsApartBase db _ (foreign-append t db.catalog_items _ (refl, tt)))))
          ])

    set_sold_out-IsApart :
        (id : Uuid) (is_out : Bool)
        → Keeps {X = X} (IsApartBase t first) (set_sold_out tenant_id id is_out)
    unfolding set_sold_out set_item_status
    set_sold_out-IsApart id is_out = Keeps-with_tenant_at tenant_id t _ e (
        Keeps-statement _
          (λ db. catalog-IsApartBase db _ (foreign-update t _ _ db.catalog_items (λ r. refl))))

module _ (s : Services) (uuid_text : Uuid → String) (d : Stamp) (tenant_id : String) (t : Uuid)
    (e : uuid_of tenant_id ≡ some t) (first : Site) where
  transition-IsApart :
      (id : Uuid) (to : OrderStatus) (money : Option Money)
      → Keeps (IsApartBase t first) (transition s uuid_text tenant_id id to money)
  unfolding without
  transition-IsApart id to money = record {
    at = λ w h.
        let drop : Tables → Tables = λ rest. record rest {
          catalog_items = foreign t rest.catalog_items;
          branches = foreign t rest.branches;
        } in
        ap drop (transition-IsSpared s uuid_text t tenant_id e id to money w) ∙ h;
  }

  manage-IsApart : (r : ManageRequest) → Keeps (IsApart t first) (manage s uuid_text r d tenant_id)
  unfolding manage accept reject advance list_branches queue
  manage-IsApart get_queue =
      Keeps-answer _ orders
        (on_base-IsApart t first _ (Keeps-with_tenant_at tenant_id t _ e (Keeps-query _)))
  manage-IsApart (post_accept id) =
      Keeps-answer _ order (on_base-IsApart t first _ (transition-IsApart id _ _))
  manage-IsApart (post_reject id) =
      Keeps-answer _ order (on_base-IsApart t first _ (transition-IsApart id _ _))
  manage-IsApart (post_advance id to) =
      Keeps-answer _ order (on_base-IsApart t first _ (transition-IsApart id to none))
  manage-IsApart get_branches =
      Keeps-answer _ branches
        (on_base-IsApart t first _ (Keeps-with_tenant_at tenant_id t _ e (Keeps-query _)))
  manage-IsApart (post_branch body) =
      Keeps-answer _ (λ r. branch (some r))
        (on_base-IsApart t first _ (create_branch-IsApart t first tenant_id e d.id body))
  manage-IsApart (patch_branch id body) =
      Keeps-answer _ branch
        (on_base-IsApart t first _ (update_branch-IsApart t first tenant_id e id body))
  manage-IsApart (post_item body) =
      Keeps-answer _ (λ r. item (some r))
        (on_base-IsApart t first _ (create_item-IsApart t first tenant_id e d.id body))
  manage-IsApart (post_sold_out id is_out) =
      Keeps-answer _ item
        (on_base-IsApart t first _ (set_sold_out-IsApart t first tenant_id e id is_out))

-- A request to the routes of `manage`, handled in the tenant `t`, leaves the rows of the other
-- tenants as they are.
pub manage-strangers :
    (s : Services) (uuid_text : Uuid → String) (d : Stamp) (tenant_id : String) (t : Uuid)
    (r : ManageRequest) (w : World Site (Outside s.payments.State s.NotifierState))
    → uuid_of tenant_id ≡ some t
    → strangers t (manage s uuid_text r d tenant_id w).1.db ≡ strangers t w.db
manage-strangers s uuid_text d tenant_id t r w e =
    (manage-IsApart s uuid_text d tenant_id t e w.db r).at w refl
