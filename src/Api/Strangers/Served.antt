-- ===== src/Api/Strangers/Served.antt =====
-- The routes of the staff on promotions, loyalty, reviews, complaints, deliveries and drivers
-- (src/vertical/restaurants/staff.controller.ts).
use peer_core.Base.{
  ◌&&◌, [], ◌∷◌, some, refl, inl, inr, ap, ◌≡◌, ◌∙◌, Bool, Bool-cases, String, List, any, ◌==◌,
  str_eq,
}
use peer_core.Action.{ok, World, Action, query}
use peer_core.Base.Int.{pos, negsuc, ℤ}
use peer_core.Api.{on_feedback, on_desk, on_ledger, on_listings, Site, Stamp}
use peer_core.Api.Staff.{
  serve, LedgerRequest, get_loyalty, get_reviews, get_complaints, post_complaint_status,
  post_delivery, post_delivery_status, get_owed, post_settle, get_directory, post_directory, rated,
  complaints, complaint, delivery, amount, listings, loyalty, done, get_promotions, post_promotion,
  post_deactivate, promotions, promotion,
}
use peer_core.Api.Strangers.{IsApartBase, strangers, without, IsApart, on_base-IsApart}
use peer_core.Action.Keeps.{
  Keeps-bind, Keeps, Keeps-answer, Keeps-lift, Keeps-query, Keeps-statement, Keeps-zoom, ◌▹◌,
  Keeps-execute,
}
use peer_core.Complaints
use peer_core.Complaints.{list_open, move_complaint, Desk, ComplaintStatus, Complaint-scoped}
use peer_core.Deliveries.{owed, DeliveryTables}
use peer_core.Deliveries.Isolation.{assign-IsSpared, set_status-IsSpared, settle-IsSpared, IsSpared}
use peer_core.Discovery.{
  add_driver, list_drivers, insert_listing, listing_of, DriverListing, DriverListing-scoped,
}
use peer_core.Orders.Isolation.{others}
use peer_core.Orders.Tables.{Tables, Promotion, Promotion-scoped}
use peer_core.Promotions.{
  create_promotion, list_promotions, deactivate, insert_promotion, is_out_of_range, NewPromotion,
  balance, history,
}
use peer_core.Reviews.{summary, Feedback}
use peer_core.Tenancy.{with_tenant, uuid_of, Uuid}
use peer_core.Tenancy.Isolation.{foreign, foreign-append, foreign-update}
use peer_core.Tenancy.Keeps.{Keeps-with_tenant_at}

module _ (t : Uuid) (first : Site) where
  abbrev IsApartDesk : Desk → Type 0
  IsApartDesk x =
      (without t x.base ≡ without t first.base)
      × (foreign t x.complaints ≡ foreign t first.complaints)

  on_desk-IsApart :
      {X A : Type 0} (m : Action Desk X A)
      → Keeps IsApartDesk m
      → Keeps (IsApart t first) (on_desk m)
  unfolding strangers
  on_desk-IsApart m k =
      Keeps-zoom _ _ m (λ x h. (ap (λ y. y.base) h, ap (λ y. y.complaints) h))
        (λ v x q h i. record (h i) { base = q.0 i; complaints = q.1 i }) k

  on_ledger-IsApart :
      {X A : Type 0} (m : Action DeliveryTables X A)
      → Keeps (IsSpared t first.ledger) m
      → Keeps (IsApart t first) (on_ledger m)
  unfolding strangers
  on_ledger-IsApart m k =
      Keeps-zoom _ _ m (λ x h. ap (λ y. y.ledger) h) (λ v x q h i. record (h i) { ledger = q i }) k

  on_listings-IsApart :
      {X A : Type 0} (m : Action (List DriverListing) X A)
      → Keeps (λ rows. foreign t rows ≡ foreign t first.listings) m
      → Keeps (IsApart t first) (on_listings m)
  unfolding strangers
  on_listings-IsApart m k =
      Keeps-zoom _ _ m (λ x h. ap (λ y. y.listings) h)
        (λ v x q h i. record (h i) { listings = q i }) k

  move_complaint-IsApart :
      (id : Uuid) (status : ComplaintStatus) (v : Desk)
      → IsApartDesk v
      → IsApartDesk (move_complaint t id status v).1
  move_complaint-IsApart id status v h = (h.0, foreign-update t _ _ v.complaints (λ r. refl) ∙ h.1)

  insert_listing-IsApart :
      (row : DriverListing) (rows : List DriverListing)
      → row.tenant_id ≡ t
      → foreign t rows ≡ foreign t first.listings
      → foreign t (insert_listing row rows).1 ≡ foreign t first.listings
  insert_listing-IsApart row rows own h = elim (Bool-cases (any (λ r. r.id == row.id) rows)) [
    | inl f ↦ rw f h
    | inr f ↦ rw f (foreign-append t rows (row ∷ []) (own, tt) ∙ h)
  ]

  promotions-IsApartBase :
      (db : Tables) (rows : List Promotion)
      → foreign t rows ≡ foreign t db.promotions
      → IsApartBase t first db
      → IsApartBase t first (record db { promotions = rows })
  unfolding without others
  promotions-IsApartBase db rows e h = (λ i. record (without t db) { promotions = e i }) ∙ h

  insert_promotion-IsApartBase :
      (id : Uuid) (input : NewPromotion) (value : ℤ) (db : Tables)
      → IsApartBase t first db
      → IsApartBase t first (insert_promotion id t input value db).1
  insert_promotion-IsApartBase id input (negsuc n) db h = h
  insert_promotion-IsApartBase id input (pos n) db h =
      elim (Bool-cases (any (λ p. (p.tenant_id == t) && str_eq p.code input.code) db.promotions)) [
        | inl e ↦ rw e h
        | inr e ↦ rw e (promotions-IsApartBase db _ (foreign-append t db.promotions _ (refl, tt)) h)
      ]

  module _ {X : Type 0} (tenant_id : String) (e : uuid_of tenant_id ≡ some t) where
    create_promotion-IsApart :
        (id : Uuid) (input : NewPromotion)
        → Keeps {X = X} (IsApartBase t first) (create_promotion tenant_id id input)
    unfolding create_promotion
    create_promotion-IsApart id input = elim (Bool-cases (is_out_of_range input)) [
      | inl g ↦ rw (create_promotion, g) (Keeps-lift _)
      | inr g ↦
          rw (create_promotion, g)
            (Keeps-with_tenant_at tenant_id t _ e
              (Keeps-statement _ (insert_promotion-IsApartBase id input input.value)))
    ]

    deactivate-IsApart : (id : Uuid) → Keeps {X = X} (IsApartBase t first) (deactivate tenant_id id)
    unfolding deactivate
    deactivate-IsApart id = Keeps-with_tenant_at tenant_id t _ e (
        Keeps-execute _
          (λ db. promotions-IsApartBase db _ (foreign-update t _ _ db.promotions (λ r. refl))))

module _ {X : Type 0} (ilike : String → String → Bool) (d : Stamp) (tenant_id : String) (t : Uuid)
    (e : uuid_of tenant_id ≡ some t) (first : Site) where
  -- A query on reviews.
  on_feedback-IsApart :
      {A : Type 0} (f : Uuid → Feedback → A)
      → Keeps (IsApart t first) (on_feedback {X = X} (with_tenant tenant_id (λ u. query (f u))))
  unfolding with_tenant
  on_feedback-IsApart f = rw (with_tenant, e) (record { at = λ w h. h })

  serve-IsApart : (r : LedgerRequest) → Keeps {X = X} (IsApart t first) (serve ilike r d tenant_id)
  unfolding serve list_promotions balance history summary list_open Complaints.set_status owed
      list_drivers add_driver
  serve-IsApart get_promotions =
      Keeps-answer _ promotions
        (on_base-IsApart t first _ (Keeps-with_tenant_at tenant_id t _ e (Keeps-query _)))
  serve-IsApart (post_promotion body) =
      Keeps-answer _ promotion
        (on_base-IsApart t first _ (create_promotion-IsApart t first tenant_id e d.id body))
  serve-IsApart (post_deactivate id) =
      Keeps-bind _ _ (on_base-IsApart t first _ (deactivate-IsApart t first tenant_id e id))
        (λ _. Keeps-lift _)
  serve-IsApart (get_loyalty phone) =
      on_base-IsApart t first _ (Keeps-with_tenant_at tenant_id t _ e (Keeps-query _)) ▹ λ points.
      on_base-IsApart t first _ (Keeps-with_tenant_at tenant_id t _ e (Keeps-query _)) ▹ λ entries.
      Keeps-lift (ok (loyalty points entries))
  serve-IsApart get_reviews = Keeps-answer _ rated (on_feedback-IsApart _)
  serve-IsApart get_complaints =
      Keeps-answer _ complaints
        (on_desk-IsApart t first _ (Keeps-with_tenant_at tenant_id t _ e (Keeps-query _)))
  serve-IsApart (post_complaint_status id status) = Keeps-answer _ complaint (
      on_desk-IsApart t first _ (
        Keeps-with_tenant_at tenant_id t _ e
          (Keeps-statement _ (move_complaint-IsApart t first id status))))
  serve-IsApart (post_delivery id driver earning) =
      Keeps-answer _ (λ r. delivery (some r))
        (on_ledger-IsApart t first _
          (assign-IsSpared t first.ledger tenant_id e d.id id driver earning))
  serve-IsApart (post_delivery_status id status) =
      Keeps-answer _ delivery
        (on_ledger-IsApart t first _ (set_status-IsSpared t first.ledger tenant_id e id status))
  serve-IsApart (get_owed phone) = Keeps-answer _ amount (
      on_ledger-IsApart t first (owed tenant_id phone)
        (Keeps-with_tenant_at tenant_id t _ e (Keeps-query _)))
  serve-IsApart (post_settle phone) =
      on_ledger-IsApart t first _ (settle-IsSpared t first.ledger tenant_id e phone d.now) ▹ λ _.
      Keeps-lift (ok done)
  serve-IsApart (get_directory area) = Keeps-answer _ listings (
      on_listings-IsApart t first (list_drivers ilike tenant_id area)
        (Keeps-with_tenant_at tenant_id t _ e (Keeps-query _)))
  serve-IsApart (post_directory body) =
      Keeps-answer _ (λ r. listings (r ∷ []))
        (on_listings-IsApart t first (add_driver tenant_id d.id body) (
          Keeps-with_tenant_at tenant_id t _ e (
            Keeps-statement _
              (λ rows. insert_listing-IsApart t first (listing_of d.id t body) rows refl))))

-- A request to the routes of `serve`, handled in the tenant `t`, leaves the rows of the other
-- tenants as they are.
pub serve-strangers :
    {X : Type 0} (ilike : String → String → Bool) (d : Stamp) (tenant_id : String) (t : Uuid)
    (r : LedgerRequest) (w : World Site X)
    → uuid_of tenant_id ≡ some t
    → strangers t (serve ilike r d tenant_id w).1.db ≡ strangers t w.db
serve-strangers ilike d tenant_id t r w e = (serve-IsApart ilike d tenant_id t e w.db r).at w refl
