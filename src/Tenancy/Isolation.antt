-- ===== src/Tenancy/Isolation.antt =====
-- What row-level security keeps apart: statements in the context of one tenant, and the rows of
-- the others.
use peer_core.Tenancy.Rows.{update, select_one, select, Scoped}
use peer_core.Base.{
  ◌≢◌, Bool, arith, ◌++◌, ◌≡◌, ◌==◌, if◌then◌else◌, All, List, ℕ, [], ◌∷◌, some, true, refl,
}
use peer_core.Orders.Tables.{
  CatalogItem-scoped, MenuAvailability-scoped, Branch-scoped, Promotion-scoped, Order-scoped,
  OrderItem-scoped, OrderEvent-scoped, LoyaltyAccount-scoped,
}

module _ {A : Type 0} ⦃s : Scoped A⦄ where
  -- The rows of the other tenants.
  pub foreign : ℕ → List A → List A
  foreign t [] = []
  foreign t (r ∷ rs) = let rest = foreign t rs in if s.tenant_of r == t then rest else r ∷ rest

  -- An update in the context of a tenant that leaves rows their tenant leaves the rows of every other
  -- tenant as they were.
  pub foreign-update :
      (t : ℕ) (p : A → Bool) (f : A → A) (rs : List A)
      → ((r : A) → s.tenant_of (f r) ≡ s.tenant_of r)
      → foreign t (update t p f rs) ≡ foreign t rs
  unfolding foreign update
  foreign-update t p f [] h = refl
  foreign-update t p f (r ∷ rs) h = ground (arith, foreign-update t p f rs h, h r)

  pub foreign-append :
      (t : ℕ) (rs new : List A)
      → All (λ r. s.tenant_of r ≡ t) new
      → foreign t (rs ++ new) ≡ foreign t rs
  unfolding foreign
  foreign-append t [] [] h = refl
  foreign-append t [] (n ∷ new) h = ground (arith, foreign-append t [] new h.1)
  foreign-append t (r ∷ rs) new h = ground (arith, foreign-append t rs new h)

  -- Equal foreign rows look equal to every other tenant.
  pub select-foreign :
      (t u : ℕ) (p : A → Bool) (rs : List A) → u ≢ t → select u p (foreign t rs) ≡ select u p rs
  unfolding foreign select
  select-foreign t u p [] h = refl
  select-foreign t u p (r ∷ rs) h = ground (arith, select-foreign t u p rs h)

  -- A query in the context of a tenant returns rows of that tenant alone, and only those that its
  -- condition picks.
  pub select-own :
      (t : ℕ) (p : A → Bool) (rs : List A)
      → All (λ r. (s.tenant_of r ≡ t) × (p r ≡ true)) (select t p rs)
  unfolding select
  select-own t p [] = tt
  select-own t p (r ∷ rs) = ground (arith, select-own t p rs)

  pub select_one-own :
      (t : ℕ) (p : A → Bool) (rs : List A) {r : A}
      → select_one t p rs ≡ some r
      → (s.tenant_of r ≡ t) × (p r ≡ true)
  unfolding select_one
  select_one-own t p [] e = cc
  select_one-own t p (x ∷ rs) {r} e = ground (arith, select_one-own t p rs {r = r})
