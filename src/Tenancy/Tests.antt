-- ===== src/Tenancy/Tests.antt =====
-- Row-level security at a table of two tenants.
use peer_core.Errors.{plain}
use peer_core.Tenancy.{uuid_of, with_tenant, Uuid}
use peer_core.Base.{◌+◌, ◌≡◌, List, ℕ, [], ◌∷◌, true, refl}
use peer_core.Orders.Tables.{
  MenuAvailability, CatalogItem-scoped, MenuAvailability-scoped, Branch-scoped, Promotion-scoped,
  Order-scoped, OrderItem-scoped, OrderEvent-scoped, LoyaltyAccount-scoped,
}
use peer_core.Action.{Action, World, err}

abbrev row : ℕ → ℕ → MenuAvailability
row t k = record { tenant_id = t; item_id = k; branch_id = 0; available = true }

abbrev rows : List MenuAvailability
rows = row 7 1 ∷ row 8 2 ∷ row 7 3 ∷ []

-- A method that writes and then throws.
abbrev failing : Uuid → Action (List ℕ) ℕ ℕ
failing t w = (err plain, record w { db = t ∷ w.db; outside = w.outside + 1 })

abbrev start : World (List ℕ) ℕ
start = record { db = 5 ∷ []; outside = 0 }

failing-run :
    with_tenant "00000000-0000-0000-0000-000000000007" failing start
    ≡ (err plain, record start { outside = 1 })
unfolding with_tenant uuid_of
failing-run = refl
