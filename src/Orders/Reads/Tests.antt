-- ===== src/Orders/Reads/Tests.antt =====
-- The staff queue at the sample database.
use peer_core.Orders.State.{includes}
use peer_core.Orders.Reads.Queue.{queue-IsByAge, IsByAge}
use peer_core.Tenancy.Rows.{select}
use peer_core.Orders.Samples.{tables, cooking, order, world, services, tenant}
use peer_core.Tenancy.{with_tenant, uuid_of}
use peer_core.Orders.Reads.{open_statuses, queue_rows, queue}
use peer_core.Base.{◌&&◌, ◌==◌, Bool, ◌≡◌, List, [], ◌∷◌, some, refl, any}
use peer_core.Orders.Tables.{
  Order, CatalogItem-scoped, MenuAvailability-scoped, Branch-scoped, Promotion-scoped, Order-scoped,
  OrderItem-scoped, OrderEvent-scoped, LoyaltyAccount-scoped,
}
use peer_core.Action.{ok}

found : uuid_of tenant ≡ some 7
unfolding uuid_of
found = refl

listed : (queue services tenant world).0 ≡ ok (order ∷ cooking ∷ [])
unfolding queue with_tenant uuid_of queue_rows select
listed = refl

queue-IsByAge_example :
    (rows : List Order) × (queue services tenant world ≡ (ok rows, world))
    × IsByAge rows
    × ((p : Order → Bool)
        → any p rows
          ≡ any (λ o. (o.tenant_id == 7) && includes open_statuses o.status && p o) tables.orders)
queue-IsByAge_example = queue-IsByAge services tenant 7 world found
