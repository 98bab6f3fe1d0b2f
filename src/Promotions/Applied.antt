-- ===== src/Promotions/Applied.antt =====
-- A promotion of the staff at a checkout (src/vertical/restaurants: promotion.service.ts, order.service.ts).
use peer_core.Promotions.{LoyaltyEntry-scoped}
use peer_core.Orders.Tables.{Tables, Promotion-scoped}
