-- ===== src/Carts/Closed.antt =====
-- Checking out a cart (src/vertical/restaurants/cart.service.ts).
use peer_core.Carts.{input_of, lines_in, Shop, CartCheckout, Cart-scoped, CartItem-scoped}
use peer_core.Orders.Tables.{Order}
use peer_core.Tenancy.{Uuid}
use peer_core.Orders.Services.{OrderWorld, Outside, Services}
use peer_core.Base.{String}
use peer_core.Action.{Result, World}
use peer_core.Orders.Checkout.{checkout, Draws}

module _ (s : Services) (tenant_id : String) (t cart : Uuid) (opts : CartCheckout) (d : Draws) where
  -- The order of the lines of the cart.
  abbrev pub ordered :
      World Shop (Outside s.payments.State s.NotifierState) → Result Order × OrderWorld s
  ordered w =
      checkout s tenant_id (input_of opts (lines_in t cart w.db)) d
        (record { db = w.db.base; outside = w.outside })
