-- ===== src/Carts.antt =====
-- src/vertical/restaurants/cart.service.ts, over OrderService. The cart and the items that a call names
-- exist.
pub mod Closed
mod Tests
use peer_core.Orders.Pricing.{other, OrderTotals, integer, Number}
use peer_core.Tenancy.{with_tenant, Uuid}
use peer_core.Tenancy.Rows.{select, update, Scoped}
use peer_core.Orders.Lines.{Selection, CheckoutLine}
use peer_core.Orders.Tables.{OrderType, Order, Tables}
use peer_core.Orders.Services.{Outside, Services}
use peer_core.Base.{
  ◌++◌, ◌==◌, or_default, map, String, List, ◌&&◌, if◌then◌else◌, [], ◌∷◌, none, some, true, false,
  refl, zero, suc, inl, inr, Option, find, ap,
}
use peer_core.Action.{pure, ◌>>=◌, ◌>>◌, query, statement, Result, execute, Action, ok, err}
use peer_core.Base.Int.{ℤ, pos, negsuc}
use peer_core.Orders.Checkout.{checkout_in, checkout, CheckoutInput, Draws}
use peer_core.Orders.Reads.{quote}
use peer_core.Errors.{check_violation, invalid_text_representation, database}

pub data CartStatus : Type 0 where
  active checked_out abandoned : CartStatus

pub record Cart : Type 0 where
  pub id : Uuid
  pub tenant_id : Uuid
  pub branch_id : Uuid
  pub status : CartStatus

pub record CartItem : Type 0 where
  pub tenant_id : Uuid
  pub cart_id : Uuid
  pub item_id : Uuid
  pub quantity : ℤ
  pub modifiers : List Selection

-- The tables of orders, and those of carts.
pub record Shop : Type 0 where
  pub base : Tables
  pub carts : List Cart
  pub cart_items : List CartItem

instance abbrev pub Cart-scoped : Scoped Cart
Cart-scoped = record { tenant_of = λ r. r.tenant_id }

instance abbrev pub CartItem-scoped : Scoped CartItem
CartItem-scoped = record { tenant_of = λ r. r.tenant_id }

-- The `opts` of `checkout`.
pub record CartCheckout : Type 0 where
  pub branch_id : Uuid
  pub order_type : OrderType
  pub diner_phone : Option String
  pub idempotency_key : Option String
  pub delivery_fee_minor : Option ℤ

abbrev line_of : CartItem → CheckoutLine
line_of i = record {
  item_id = i.item_id;
  quantity = integer i.quantity;
  modifiers = some i.modifiers;
}

abbrev pub lines_in : Uuid → Uuid → Shop → List CheckoutLine
lines_in t cart db = map line_of (select t (λ i. i.cart_id == cart) db.cart_items)

abbrev pub input_of : CartCheckout → List CheckoutLine → CheckoutInput
input_of opts lines = record {
  branch_id = opts.branch_id;
  order_type = opts.order_type;
  lines = lines;
  delivery_fee_minor = opts.delivery_fee_minor;
  idempotency_key = opts.idempotency_key;
  diner_phone = opts.diner_phone;
  promo_code = none;
  scheduled_for = none;
}

abbrev item_of : Uuid → Uuid → CheckoutLine → ℤ → CartItem
item_of t cart line quantity = record {
  tenant_id = t;
  cart_id = cart;
  item_id = line.item_id;
  quantity = quantity;
  modifiers = or_default line.modifiers [];
}

-- The column is an integer, and ck_cart_items_qty wants it above 0.
abbrev insert_item : Uuid → Uuid → CheckoutLine → Number → Shop → Result CartItem × Shop
insert_item t cart line (integer (pos (suc n))) db =
    let item = item_of t cart line (pos (suc n)) in
    (ok item, record db { cart_items = db.cart_items ++ item ∷ [] })
insert_item t cart line (integer _) db = (err (database check_violation), db)
insert_item t cart line other db = (err (database invalid_text_representation), db)

abbrev pub close_cart : Uuid → Uuid → Shop → Shop
close_cart t cart db = record db {
  carts = update t (λ c. c.id == cart) (λ c. record c { status = checked_out }) db.carts;
}

abbrev pub on_base : {X A : Type 0} → Action Tables X A → Action Shop X A
on_base m w =
    let (r, v) = m (record { db = w.db.base; outside = w.outside }) in
    (r, record { db = record w.db { base = v.db }; outside = v.outside })

module _ {X : Type 0} where
  unfoldable pub create_cart : String → Uuid → Uuid → Action Shop X Cart
  create_cart tenant_id id branch = with_tenant tenant_id (λ t. statement (λ db.
      let cart : Cart = record { id = id; tenant_id = t; branch_id = branch; status = active } in
      (ok cart, record db { carts = db.carts ++ cart ∷ [] })))

  unfoldable pub add_item : String → Uuid → CheckoutLine → Action Shop X CartItem
  add_item tenant_id cart line =
      with_tenant tenant_id (λ t. statement (insert_item t cart line line.quantity))

  unfoldable pub cart_lines : String → Uuid → Action Shop X (List CheckoutLine)
  cart_lines tenant_id cart = with_tenant tenant_id (λ t. query (lines_in t cart))

  unfoldable pub close : String → Uuid → Action Shop X (Unit {0})
  close tenant_id cart = with_tenant tenant_id (λ t. execute (close_cart t cart))

abbrev pub ShopAction : Services → Type 0 → Type 0
ShopAction s A = Action Shop (Outside s.payments.State s.NotifierState) A

module _ (s : Services) where
  unfoldable pub quote_cart : String → Uuid → ℤ → ShopAction s OrderTotals
  unfolding cart_lines
  quote_cart tenant_id cart fee =
      cart_lines tenant_id cart >>= λ lines. on_base (quote s tenant_id lines fee)

  unfoldable pub checkout_cart : String → Uuid → CartCheckout → Draws → ShopAction s Order
  unfolding cart_lines close
  checkout_cart tenant_id cart opts d = do
    lines ← cart_lines tenant_id cart
    order ← on_base (checkout s tenant_id (input_of opts lines) d)
    close tenant_id cart
    pure order
