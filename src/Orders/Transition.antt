-- ===== src/Orders/Transition.antt =====
-- The transitions of src/vertical/restaurants/order.service.ts: accept, reject, cancel, advance.
pub mod Effect
pub mod Settles
pub mod Stale
pub mod Progress
use peer_core.Base.{
  [], ◌∷◌, none, some, true, false, refl, zero, suc, inl, inr, Option, find, ap, ◌/◌, not,
  or_default, ◌++◌, str_eq, is_truthy, ltb, ◌&&◌, ◌==◌, ◌+◌, if◌then◌else◌, truthy, List, String,
  Bool, ℕ,
}
use peer_core.Orders.Tables.{
  CatalogItem-scoped, MenuAvailability-scoped, Branch-scoped, Promotion-scoped, Order-scoped,
  OrderItem-scoped, OrderEvent-scoped, LoyaltyAccount-scoped, Payment, Tables, LoyaltyAccount,
  OrderEvent, Order, PaymentAction,
}
use peer_core.Action.{
  ok, err, statement, execute, call, or_err, consult, throw_if, ◌>>=◌, ◌>>◌, Result, pure,
}
use peer_core.Base.Int.{pos, negsuc, pos_part}
use peer_core.Errors.{OrderCode, order_error}
use peer_core.Tenancy.Rows.{update, select_one, update_returning}
use peer_core.Orders.Services.{on_psp, OrderAction, Services}
use peer_core.Orders.State.{can_transition, complete, cancelled, same_status, OrderStatus}
use peer_core.Payments.{PaymentIntent, captured, PaymentStatus}
use peer_core.Tenancy.{Uuid}

pub data Money : Type 0 where
  capture void refund : Money

abbrev pub with_status : OrderStatus → Order → Order
with_status st o = record o { status = st }

abbrev pub with_payment : PaymentStatus → Order → Order
with_payment st o = record o { payment_status = st }

-- `load`
unfoldable pub load : Uuid → Uuid → Tables → Result Order
load t order_id db =
    or_err (select_one t (λ o. o.id == order_id) db.orders) (order_error OrderCode.not_found)

-- The optimistic lock: the row must still have the status that was loaded.
abbrev pub unchanged : Order → Order → Bool
unchanged order r = (r.id == order.id) && same_status r.status order.status

unfoldable pub claim : Uuid → Order → OrderStatus → Tables → Result Order × Tables
claim t order to db =
    let (claimed, rows) = update_returning t (unchanged order) (with_status to) db.orders in
    (or_err claimed (order_error OrderCode.conflict), record db { orders = rows })

unfoldable pub reprice : Uuid → Order → PaymentStatus → Order → Tables → Result Order × Tables
reprice t order st claimed db =
    let (repriced, rows) = update_returning t (λ r. r.id == order.id) (with_payment st) db.orders in
    (ok (or_default repriced (with_payment st claimed)), record db { orders = rows })

abbrev pub payment_row :
    Uuid → Order → PaymentAction → String → Option String → PaymentStatus → Payment
payment_row t order act provider ref st = record {
  tenant_id = t;
  order_id = order.id;
  action = act;
  amount_minor = order.total_minor;
  provider = provider;
  provider_ref = ref;
  status = st;
}

abbrev add_points : ℕ → LoyaltyAccount → LoyaltyAccount
add_points points a = record a { points = a.points + points }

-- The upsert on (tenant_id, diner_phone).
unfoldable pub upsert_points : Uuid → String → ℕ → List LoyaltyAccount → List LoyaltyAccount
upsert_points t phone points accounts =
    elim (select_one t (λ a. str_eq a.diner_phone phone) accounts) [
      | none ↦ accounts ++ record { tenant_id = t; diner_phone = phone; points = points } ∷ []
      | some a ↦ update t (λ a. str_eq a.diner_phone phone) (add_points points) accounts
    ]

unfoldable pub award : Uuid → Order → String → ℕ → Tables → Tables
unfolding upsert_points
award t order phone points db =
    if ltb 0 points
    then record db {
      loyalty_accounts = upsert_points t phone points db.loyalty_accounts;
      loyalty_ledger =
          db.loyalty_ledger
          ++ record {
            tenant_id = t;
            diner_phone = phone;
            order_id = order.id;
            delta = points;
            reason = "order_complete";
          }
            ∷ [];
    }
    else db

-- One point per riyal when an order completes; a total is at least 0 by ck_orders_money.
unfoldable pub loyalty : Uuid → Order → OrderStatus → Tables → Tables
unfolding award
loyalty t order to db = elim (truthy order.diner_phone) [
  | none ↦ db
  | some phone ↦
      if same_status to complete
      then award t order phone (pos_part order.total_minor / 100) db
      else db
]

abbrev pub moved_event : Uuid → Order → OrderStatus → OrderEvent
moved_event t order to = record {
  tenant_id = t;
  order_id = order.id;
  from_status = some order.status;
  to_status = to;
}

abbrev pub order_money : PaymentStatus → Money
order_money captured = refund
order_money _ = void

abbrev pub action_of : Money → PaymentAction
action_of capture = PaymentAction.capture
action_of void = PaymentAction.void
action_of refund = PaymentAction.refund

module _ (s : Services) where
  -- `this.payments[money]`
  abbrev pub money_call :
      Money → String → s.payments.State → Result PaymentIntent × s.payments.State
  money_call capture = s.payments.capture
  money_call void = s.payments.void
  money_call refund = s.payments.refund

  -- `if (money && order.paymentRef)`
  abbrev pub money_step : Option Money → Option String → Option (Money × String)
  money_step none ref = none
  money_step (some m) none = none
  money_step (some m) (some ref) = if is_truthy ref then some (m, ref) else none

  abbrev pub move_money : Uuid → Order → Order → Option (Money × String) → OrderAction s Order
  move_money t order claimed none = pure claimed
  move_money t order claimed (some (m, ref)) = do
    intent ← call (on_psp (money_call m ref))
    execute (λ db. record db {
      payments =
          db.payments
          ++ payment_row t order (action_of m) s.payments.name order.payment_ref intent.status ∷ [];
    })
    statement (reprice t order intent.status claimed)

  unfoldable pub apply_transition : Uuid → Order → OrderStatus → Option Money → OrderAction s Order
  unfolding claim reprice
  apply_transition t order to money = do
    throw_if (not (can_transition order.status to)) (order_error OrderCode.illegal_transition)
    claimed ← statement (claim t order to)
    updated ← move_money t order claimed (money_step money order.payment_ref)
    execute (λ db. record db { order_events = db.order_events ++ moved_event t order to ∷ [] })
    execute (loyalty t order to)
    pure updated

  -- The transaction of `transition`.
  unfoldable pub transition_in : Uuid → Uuid → OrderStatus → Option Money → OrderAction s Order
  unfolding load apply_transition
  transition_in t order_id to money = do
    order ← consult (load t order_id)
    apply_transition t order to money

  -- The transaction of `cancel`.
  unfoldable pub cancel_in : Uuid → Uuid → OrderAction s Order
  unfolding load apply_transition
  cancel_in t order_id = do
    order ← consult (load t order_id)
    apply_transition t order cancelled (some (order_money order.payment_status))
