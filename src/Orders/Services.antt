-- ===== src/Orders/Services.antt =====
-- What `OrderService` is constructed with: the payment provider, and the notifier that it may
-- have. Both keep a state of their own, which no transaction covers.
use peer_core.Payments.{PaymentProvider}
use peer_core.Base.{String, Option}
use peer_core.Orders.Tables.{
  Tables, CatalogItem-scoped, MenuAvailability-scoped, Branch-scoped, Promotion-scoped,
  Order-scoped, OrderItem-scoped, OrderEvent-scoped, LoyaltyAccount-scoped,
}
use peer_core.Action.{Action, World, Result}

pub data Channel : Type 0 where
  sms whatsapp : Channel

pub record NotifyInput : Type 0 where
  pub recipient : String
  pub channel : Channel
  pub event : String
  pub body : String
  pub dedupe_key : Option String

pub record Services : Type 1 where
  pub payments : PaymentProvider
  pub NotifierState : Type 0
  pub notifier : Option (String → NotifyInput → NotifierState → Result (Unit {0}) × NotifierState)

pub record Outside (P N : Type 0) : Type 0 where
  pub psp : P
  pub notes : N

abbrev pub OrderWorld : Services → Type 0
OrderWorld s = World Tables (Outside s.payments.State s.NotifierState)

abbrev pub OrderAction : Services → Type 0 → Type 0
OrderAction s A = Action Tables (Outside s.payments.State s.NotifierState) A

module _ {P N A : Type 0} where
  abbrev pub on_psp : (P → Result A × P) → Outside P N → Result A × Outside P N
  on_psp f o = let (r, p) = f o.psp in (r, record o { psp = p })

  abbrev pub on_notes : (N → Result A × N) → Outside P N → Result A × Outside P N
  on_notes f o = let (r, n) = f o.notes in (r, record o { notes = n })
