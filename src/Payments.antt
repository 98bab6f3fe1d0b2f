-- ===== src/Payments.antt =====
-- src/modules/payments/payment-provider.ts: the two-phase contract that orders depend on.
pub mod Fake
pub mod Moyasar
pub mod Laws
pub mod Balance
mod Tests
use peer_core.Base.{String}
use peer_core.Base.Int.{ℤ}
use peer_core.Action.{Result}

pub data PaymentStatus : Type 0 where
  authorized captured voided refunded : PaymentStatus

-- `source` is passed through to the gateway, and left out.
pub record AuthorizeRequest : Type 0 where
  pub amount_minor : ℤ
  pub currency : String
  pub idempotency_key : String

pub record PaymentIntent : Type 0 where
  pub ref : String
  pub status : PaymentStatus
  pub amount_minor : ℤ

-- The methods change the provider's own state. `authorize` is handed the UUID that it may draw.
pub record PaymentProvider : Type 1 where
  pub State : Type 0
  pub name : String
  pub authorize : String → AuthorizeRequest → State → Result PaymentIntent × State
  pub capture : String → State → Result PaymentIntent × State
  pub void : String → State → Result PaymentIntent × State
  pub refund : String → State → Result PaymentIntent × State
