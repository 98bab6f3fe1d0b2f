-- ===== src/Payments/Tests.antt =====
-- The offline payment provider at one intent.
use peer_core.Payments.Fake
use peer_core.Payments.Balance.{
  Call, run_calls, run_calls-balance, count, is_capture, is_void, is_refund, stands_at,
}
use peer_core.Payments.{captured, authorized, PaymentIntent}
use peer_core.Payments.Fake.{FakeState}
use peer_core.Base.{String, List, ◌+◌, ◌≡◌, [], ◌∷◌, false, refl}
use peer_core.Orders.Tables.{
  CatalogItem-scoped, MenuAvailability-scoped, Branch-scoped, Promotion-scoped, Order-scoped,
  OrderItem-scoped, OrderEvent-scoped, LoyaltyAccount-scoped,
}
use peer_core.Base.Int.{pos}

abbrev paid_intent : PaymentIntent
paid_intent = record { ref = "auth_a"; status = authorized; amount_minor = pos 2300 }

abbrev held : FakeState
held = record { intents = ("auth_a", paid_intent) ∷ []; by_key = []; fail_next = false }

-- Two captures, a refund and a void of the same intent.
abbrev calls : List (Call × String)
calls =
    (Call.capture, "auth_a")
    ∷ (Call.capture, "auth_a")
    ∷ (Call.refund, "auth_a")
    ∷ (Call.void, "auth_a")
    ∷ []

run_calls-balance_example :
    (stands_at authorized "auth_a" (run_calls calls held)
        + count is_capture "auth_a" calls held
        + count is_void "auth_a" calls held
      ≡ 1)
    × (stands_at captured "auth_a" (run_calls calls held) + count is_refund "auth_a" calls held
        ≡ 0 + count is_capture "auth_a" calls held)
unfolding Fake.capture
run_calls-balance_example = run_calls-balance calls "auth_a" held

calls_captured : count is_capture "auth_a" calls held ≡ 1
unfolding Fake.capture Fake.void Fake.refund
calls_captured = refl

calls_refunded : count is_refund "auth_a" calls held ≡ 1
unfolding Fake.capture Fake.void Fake.refund
calls_refunded = refl
