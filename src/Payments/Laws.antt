-- ===== src/Payments/Laws.antt =====
-- What orders rely on in a payment provider, and that the offline provider of
-- src/modules/payments/fake-payment-provider.ts keeps to it.
-- A call that succeeds leaves the intent at the status that it is named for.
use peer_core.Payments.Fake.{FakeState, fake}
use peer_core.Payments.{refunded, voided, captured, PaymentIntent, PaymentProvider}
use peer_core.Base.{arith, ◌≡◌, String}
use peer_core.Payments.Fake
use peer_core.Action.{ok}

pub record IsTwoPhase (p : PaymentProvider) : Type 0 where
  pub captures :
      (ref : String) (st : p.State) (i : PaymentIntent)
      → (p.capture ref st).0 ≡ ok i
      → i.status ≡ captured
  pub voids :
      (ref : String) (st : p.State) (i : PaymentIntent)
      → (p.void ref st).0 ≡ ok i
      → i.status ≡ voided
  pub refunds :
      (ref : String) (st : p.State) (i : PaymentIntent)
      → (p.refund ref st).0 ≡ ok i
      → i.status ≡ refunded

capture-status :
    (ref : String) (s : FakeState) {i : PaymentIntent}
    → (Fake.capture ref s).0 ≡ ok i
    → i.status ≡ captured
unfolding Fake.capture
capture-status ref s h = ground arith

void-status :
    (ref : String) (s : FakeState) {i : PaymentIntent}
    → (Fake.void ref s).0 ≡ ok i
    → i.status ≡ voided
unfolding Fake.void
void-status ref s h = ground arith

refund-status :
    (ref : String) (s : FakeState) {i : PaymentIntent}
    → (Fake.refund ref s).0 ≡ ok i
    → i.status ≡ refunded
unfolding Fake.refund
refund-status ref s h = ground arith

-- The offline provider: a `capture`, `void` or `refund` that succeeds returns the intent with the
-- status captured, voided or refunded.
pub fake-IsTwoPhase : IsTwoPhase fake
fake-IsTwoPhase = record {
  captures = λ ref s i. capture-status ref s;
  voids = λ ref s i. void-status ref s;
  refunds = λ ref s i. refund-status ref s;
}
