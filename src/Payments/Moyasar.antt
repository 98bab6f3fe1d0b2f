-- ===== src/Payments/Moyasar.antt =====
-- src/modules/payments/moyasar-payment-provider.ts. The gateway is a parameter.
use Prim.Native.String.{◌++◌}
use peer_core.Base.{ℕ, String, Option, none, some, ◌==◌, str_eq, if◌then◌else◌}
use peer_core.Base.Int.{ℤ}
use peer_core.Errors.{payment_error, PaymentCode}
use peer_core.Action.{Result, ok, err}
use peer_core.Payments.{
  PaymentStatus, authorized, captured, voided, refunded, AuthorizeRequest, PaymentIntent,
  PaymentProvider,
}

-- What the gateway answers: a failure with its HTTP status, or the parsed body.
pub record Body : Type 0 where
  pub id : String
  pub status : String
  pub amount : ℤ

pub data Response : Type 0 where
  failed : ℕ → Response
  done : Body → Response

-- A POST to a path, with the request that becomes the body; `fetch` runs it.
pub record Gateway : Type 1 where
  pub State : Type 0
  pub fetch : String → Option AuthorizeRequest → State → Response × State

unfoldable pub map_status : String → Result PaymentStatus
map_status s =
    if str_eq s "authorized"
    then ok authorized
    else if str_eq s "paid"
    then ok captured
    else if str_eq s "captured"
    then ok captured
    else if str_eq s "voided"
    then ok voided
    else if str_eq s "refunded"
    then ok refunded
    else err (payment_error PaymentCode.declined)

abbrev to_intent : Response → Result PaymentIntent
to_intent (failed code) =
    err (payment_error (if code == 404 then PaymentCode.not_found else PaymentCode.declined))
to_intent (done b) = elim (map_status b.status) [
  | ok st ↦ ok (record { ref = b.id; status = st; amount_minor = b.amount })
  | err e ↦ err e
]

module _ (g : Gateway) where
  -- `call`, and the conversion that follows it in each method.
  abbrev pub call : String → Option AuthorizeRequest → g.State → Result PaymentIntent × g.State
  call path body s = let (r, s') = g.fetch path body s in (to_intent r, s')

  abbrev pub moyasar : PaymentProvider
  moyasar = record {
    State = g.State;
    name = "moyasar";
    authorize = λ uuid req. call "/payments" (some req);
    capture = λ ref. call ("/payments/" ++ ref ++ "/capture") none;
    void = λ ref. call ("/payments/" ++ ref ++ "/void") none;
    refund = λ ref. call ("/payments/" ++ ref ++ "/refund") none;
  }
