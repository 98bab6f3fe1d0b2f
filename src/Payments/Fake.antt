-- ===== src/Payments/Fake.antt =====
-- src/modules/payments/fake-payment-provider.ts. The intents are mutable objects that the map
-- shares with the callers; a caller reads the status at once, so a copy is returned.
use Prim.Native.String.{◌++◌}
use peer_core.Base.{
  String, Bool, true, false, Option, none, some, Map, [], lookup, insert, truthy, if◌then◌else◌,
}
use peer_core.Base.Int.{pos, ltb_ℤ}
use peer_core.Errors.{payment_error, plain, PaymentCode}
use peer_core.Action.{Result, ok, err}
use peer_core.Payments.{
  PaymentStatus, authorized, captured, voided, refunded, AuthorizeRequest, PaymentIntent,
  PaymentProvider,
}

pub record FakeState : Type 0 where
  pub intents : Map PaymentIntent
  pub by_key : Map String
  pub fail_next : Bool

abbrev pub init : FakeState
init = record { intents = []; by_key = []; fail_next = false }

-- A call may write before it throws, so the state comes back either way.
abbrev pub Outcome : Type 0
Outcome = Result PaymentIntent × FakeState

open_intent : String → AuthorizeRequest → FakeState → Outcome
open_intent ref req s = (
  ok intent,
  record s {
    intents = insert ref intent s.intents;
    by_key = insert req.idempotency_key ref s.by_key;
  },
)
  where
    intent : PaymentIntent
    intent = record { ref = ref; status = authorized; amount_minor = req.amount_minor }

-- `this.intents.get(existingRef)!`: a missing intent would be a TypeError of the caller.
abbrev asserted : Option PaymentIntent → Result PaymentIntent
asserted none = err plain
asserted (some i) = ok i

-- `uuid` is what `randomUUID()` draws.
unfoldable pub authorize : String → AuthorizeRequest → FakeState → Outcome
unfolding open_intent
authorize uuid req s =
    if s.fail_next
    then (err (payment_error PaymentCode.declined), record s { fail_next = false })
    else elim (truthy (lookup req.idempotency_key s.by_key)) [
      | some ref ↦ (asserted (lookup ref s.intents), s)
      | none ↦
          if ltb_ℤ (pos 0) req.amount_minor
          then open_intent ("auth_" ++ uuid) req s
          else (err (payment_error PaymentCode.declined), s)
    ]

abbrev pub same_status : PaymentStatus → PaymentStatus → Bool
same_status authorized authorized = true
same_status captured captured = true
same_status voided voided = true
same_status refunded refunded = true
same_status _ _ = false

-- The common shape of the three methods below: the intent must stand at `from`, and goes to `to`.
move : PaymentStatus → PaymentStatus → String → FakeState → Outcome
move from to ref s = elim (lookup ref s.intents) [
  | none ↦ (err (payment_error PaymentCode.not_found), s)
  | some i ↦
      let moved : PaymentIntent = record i { status = to } in
      if same_status i.status from
      then (ok moved, record s { intents = insert ref moved s.intents })
      else (err (payment_error PaymentCode.illegal_transition), s)
]

unfoldable pub capture : String → FakeState → Outcome
unfolding move
capture = move authorized captured

unfoldable pub void : String → FakeState → Outcome
unfolding move
void = move authorized voided

unfoldable pub refund : String → FakeState → Outcome
unfolding move
refund = move captured refunded

abbrev pub fake : PaymentProvider
fake = record {
  State = FakeState;
  name = "fake";
  authorize = authorize;
  capture = capture;
  void = void;
  refund = refund;
}
