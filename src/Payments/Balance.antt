-- ===== src/Payments/Balance.antt =====
-- The methods of src/modules/payments/fake-payment-provider.ts that move money, one after the other.
use peer_core.Payments.Fake
use peer_core.Payments.Fake.{FakeState, same_status}
use peer_core.Payments.{PaymentStatus, PaymentIntent, authorized, captured, voided, refunded}
use peer_core.Action.{Result, ok, err}
use peer_core.Base.{
  lookup, lookup-insert, eq_iff, false, true, if◌then◌else◌, Bool, arith, ◌≡◌, String, str_eq, List,
  Option, Option-cases, inl, inr, none, some, [], ◌∷◌, ℕ, ◌+◌, ◌&&◌,
}

-- The calls that move money; each stands for the method of its name.
pub data Call : Type 0 where
  capture void refund : Call

abbrev fake_call : Call → String → FakeState → Result PaymentIntent × FakeState
fake_call capture = Fake.capture
fake_call void = Fake.void
fake_call refund = Fake.refund

abbrev pub run_calls : List (Call × String) → FakeState → FakeState
run_calls [] s = s
run_calls ((c, r) ∷ cs) s = run_calls cs (fake_call c r s).1

abbrev pub is_capture : Call → Bool
is_capture capture = true
is_capture _ = false

abbrev pub is_void : Call → Bool
is_void void = true
is_void _ = false

abbrev pub is_refund : Call → Bool
is_refund refund = true
is_refund _ = false

abbrev pub returned : Result PaymentIntent → Bool
returned (ok i) = true
returned (err x) = false

abbrev pub one : Bool → ℕ
one b = if b then 1 else 0

-- How many calls of a kind on the intent `ref` return.
abbrev pub count : (Call → Bool) → String → List (Call × String) → FakeState → ℕ
count kind ref [] s = 0
count kind ref ((c, r) ∷ cs) s =
    one (kind c && str_eq r ref && returned (fake_call c r s).0)
    + count kind ref cs (fake_call c r s).1

abbrev standing : PaymentStatus → Option PaymentIntent → ℕ
standing st none = 0
standing st (some i) = one (same_status i.status st)

-- 1 if the intent stands at the status, 0 if not.
abbrev pub stands_at : PaymentStatus → String → FakeState → ℕ
stands_at st ref s = standing st (lookup ref s.intents)

-- What the calls of a kind that return are, on the intents.
abbrev Step : Call → String → String → FakeState → Type 0
Step c r ref s =
    (stands_at authorized ref (fake_call c r s).1
        + one (is_capture c && str_eq r ref && returned (fake_call c r s).0)
        + one (is_void c && str_eq r ref && returned (fake_call c r s).0)
      ≡ stands_at authorized ref s)
    × (stands_at captured ref (fake_call c r s).1
          + one (is_refund c && str_eq r ref && returned (fake_call c r s).0)
        ≡ stands_at captured ref s
          + one (is_capture c && str_eq r ref && returned (fake_call c r s).0))

step : (c : Call) (r ref : String) (s : FakeState) → Step c r ref s
unfolding Fake.capture Fake.void Fake.refund
step capture r ref s = elim (Option-cases (lookup r s.intents)) [
  | inl e ↦ ground (arith, e)
  | inr (i, e) ↦
      let stored = lookup-insert r ref (record i { status = captured }) s.intents in
      ground (arith, eq_iff r ref, stored, e)
]
step void r ref s = elim (Option-cases (lookup r s.intents)) [
  | inl e ↦ ground (arith, e)
  | inr (i, e) ↦
      let stored = lookup-insert r ref (record i { status = voided }) s.intents in
      ground (arith, eq_iff r ref, stored, e)
]
step refund r ref s = elim (Option-cases (lookup r s.intents)) [
  | inl e ↦ ground (arith, e)
  | inr (i, e) ↦
      let stored = lookup-insert r ref (record i { status = refunded }) s.intents in
      ground (arith, eq_iff r ref, stored, e)
]

-- For any sequence of calls of capture, void and refund of the offline provider, on any
-- intents, from any state, and any intent: whether it is authorized after them, its captures
-- and its voids that returned add up to whether it was authorized before them, each counted as
-- 1; and whether it is captured after them, with its refunds that returned, adds up to whether
-- it was captured before them, with its captures that returned.
pub run_calls-balance :
    (cs : List (Call × String)) (ref : String) (s : FakeState)
    → (stands_at authorized ref (run_calls cs s)
          + count is_capture ref cs s
          + count is_void ref cs s
        ≡ stands_at authorized ref s)
      × (stands_at captured ref (run_calls cs s) + count is_refund ref cs s
          ≡ stands_at captured ref s + count is_capture ref cs s)
run_calls-balance [] ref s = (omega arith, omega arith)
run_calls-balance ((c, r) ∷ cs) ref s =
    let (holds, takings) = run_calls-balance cs ref (fake_call c r s).1 in
    let (held, taken) = step c r ref s in
    (omega (arith, holds, held), omega (arith, takings, taken))
