-- ===== src/Orders/Tests.antt =====
-- Runs of the restaurant's order code, and its theorems at the sample database.
use peer_core.Orders.History.{
  run-IsSpared, run-IsConsistent, OrderCall, run, check_out, accept_order, advance_order,
  cancel_order, reject_order,
}
use peer_core.Base.Int.{◌+ℤ◌, int_laws, ◌≤ℤ◌, pos}
use peer_core.Orders.Checkout.{existing_order, insert_order, checkout_in}
use peer_core.Orders.Checkout.Repeat.{checkout_in-repeat}
use peer_core.Payments.Laws.{fake-IsTwoPhase}
use peer_core.Orders.Transition.Stale.{apply_transition-stale}
use peer_core.Orders.Transition.Progress.{advance-unpaid, money-progress}
use peer_core.Orders.Keys.{with_id}
use peer_core.Orders.Hours.Windows.{as_texts, is_open_at-covers}
use peer_core.Orders.Lines.{resolve_lines}
use peer_core.Orders.Isolation.{others}
use peer_core.Tenancy.Rows.{update, select_one}
use peer_core.Orders.Invariant.{IsConsistent}
use peer_core.Orders.Pricing.{integer, OrderTotals, PriceLineInput, compute_totals}
use peer_core.Orders.Moves.{moves, rank_in}
use peer_core.Orders.Moves.Counted.{run-moves}
use peer_core.Orders.Hours.{is_open_at, Hours}
use peer_core.Orders.Services.{OrderWorld}
use peer_core.Orders.Pricing.Totals.{
  compute_totals-ok_iff, IsPriceable, compute_totals-IsBill, compute_totals-discount_mono, IsBill,
}
use peer_core.Payments.Fake
use peer_core.Orders.Transition.{apply_transition, unchanged, transition_in, Money}
use peer_core.Errors.{order_error, OrderCode}
use peer_core.Base.{List, arith, All, ◌↔◌, [], ◌∷◌, none, some, true, refl, ◌≡◌, ◌≤◌}
use peer_core.Orders.Tables.{
  Order, CatalogItem-scoped, MenuAvailability-scoped, Branch-scoped, Promotion-scoped, Order-scoped,
  OrderItem-scoped, OrderEvent-scoped, LoyaltyAccount-scoped,
}
use peer_core.Action.{ok, err}
use peer_core.Payments.{authorized, captured}
use peer_core.Orders.State.{preparing, new, rejected, can_transition, accepted}
use peer_core.Orders.Samples.{
  tables-IsConsistent, draws, tables, order, intent, request, held, order_at, world, uuid_text,
  tenant, services,
}
use peer_core.Orders.Notify.{accept}
use peer_core.Tenancy.{with_tenant, uuid_of}

found : uuid_of tenant ≡ some 7
unfolding uuid_of
found = refl

accept-run : (accept services uuid_text tenant 1 world).0 ≡ ok (order_at 7 1 accepted captured)
unfolding accept with_tenant uuid_of transition_in select_one can_transition Fake.capture update
accept-run = refl

found_order : select_one 7 (with_id 1) tables.orders ≡ some order
unfolding select_one
found_order = refl

abbrev calls : List OrderCall
calls =
    check_out tenant request draws
    ∷ accept_order tenant 1
    ∷ advance_order tenant 2 preparing
    ∷ cancel_order tenant 1
    ∷ reject_order tenant 4
    ∷ []

run-IsConsistent_example : IsConsistent (run services uuid_text calls world).db
run-IsConsistent_example =
    run-IsConsistent services fake-IsTwoPhase uuid_text calls world (tt, (tt, (tt, (tt, (tt, tt)))))
      tables-IsConsistent

run-IsSpared_example : others 7 (run services uuid_text calls world).db ≡ others 7 tables
run-IsSpared_example =
    run-IsSpared services uuid_text 7 calls world (found, (found, (found, (found, (found, tt)))))

tables-IsPaced : moves 7 1 tables.order_events ≤ rank_in 7 1 tables.orders
unfolding select_one
tables-IsPaced = omega arith

run-moves_example :
    (moves 7 1 (run services uuid_text calls world).db.order_events
      ≤ rank_in 7 1 (run services uuid_text calls world).db.orders)
    × (moves 7 1 (run services uuid_text calls world).db.order_events ≤ 6)
run-moves_example = run-moves services uuid_text 7 1 calls world tables-IsPaced

abbrev sold : Order
sold = record (order_at 7 4 new authorized) {
  subtotal_minor = 4000;
  vat_minor = 600;
  total_minor = pos 4600;
  payment_ref = some "auth_u2";
  idempotency_key = some "fresh";
}

-- What the sample checkout leaves.
abbrev after : OrderWorld services
after = (checkout_in services 7 request draws world).1

checkout_in-run : checkout_in services 7 request draws world ≡ (ok sold, after)
unfolding checkout_in select_one resolve_lines compute_totals Fake.authorize insert_order
    existing_order ◌+ℤ◌
checkout_in-run = refl

-- The second request asks for something else.
checkout_in-repeat_example :
    checkout_in services 7
      (record request { lines = []; promo_code = some "X" })
      (record draws { order_id = 9 })
      after
    ≡ (ok sold, after)
checkout_in-repeat_example =
    checkout_in-repeat services 7 request (record request { lines = []; promo_code = some "X" })
      draws (record draws { order_id = 9 }) "fresh" world after sold refl refl checkout_in-run

-- The order as another request loaded it before it was accepted.
stale : select_one 7 (unchanged (order_at 7 2 new authorized)) tables.orders ≡ none
unfolding select_one
stale = refl

apply_transition-stale_example :
    apply_transition services 7 (order_at 7 2 new authorized) rejected (some Money.void) world
    ≡ (err (order_error OrderCode.conflict), world)
unfolding can_transition
apply_transition-stale_example =
    apply_transition-stale services 7 (order_at 7 2 new authorized) rejected (some Money.void) world
      stale

legal_accept : can_transition new accepted ≡ true
unfolding can_transition
legal_accept = refl

capture_ok : (Fake.capture "auth_a" held).0 ≡ ok (record intent { status = captured })
unfolding Fake.capture
capture_ok = refl

money-progress_example :
    (transition_in services 7 1 accepted (some Money.capture) world).0
    ≡ ok (order_at 7 1 accepted captured)
money-progress_example =
    money-progress services 7 order accepted world found_order legal_accept Money.capture "auth_a"
      (record intent { status = captured }) refl refl capture_ok

advance-unpaid_example :
    let (r, w) = transition_in services 7 1 accepted none world in
    (r ≡ ok (order_at 7 1 accepted authorized)) × (w.outside ≡ world.outside) × ¬ IsConsistent w.db
advance-unpaid_example =
    advance-unpaid services 7 order world found_order refl refl tables-IsConsistent

-- Two portions with a spice that costs 150 more, 500 of delivery, and 300 off.
abbrev line : PriceLineInput
line = record {
  unit_price_minor = 2000;
  quantity = integer (pos 2);
  modifiers = record { name = "spice"; price_delta_minor = pos 150 } ∷ [];
}

abbrev bill : OrderTotals
bill = record {
  subtotal_minor = 4300;
  discount_minor = 300;
  vat_minor = 600;
  total_minor = pos 5100;
  lines = record { effective_unit_minor = 2150; line_total_minor = 4300 } ∷ [];
}

bill-run : compute_totals (line ∷ []) (pos 500) (pos 300) ≡ ok bill
unfolding compute_totals ◌+ℤ◌
bill-run = refl

compute_totals-IsBill_example : IsBill (line ∷ []) (pos 500) (pos 300) bill
compute_totals-IsBill_example = compute_totals-IsBill (line ∷ []) (pos 500) (pos 300) bill-run

compute_totals-ok_iff_example :
    ((t : OrderTotals) × (compute_totals (line ∷ []) (pos 500) (pos 300) ≡ ok t))
    ↔ All IsPriceable (line ∷ [])
compute_totals-ok_iff_example = compute_totals-ok_iff (line ∷ []) (pos 500) (pos 300)

abbrev dearer : OrderTotals
dearer = record bill { discount_minor = 0; vat_minor = 645; total_minor = pos 5445 }

dearer-run : compute_totals (line ∷ []) (pos 500) (pos 0) ≡ ok dearer
unfolding compute_totals ◌+ℤ◌
dearer-run = refl

compute_totals-discount_mono_example : pos 5100 ≤ℤ pos 5445
compute_totals-discount_mono_example =
    compute_totals-discount_mono (line ∷ []) (pos 500) (pos 0) (pos 300) (omega int_laws) dearer-run
      bill-run

-- Thursday from 18:00 to 02:00; the instant is 1970-01-01, 23:00 in Riyadh.
abbrev night : Hours
night = ("thu", as_texts ((1080, 120) ∷ [])) ∷ []

is_open_at-covers_example : is_open_at night 72000000 ≡ true
is_open_at-covers_example =
    is_open_at-covers night 72000000 ((1080, 120) ∷ []) ((omega arith, omega arith), tt) refl
