-- ===== src/Deliveries/Tests.antt =====
-- A ledger with one settled earning and one open.
use peer_core.Base.{
  ◌&&◌, [], ◌∷◌, none, some, true, false, refl, ap, ◌==◌, ℕ, str_eq, Bool, arith, ◌≡◌, ◌≢◌, List,
  String,
}
use peer_core.Action.{ok, World}
use peer_core.Base.Int.{pos}
use peer_core.Tenancy.Rows.{select}
use peer_core.Tenancy.{with_tenant, uuid_of}
use peer_core.Deliveries.{for_order, DeliveryTables, DriverEarning, owed, DriverEarning-scoped}
use peer_core.Orders.Pricing.{integer}
use peer_core.Deliveries.Settled.{
  run-HasSettled, run, DeliveryCall, HasSettled, assign_driver, settle_driver,
}

abbrev open_earning : DriverEarning
open_earning = record {
  tenant_id = 7;
  driver_phone = "+1";
  order_id = some 1;
  amount_minor = 500;
  settled = false;
  settled_at = none;
}

abbrev closed : DriverEarning
closed = record open_earning { order_id = some 2; settled = true; settled_at = some 9 }

abbrev tenant : String
tenant = "00000000-0000-0000-0000-000000000007"

abbrev start : World DeliveryTables ℕ
start = record {
  db = record { deliveries = []; driver_earnings = open_earning ∷ closed ∷ [] };
  outside = 0;
}

owed_run : (owed tenant "+1" start).0 ≡ ok 500
unfolding owed with_tenant uuid_of select
owed_run = refl

tenant_read : uuid_of tenant ≡ some 7
unfolding uuid_of
tenant_read = refl

apart : ◌≢◌ {A = String} "+1" "+2"
apart h = absurd (ground (arith, ap (λ s. str_eq s "+1") h))

abbrev calls : List DeliveryCall
calls =
    assign_driver tenant 5 2 (record { name = "B"; phone = "+2" }) (integer (pos 100))
    ∷ settle_driver tenant "+1" 50
    ∷ []

abbrev is_old : DriverEarning → Bool
is_old e = (e.amount_minor == 500) && for_order 2 e

run-HasSettled_example : HasSettled is_old (run calls start).db
run-HasSettled_example = run-HasSettled is_old calls start (record { row = refl })
