-- ===== src/Restaurants/Tests.antt =====
-- A branch whose minimum is raised, and a table that is added.
use peer_core.Tenancy.Rows.{select_one}
use peer_core.Restaurants.{Venue, branch_info, BranchPatch, add_table, hours_for_day, update_branch}
use peer_core.Base.{ℕ, ◌==◌, ◌≡◌, [], none, some, refl}
use peer_core.Action.{World, ok, err}
use peer_core.Base.Int.{pos, negsuc}
use peer_core.Tenancy.{uuid_of, with_tenant}
use peer_core.Orders.Samples.{tables, tenant, branch}
use peer_core.Orders.Tables.{Tables, Branch-scoped}
use peer_core.Orders.Pricing.{integer}
use peer_core.Errors.{validation_error, invalid_input}

abbrev start : World Tables ℕ
start = record { db = tables; outside = 0 }

abbrev dearer : BranchPatch
dearer = record {
  name = none;
  address = none;
  phone = none;
  hours = none;
  min_order_minor = some (integer (pos 5000));
}

tenant_read : uuid_of tenant ≡ some 7
unfolding uuid_of
tenant_read = refl

there : select_one 7 (λ x. x.id == 20) start.db.branches ≡ some branch
unfolding select_one
there = refl

negative :
    (update_branch tenant 20
      (record dearer { min_order_minor = some (integer (negsuc 0)) })
      start).0
    ≡ err (validation_error invalid_input)
unfolding update_branch
negative = refl

abbrev hall : World Venue ℕ
hall = record {
  db = record { base = tables; book = record { restaurant_tables = []; reservations = [] } };
  outside = 0;
}

seated :
    (add_table tenant 5 (record { branch_id = 20; capacity = integer (pos 4) }) hall).0
    ≡ ok (record { id = 5; tenant_id = 7; branch_id = 20; capacity = 4 })
unfolding add_table with_tenant uuid_of
seated = refl

closed_day : (hours_for_day tenant 20 "mon" start).0 ≡ ok []
unfolding hours_for_day branch_info with_tenant uuid_of select_one
closed_day = refl
