-- ===== src/Reviews/Tests.antt =====
-- A review of the sample orders.
use peer_core.Tenancy.Rows.{select_one}
use peer_core.Reviews.Earned.{submit-IsEarned, IsEarned}
use peer_core.Tenancy.{uuid_of, with_tenant}
use peer_core.Base.{ℕ, ◌≡◌, [], ◌∷◌, refl}
use peer_core.Action.{World, ok, err}
use peer_core.Base.Int.{pos}
use peer_core.Orders.Samples.{tenant, tables, order_at}
use peer_core.Orders.State.{complete, new}
use peer_core.Payments.{captured}
use peer_core.Reviews.{Feedback, submit, Review-scoped}
use peer_core.Orders.Pricing.{integer}
use peer_core.Orders.Tables.{Order-scoped}
use peer_core.Errors.{review_error, order_not_complete, validation_error, bad_rating}

abbrev start : World Feedback ℕ
start = record {
  db = record {
    base = record tables {
      orders = order_at 7 1 complete captured ∷ order_at 7 2 new captured ∷ [];
    };
    reviews = [];
  };
  outside = 0;
}

submit-IsEarned_example : IsEarned (submit tenant 9 1 (integer (pos 5)) start).1.db
submit-IsEarned_example =
    submit-IsEarned tenant 9 1 (integer (pos 5)) start
      (record { ratings = tt; orders = tt; once = tt })

rated :
    (submit tenant 9 1 (integer (pos 5)) start).0
    ≡ ok (record { id = 9; tenant_id = 7; order_id = 1; rating = 5 })
unfolding submit with_tenant uuid_of select_one
rated = refl

too_early : (submit tenant 9 2 (integer (pos 5)) start).0 ≡ err (review_error order_not_complete)
unfolding submit with_tenant uuid_of select_one
too_early = refl

too_good : (submit tenant 9 1 (integer (pos 6)) start).0 ≡ err (validation_error bad_rating)
unfolding submit
too_good = refl
