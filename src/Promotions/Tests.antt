-- ===== src/Promotions/Tests.antt =====
-- A promotion is made and applied.
use peer_core.Promotions.{NewPromotion, create_promotion}
use peer_core.Base.{ℕ, ◌≡◌, some, refl}
use peer_core.Action.{World, err}
use peer_core.Base.Int.{pos}
use peer_core.Orders.Samples.{tables, tenant}
use peer_core.Orders.Tables.{Tables, Promotion-scoped, percent}
use peer_core.Errors.{validation_error, bad_promo}

abbrev tenth : NewPromotion
tenth = record {
  code = "TEN";
  kind = percent;
  value = pos 10;
  min_order_minor = some 1000;
  max_redemptions = some 5;
}

abbrev start : World Tables ℕ
start = record { db = tables; outside = 0 }

too_much :
    (create_promotion tenant 4 (record tenth { value = pos 101 }) start).0
    ≡ err (validation_error bad_promo)
unfolding create_promotion
too_much = refl
