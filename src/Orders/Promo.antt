-- ===== src/Orders/Promo.antt =====
-- `resolvePromo` of src/vertical/restaurants/order.service.ts.
use peer_core.Errors.{OrderCode, order_error}
use peer_core.Tenancy.Rows.{update, select_one}
use peer_core.Orders.Pricing.{round_percent}
use peer_core.Tenancy.{Uuid}
use peer_core.Base.{
  ◌+◌, ltb, not, str_eq, min, ◌&&◌, ◌==◌, ◌*◌, leb, Bool, String, ℕ, none, some, false,
}
use peer_core.Orders.Tables.{
  amount, percent, Tables, Promotion, PromotionKind, CatalogItem-scoped, MenuAvailability-scoped,
  Branch-scoped, Promotion-scoped, Order-scoped, OrderItem-scoped, OrderEvent-scoped,
  LoyaltyAccount-scoped,
}
use peer_core.Action.{pure, execute, throw_if, or_err, consult, ◌>>=◌, ◌>>◌, Action}

pub record Redeemed : Type 0 where
  pub discount_minor : ℕ
  pub code : String

-- `promo.maxRedemptions !== null && promo.redeemedCount >= promo.maxRedemptions`
abbrev pub is_used_up : Promotion → Bool
is_used_up p = elim p.max_redemptions [ none ↦ false | some limit ↦ leb limit p.redeemed_count ]

-- The promotion's discount on a subtotal.
pub discount_of : PromotionKind → ℕ → ℕ → ℕ
discount_of percent value subtotal_minor = round_percent (subtotal_minor * value)
discount_of amount value subtotal_minor = min value subtotal_minor

abbrev pub has_code : Uuid → String → Promotion → Bool
has_code t code p = (p.tenant_id == t) && str_eq p.code code

-- The counter is set to the value read plus one.
abbrev pub redeem : Uuid → Promotion → Tables → Tables
redeem t promo db = record db {
  promotions =
      update t (λ p. p.id == promo.id) (λ p. record p { redeemed_count = promo.redeemed_count + 1 })
        db.promotions;
}

module _ {X : Type 0} where
  unfoldable pub resolve_promo : Uuid → String → ℕ → Action Tables X Redeemed
  unfolding discount_of
  resolve_promo t code subtotal_minor = do
    promo ← consult (λ db.
        or_err (select_one t (has_code t code) db.promotions) (order_error OrderCode.bad_promo))
    throw_if (not promo.active) (order_error OrderCode.bad_promo)
    throw_if (ltb subtotal_minor promo.min_order_minor) (order_error OrderCode.bad_promo)
    throw_if (is_used_up promo) (order_error OrderCode.bad_promo)
    execute (redeem t promo)
    pure (record {
      discount_minor = discount_of promo.kind promo.value subtotal_minor;
      code = promo.code;
    })
