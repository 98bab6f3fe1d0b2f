-- ===== src/Promotions.antt =====
-- src/vertical/restaurants/promotion.service.ts and src/vertical/restaurants/loyalty.service.ts, on the
-- tables of Orders/Tables. A promotion is asked for with a whole number for its value.
pub mod Applied
mod Tests
use peer_core.Base.{
  ◌&&◌, if◌then◌else◌, [], ◌∷◌, none, some, true, false, Option, ◌++◌, str_eq, ◌==◌, any,
  or_default, List, ◌||◌, ℕ, Bool, String,
}
use peer_core.Action.{ok, err, statement, query, execute, Result, throw, Action}
use peer_core.Base.Int.{pos, negsuc, ℤ}
use peer_core.Tenancy.Rows.{Scoped, update, select_one, select}
use peer_core.Menu.{below}
use peer_core.Tenancy.{with_tenant, Uuid}
use peer_core.Orders.Tables.{
  LoyaltyEntry, Promotion, Tables, PromotionKind, percent, amount, Promotion-scoped,
  LoyaltyAccount-scoped,
}
use peer_core.Errors.{validation_error, bad_promo, database, unique_violation, check_violation}

pub record NewPromotion : Type 0 where
  pub code : String
  pub kind : PromotionKind
  pub value : ℤ
  pub min_order_minor : Option ℕ
  pub max_redemptions : Option ℕ

abbrev is_percent : PromotionKind → Bool
is_percent percent = true
is_percent amount = false

-- `input.kind === 'percent' && (input.value < 0 || input.value > 100)`
abbrev pub is_out_of_range : NewPromotion → Bool
is_out_of_range input =
    is_percent input.kind && (below input.value (pos 0) || below (pos 100) input.value)

abbrev pub promotion_of : Uuid → Uuid → NewPromotion → ℕ → Promotion
promotion_of id t input value = record {
  id = id;
  tenant_id = t;
  code = input.code;
  kind = input.kind;
  value = value;
  min_order_minor = or_default input.min_order_minor 0;
  active = true;
  max_redemptions = input.max_redemptions;
  redeemed_count = 0;
}

-- ck_promotions_value and uq_promotions_code.
abbrev pub insert_promotion : Uuid → Uuid → NewPromotion → ℤ → Tables → Result Promotion × Tables
insert_promotion id t input (negsuc n) db = (err (database check_violation), db)
insert_promotion id t input (pos n) db =
    if any (λ p. (p.tenant_id == t) && str_eq p.code input.code) db.promotions
    then (err (database unique_violation), db)
    else let row = promotion_of id t input n in
      (ok row, record db { promotions = db.promotions ++ row ∷ [] })

instance abbrev pub LoyaltyEntry-scoped : Scoped LoyaltyEntry
LoyaltyEntry-scoped = record { tenant_of = λ r. r.tenant_id }

module _ {X : Type 0} where
  unfoldable pub create_promotion : String → Uuid → NewPromotion → Action Tables X Promotion
  create_promotion tenant_id id input =
      if is_out_of_range input
      then throw (validation_error bad_promo)
      else with_tenant tenant_id (λ t. statement (insert_promotion id t input input.value))

  unfoldable pub list_promotions : String → Action Tables X (List Promotion)
  list_promotions tenant_id =
      with_tenant tenant_id (λ t. query (λ db. select t (λ p. true) db.promotions))

  unfoldable pub deactivate : String → Uuid → Action Tables X (Unit {0})
  deactivate tenant_id id = with_tenant tenant_id (λ t. execute (λ db. record db {
    promotions = update t (λ p. p.id == id) (λ p. record p { active = false }) db.promotions;
  }))

  unfoldable pub balance : String → String → Action Tables X ℕ
  balance tenant_id phone = with_tenant tenant_id (λ t. query (λ db.
      elim (select_one t (λ a. str_eq a.diner_phone phone) db.loyalty_accounts) [
        | none ↦ 0
        | some a ↦ a.points
      ]))

  unfoldable pub history : String → String → Action Tables X (List LoyaltyEntry)
  history tenant_id phone =
      with_tenant tenant_id
        (λ t. query (λ db. select t (λ e. str_eq e.diner_phone phone) db.loyalty_ledger))
