-- ===== src/Orders/Tables.antt =====
-- The tables of src/db/schema.ts that orders read and write. A column that no operation reads
-- is left out: the ids of child rows, `created_at` and `updated_at` stamps, labels.
use peer_core.Base.{ℕ, String, Option, Bool, List}
use peer_core.Base.Int.{ℤ}
use peer_core.Tenancy.{Uuid}
use peer_core.Tenancy.Rows.{Scoped}
use peer_core.Payments.{PaymentStatus}
use peer_core.Orders.State.{OrderStatus}
use peer_core.Orders.Pricing.{Number, PricedModifier}
use peer_core.Orders.Hours.{Hours}

pub data OrderType : Type 0 where
  delivery pickup dinein : OrderType

pub data ItemStatus : Type 0 where
  available sold_out hidden : ItemStatus

pub record ModifierOption : Type 0 where
  pub name : String
  pub price_delta_minor : ℤ

-- `minSelect`, `maxSelect` and `required` may be missing in the JSON of `attributes`; a missing
-- `required` counts as false. `validateModifierGroups` refuses negative and fractional limits.
pub record ModifierGroup : Type 0 where
  pub name : String
  pub min_select : Option ℕ
  pub max_select : Option ℕ
  pub required : Bool
  pub options : List ModifierOption

pub record CatalogItem : Type 0 where
  pub id : Uuid
  pub tenant_id : Uuid
  pub name : String
  pub description : Option String
  pub price_minor : ℕ
  pub currency : String
  pub modifier_groups : Option (List ModifierGroup)
  pub allergens : Option (List String)
  pub status : ItemStatus

pub record MenuAvailability : Type 0 where
  pub tenant_id : Uuid
  pub item_id : Uuid
  pub branch_id : Uuid
  pub available : Bool

-- The coordinates, which are only stored and shown, are left out.
pub record Branch : Type 0 where
  pub id : Uuid
  pub tenant_id : Uuid
  pub name : String
  pub address : Option String
  pub phone : Option String
  pub hours : Hours
  pub min_order_minor : ℕ

pub data PromotionKind : Type 0 where
  percent amount : PromotionKind

-- `value` is at least 0 by ck_promotions_value.
pub record Promotion : Type 0 where
  pub id : Uuid
  pub tenant_id : Uuid
  pub code : String
  pub kind : PromotionKind
  pub value : ℕ
  pub min_order_minor : ℕ
  pub active : Bool
  pub max_redemptions : Option ℕ
  pub redeemed_count : ℕ

pub record Order : Type 0 where
  pub id : Uuid
  pub tenant_id : Uuid
  pub branch_id : Uuid
  pub order_type : OrderType
  pub subtotal_minor : ℕ
  pub vat_minor : ℕ
  pub delivery_fee_minor : ℤ
  pub total_minor : ℤ
  pub status : OrderStatus
  pub payment_status : PaymentStatus
  pub payment_ref : Option String
  pub idempotency_key : Option String
  pub diner_phone : Option String
  pub scheduled_for : Option ℕ
  pub discount_minor : ℕ
  pub promotion_code : Option String
  pub created_at : ℕ

pub record OrderItem : Type 0 where
  pub tenant_id : Uuid
  pub order_id : Uuid
  pub item_id : Uuid
  pub name : String
  pub unit_price_minor : ℕ
  pub quantity : Number
  pub modifiers : List PricedModifier
  pub line_total_minor : ℕ

pub record OrderEvent : Type 0 where
  pub tenant_id : Uuid
  pub order_id : Uuid
  pub from_status : Option OrderStatus
  pub to_status : OrderStatus

pub data PaymentAction : Type 0 where
  authorize capture void refund : PaymentAction

pub record Payment : Type 0 where
  pub tenant_id : Uuid
  pub order_id : Uuid
  pub action : PaymentAction
  pub amount_minor : ℤ
  pub provider : String
  pub provider_ref : Option String
  pub status : PaymentStatus

pub record LoyaltyAccount : Type 0 where
  pub tenant_id : Uuid
  pub diner_phone : String
  pub points : ℕ

pub record LoyaltyEntry : Type 0 where
  pub tenant_id : Uuid
  pub diner_phone : String
  pub order_id : Uuid
  pub delta : ℕ
  pub reason : String

pub record Tables : Type 0 where
  pub catalog_items : List CatalogItem
  pub menu_availability : List MenuAvailability
  pub branches : List Branch
  pub promotions : List Promotion
  pub orders : List Order
  pub order_items : List OrderItem
  pub order_events : List OrderEvent
  pub payments : List Payment
  pub loyalty_accounts : List LoyaltyAccount
  pub loyalty_ledger : List LoyaltyEntry

instance abbrev pub CatalogItem-scoped : Scoped CatalogItem
CatalogItem-scoped = record { tenant_of = λ r. r.tenant_id }

instance abbrev pub MenuAvailability-scoped : Scoped MenuAvailability
MenuAvailability-scoped = record { tenant_of = λ r. r.tenant_id }

instance abbrev pub Branch-scoped : Scoped Branch
Branch-scoped = record { tenant_of = λ r. r.tenant_id }

instance abbrev pub Promotion-scoped : Scoped Promotion
Promotion-scoped = record { tenant_of = λ r. r.tenant_id }

instance abbrev pub Order-scoped : Scoped Order
Order-scoped = record { tenant_of = λ r. r.tenant_id }

instance abbrev pub OrderItem-scoped : Scoped OrderItem
OrderItem-scoped = record { tenant_of = λ r. r.tenant_id }

instance abbrev pub OrderEvent-scoped : Scoped OrderEvent
OrderEvent-scoped = record { tenant_of = λ r. r.tenant_id }

instance abbrev pub LoyaltyAccount-scoped : Scoped LoyaltyAccount
LoyaltyAccount-scoped = record { tenant_of = λ r. r.tenant_id }
