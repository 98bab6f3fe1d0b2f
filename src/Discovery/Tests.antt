-- ===== src/Discovery/Tests.antt =====
-- The sample item, told and ordered.
use peer_core.Discovery.Priced.{item_facts-resolve_line}
use peer_core.Tenancy.Rows.{select_one, select}
use peer_core.Discovery.{facts_of, search_menu, item_facts}
use peer_core.Orders.Lines.{resolve_line, CheckoutLine}
use peer_core.Base.{String, str_eq, ℕ, Bool, ◌≡◌, [], ◌∷◌, none, some, true, refl}
use peer_core.Action.{World, ok}
use peer_core.Base.Int.{pos}
use peer_core.Tenancy.{uuid_of, with_tenant}
use peer_core.Orders.Tables.{Tables, CatalogItem-scoped}
use peer_core.Orders.Samples.{tables, tenant, item}
use peer_core.Orders.Pricing.{PriceLineInput, integer}

abbrev start : World Tables ℕ
start = record { db = tables; outside = 0 }

abbrev line : CheckoutLine
line = record { item_id = 30; quantity = integer (pos 2); modifiers = none }

tenant_read : uuid_of tenant ≡ some 7
unfolding uuid_of
tenant_read = refl

told_facts : (item_facts tenant 30 start).0 ≡ ok (some (facts_of item))
unfolding item_facts with_tenant uuid_of select_one
told_facts = refl

abbrev priced : PriceLineInput
priced = record { unit_price_minor = 2000; quantity = integer (pos 2); modifiers = [] }

ordered : resolve_line 7 tables none line ≡ ok (priced, record { item_id = 30; name = "kabsa" })
unfolding resolve_line select_one
ordered = refl

item_facts-resolve_line_example :
    (◌≡◌ {A = Bool} true true) × (◌≡◌ {A = ℕ} 2000 2000) × (◌≡◌ {A = String} "kabsa" "kabsa")
item_facts-resolve_line_example =
    item_facts-resolve_line tenant 7 none line (facts_of item) priced
      (record { item_id = 30; name = "kabsa" }) start tenant_read told_facts ordered

listed :
    (search_menu str_eq tenant "kabsa" 5 start).0
    ≡ ok (record { id = 30; name = "kabsa"; price_minor = 2000; currency = "SAR" } ∷ [])
unfolding search_menu with_tenant uuid_of select
listed = refl
