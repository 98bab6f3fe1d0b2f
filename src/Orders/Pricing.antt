-- ===== src/Orders/Pricing.antt =====
-- src/vertical/restaurants/pricing.ts. Amounts are integers of minor units; JavaScript's numbers
-- hold them exactly below 2^53, and `Math.round(x / 100)` rounds halves up.
pub mod Totals
use peer_core.Base.{
  ℕ, zero, suc, ◌+◌, ◌-◌, ◌*◌, ◌/◌, String, Option, none, some, List, [], ◌∷◌, if◌then◌else◌,
}
use peer_core.Base.Int.{ℤ, pos, negsuc, pos_part, ◌+ℤ◌, ltb_ℤ, min_ℤ, max_ℤ}
use peer_core.Errors.{plain}
use peer_core.Action.{Result, ok, err}

-- A JavaScript number: an integer, or any other value (a fraction, NaN, an infinity).
pub data Number : Type 0 where
  integer : ℤ → Number
  other : Number

abbrev pub vat_rate_percent : ℕ
vat_rate_percent = 15

pub record PricedModifier : Type 0 where
  pub name : String
  pub price_delta_minor : ℤ

pub record PriceLineInput : Type 0 where
  pub unit_price_minor : ℕ
  pub quantity : Number
  pub modifiers : List PricedModifier

pub record PricedLine : Type 0 where
  pub effective_unit_minor : ℕ
  pub line_total_minor : ℕ

pub record OrderTotals : Type 0 where
  pub subtotal_minor : ℕ
  pub discount_minor : ℕ
  pub vat_minor : ℕ
  pub total_minor : ℤ
  pub lines : List PricedLine

-- `Math.round(x / 100)`
abbrev pub round_percent : ℕ → ℕ
round_percent x = (x + 50) / 100

sum_deltas : ℤ → List PricedModifier → ℤ
sum_deltas sum [] = sum
sum_deltas sum (m ∷ ms) = sum_deltas (sum +ℤ m.price_delta_minor) ms

-- The quantity, if `Number.isInteger(q) && q > 0`.
abbrev positive_integer : Number → Option ℕ
positive_integer (integer (pos zero)) = none
positive_integer (integer (pos (suc n))) = some (suc n)
positive_integer (integer (negsuc n)) = none
positive_integer other = none

abbrev unit_price : PriceLineInput → ℤ
unit_price l = pos l.unit_price_minor +ℤ sum_deltas (pos 0) l.modifiers

abbrev priced_at : ℕ → ℤ → Result PricedLine
priced_at q unit =
    if ltb_ℤ unit (pos 0)
    then err plain
    else ok (record { effective_unit_minor = pos_part unit; line_total_minor = pos_part unit * q })

-- The callback of `lines.map`.
price_line : PriceLineInput → Result PricedLine
unfolding sum_deltas
price_line l = elim (positive_integer l.quantity) [
  | none ↦ err plain
  | some q ↦ priced_at q (unit_price l)
]

abbrev and_line : PricedLine → Result (List PricedLine) → Result (List PricedLine)
and_line p (ok ps) = ok (p ∷ ps)
and_line p (err e) = err e

abbrev then_line : Result PricedLine → Result (List PricedLine) → Result (List PricedLine)
then_line (ok p) rest = and_line p rest
then_line (err e) rest = err e

price_lines : List PriceLineInput → Result (List PricedLine)
unfolding price_line
price_lines [] = ok []
price_lines (l ∷ ls) = then_line (price_line l) (price_lines ls)

pub subtotal : List PricedLine → ℕ
subtotal [] = 0
subtotal (p ∷ ps) = p.line_total_minor + subtotal ps

abbrev totals_of : List PricedLine → ℤ → ℤ → OrderTotals
totals_of priced delivery_fee_minor discount_minor =
    let sub = subtotal priced in
    let discount = pos_part (max_ℤ (pos 0) (min_ℤ discount_minor (pos sub))) in
    let taxable_base = sub - discount in
    let vat = round_percent (taxable_base * vat_rate_percent) in
    record {
      subtotal_minor = sub;
      discount_minor = discount;
      vat_minor = vat;
      total_minor = pos (taxable_base + vat) +ℤ delivery_fee_minor;
      lines = priced;
    }

unfoldable pub compute_totals : List PriceLineInput → ℤ → ℤ → Result OrderTotals
unfolding price_lines subtotal
compute_totals lines delivery_fee_minor discount_minor = elim (price_lines lines) [
  | ok priced ↦ ok (totals_of priced delivery_fee_minor discount_minor)
  | err e ↦ err e
]
