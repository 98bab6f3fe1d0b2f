-- ===== src/Orders/Pricing/Totals.antt =====
-- The arithmetic of `computeTotals` in src/vertical/restaurants/pricing.ts: what a bill is, and
-- which lines have one.
use peer_core.Base.{
  ◌⊎◌, Bool-cases, ltb, sym, subst, ℕ, zero, suc, ◌+◌, ◌-◌, ◌*◌, ◌≤◌, ◌<◌, ◌≡◌, refl, ◌∙◌, ap, ap,
  ◌↔◌, inl, inr, List, [], ◌∷◌, All, arith,
}
use peer_core.Base.Int.{pos_part, max_ℤ, min_ℤ, ℤ, pos, negsuc, ◌+ℤ◌, +ℤ_assoc, ◌≤ℤ◌, int_laws}
use peer_core.Action.{Result, ok, err, Result-cases}
use peer_core.Orders.Pricing.{
  Number, integer, other, PricedModifier, PriceLineInput, PricedLine, OrderTotals, sum_deltas,
  unit_price, priced_at, price_line, price_lines, subtotal, compute_totals, totals_of, then_line,
}

-- The sum of the modifiers' price deltas.
pub delta_sum : List PricedModifier → ℤ
delta_sum [] = pos 0
delta_sum (m ∷ ms) = m.price_delta_minor +ℤ delta_sum ms

sum_deltas-eq : (acc : ℤ) (ms : List PricedModifier) → sum_deltas acc ms ≡ acc +ℤ delta_sum ms
unfolding sum_deltas delta_sum
sum_deltas-eq acc [] = omega int_laws
sum_deltas-eq acc (m ∷ ms) =
    sum_deltas-eq (acc +ℤ m.price_delta_minor) ms ∙ +ℤ_assoc acc m.price_delta_minor (delta_sum ms)

unit_price-eq :
    (l : PriceLineInput) → unit_price l ≡ pos l.unit_price_minor +ℤ delta_sum l.modifiers
unit_price-eq l =
    let zero_left : pos 0 +ℤ delta_sum l.modifiers ≡ delta_sum l.modifiers = omega int_laws in
    ap (◌+ℤ◌ (pos l.unit_price_minor)) (sum_deltas-eq (pos 0) l.modifiers ∙ zero_left)

-- A line that has a price: a positive whole quantity of a unit that costs zero or more.
pub record IsPriceable (l : PriceLineInput) : Type 0 where
  pub extra : ℕ
  pub positive : l.quantity ≡ integer (pos (suc extra))
  pub nonnegative : pos 0 ≤ℤ pos l.unit_price_minor +ℤ delta_sum l.modifiers

-- `p` is the price of `l`.
pub record Prices (l : PriceLineInput) (p : PricedLine) : Type 0 where
  pub quantity : ℕ
  pub whole : l.quantity ≡ integer (pos quantity)
  pub positive : 0 < quantity
  pub unit : pos p.effective_unit_minor ≡ pos l.unit_price_minor +ℤ delta_sum l.modifiers
  pub line : p.line_total_minor ≡ p.effective_unit_minor * quantity

abbrev pub PricesAll : List PriceLineInput → List PricedLine → Type 0
PricesAll [] [] = Unit {0}
PricesAll [] (p ∷ ps) = ⊥
PricesAll (l ∷ ls) [] = ⊥
PricesAll (l ∷ ls) (p ∷ ps) = Prices l p × PricesAll ls ps

-- The discount that is given where `d` is asked for: none, all of it, or what there is to take off.
abbrev pub IsGiven : ℤ → ℕ → ℕ → Type 0
IsGiven d given sub =
    ((d ≤ℤ pos 0) × (given ≡ 0))
    ⊎ ((d ≡ pos given) × (given ≤ sub))
    ⊎ ((pos sub ≤ℤ d) × (given ≡ sub))

-- A bill: the price of each line, and amounts that add up to the total.
pub record IsBill (ls : List PriceLineInput) (fee d : ℤ) (t : OrderTotals) : Type 0 where
  pub priced : PricesAll ls t.lines
  pub adds_up : t.subtotal_minor ≡ subtotal t.lines
  pub discounted : IsGiven d t.discount_minor t.subtotal_minor
  pub vat_above : 100 * t.vat_minor ≤ (t.subtotal_minor - t.discount_minor) * 15 + 50
  pub vat_below : (t.subtotal_minor - t.discount_minor) * 15 < 100 * t.vat_minor + 50
  pub total : t.total_minor ≡ pos (t.subtotal_minor - t.discount_minor + t.vat_minor) +ℤ fee

then_line-eq-ok :
    (r : Result PricedLine) (rest : Result (List PricedLine)) {ps : List PricedLine}
    → then_line r rest ≡ ok ps
    → (p : PricedLine) × (qs : List PricedLine) × (r ≡ ok p) × (rest ≡ ok qs) × (ps ≡ p ∷ qs)
then_line-eq-ok (ok p) (ok qs) h = (p, qs, refl, refl, cc)
then_line-eq-ok (ok p) (err e) h = cc
then_line-eq-ok (err e) rest h = cc

priced_at-Prices :
    (l : PriceLineInput) (n : ℕ) (u : ℤ) {p : PricedLine}
    → l.quantity ≡ integer (pos (suc n))
    → u ≡ pos l.unit_price_minor +ℤ delta_sum l.modifiers
    → priced_at (suc n) u ≡ ok p
    → Prices l p
priced_at-Prices l n (pos k) e u h = record {
  quantity = suc n;
  whole = e;
  positive = omega arith;
  unit = ground (arith, u);
  line = ground arith;
}
priced_at-Prices l n (negsuc k) e u h = ground arith

price_line-Prices : (l : PriceLineInput) {p : PricedLine} → price_line l ≡ ok p → Prices l p
unfolding price_line
price_line-Prices l {p} h = go l.quantity refl
  where
    go : (q : Number) → l.quantity ≡ q → Prices l p
    go (integer (pos zero)) e = ground arith
    go (integer (pos (suc n))) e =
        priced_at-Prices l n (unit_price l) e (unit_price-eq l) (rw (e, price_line) at h)
    go (integer (negsuc n)) e = ground arith
    go other e = ground arith

price_lines-PricesAll :
    (ls : List PriceLineInput) (ps : List PricedLine) → price_lines ls ≡ ok ps → PricesAll ls ps
unfolding price_lines
price_lines-PricesAll [] [] h = tt
price_lines-PricesAll [] (p ∷ ps) h = ground arith
price_lines-PricesAll (l ∷ ls) ps h =
    let (p, qs, first, rest, e) = then_line-eq-ok (price_line l) (price_lines ls) h in
    rw e (price_line-Prices l first, price_lines-PricesAll ls qs rest)

discount-IsGiven : (d : ℤ) (sub : ℕ) → IsGiven d (pos_part (max_ℤ (pos 0) (min_ℤ d (pos sub)))) sub
discount-IsGiven (pos n) sub =
    let given = pos_part (max_ℤ (pos 0) (min_ℤ (pos n) (pos sub))) in
    elim (Bool-cases (ltb sub n)) [
      | inl over ↦ inr (inr (ground arith, ground arith))
      | inr fits ↦
          let all : given ≡ n = ground arith in
          inr (inl (ap pos (sym all), subst (λ x. x ≤ sub) (sym all) (ground arith)))
    ]
discount-IsGiven (negsuc n) sub = inl (omega arith, ground arith)

totals_of-IsBill :
    (ls : List PriceLineInput) (ps : List PricedLine) (fee d : ℤ)
    → PricesAll ls ps
    → IsBill ls fee d (totals_of ps fee d)
totals_of-IsBill ls ps fee d h = record {
  priced = h;
  adds_up = refl;
  discounted = discount-IsGiven d (subtotal ps);
  vat_above = omega arith;
  vat_below = omega arith;
  total = refl;
}

-- Totals that computeTotals returns are a bill: each line is priced at its unit price with the
-- modifiers, times its quantity; the subtotal is the sum of the lines; the discount is the
-- requested one, cut off at 0 from below and at the subtotal from above; VAT is 15% of what is
-- left, rounded to the nearest unit with halves up; and the total is what is left, plus VAT,
-- plus the delivery fee.
pub compute_totals-IsBill :
    (ls : List PriceLineInput) (fee d : ℤ) {t : OrderTotals}
    → compute_totals ls fee d ≡ ok t
    → IsBill ls fee d t
unfolding compute_totals
compute_totals-IsBill ls fee d {t} h = elim (Result-cases (price_lines ls)) [
  | inl (ps, e) ↦
      let same : totals_of ps fee d ≡ t = ground arith in
      rw same at (totals_of-IsBill ls ps fee d (price_lines-PricesAll ls ps e))
  | inr (x, e) ↦ ground arith
]

priced_at-total : (q : ℕ) (u : ℤ) → pos 0 ≤ℤ u → (p : PricedLine) × (priced_at q u ≡ ok p)
priced_at-total q (pos k) h =
    (record { effective_unit_minor = k; line_total_minor = k * q }, ground arith)
priced_at-total q (negsuc k) h = absurd (omega arith)

price_line-total : (l : PriceLineInput) → IsPriceable l → (p : PricedLine) × (price_line l ≡ ok p)
unfolding price_line
price_line-total l h =
    rw (h.positive, price_line)
      (priced_at-total (suc h.extra) (unit_price l) (rw (unit_price-eq l) h.nonnegative))

price_lines-total :
    (ls : List PriceLineInput)
    → All IsPriceable ls
    → (ps : List PricedLine) × (price_lines ls ≡ ok ps)
unfolding price_lines
price_lines-total [] h = ([], refl)
price_lines-total (l ∷ ls) h =
    let (p, e) = price_line-total l h.0 in
    let (ps, es) = price_lines-total ls h.1 in (p ∷ ps, rw (e, es))

PricesAll-IsPriceable :
    (ls : List PriceLineInput) (ps : List PricedLine) → PricesAll ls ps → All IsPriceable ls
PricesAll-IsPriceable [] [] h = tt
PricesAll-IsPriceable [] (p ∷ ps) h = absurd h
PricesAll-IsPriceable (l ∷ ls) [] h = absurd h
PricesAll-IsPriceable (l ∷ ls) (p ∷ ps) (h, hs) = (
  record {
    extra = h.quantity - 1;
    positive = h.whole ∙ ap (λ n. integer (pos n)) (omega arith);
    nonnegative =
        let free : pos 0 ≤ℤ pos p.effective_unit_minor = omega arith in
        subst (λ x. pos 0 ≤ℤ x) h.unit free;
  },
  PricesAll-IsPriceable ls ps hs,
)

-- `computeTotals` returns exactly when every line has a positive whole quantity and a unit price,
-- with the modifiers, of zero or more; whatever the fee and the discount are.
pub compute_totals-ok_iff :
    (ls : List PriceLineInput) (fee d : ℤ)
    → ((t : OrderTotals) × (compute_totals ls fee d ≡ ok t)) ↔ All IsPriceable ls
unfolding compute_totals
compute_totals-ok_iff ls fee d = (
  λ (t, e). PricesAll-IsPriceable ls t.lines (compute_totals-IsBill ls fee d e).priced,
  λ h. let (ps, e) = price_lines-total ls h in (totals_of ps fee d, rw (e, compute_totals)),
)

totals_of-mono :
    (ps : List PricedLine) (fee d d' : ℤ)
    → d ≤ℤ d'
    → (totals_of ps fee d').total_minor ≤ℤ (totals_of ps fee d).total_minor
totals_of-mono ps fee d d' h =
    let more : (totals_of ps fee d).discount_minor ≤ (totals_of ps fee d').discount_minor =
      ground arith in
    omega int_laws

-- Where `computeTotals` returns for two discounts, the larger one gives a total that is no larger.
pub compute_totals-discount_mono :
    (ls : List PriceLineInput) (fee d d' : ℤ) {t t' : OrderTotals}
    → d ≤ℤ d'
    → compute_totals ls fee d ≡ ok t
    → compute_totals ls fee d' ≡ ok t'
    → t'.total_minor ≤ℤ t.total_minor
unfolding compute_totals
compute_totals-discount_mono ls fee d d' {t} {t'} le h h' = elim (Result-cases (price_lines ls)) [
  | inl (ps, e) ↦
      let same : totals_of ps fee d ≡ t = ground arith in
      let same' : totals_of ps fee d' ≡ t' = ground arith in
      rw (← same, ← same') (totals_of-mono ps fee d d' le)
  | inr (x, e) ↦ ground arith
]
