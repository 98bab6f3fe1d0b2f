-- ===== src/Menu/Validation.antt =====
-- What validateModifierGroups accepts (src/vertical/restaurants/menu.service.ts).
use peer_core.Base.{
  not, ◌||◌, leb, Bool-cases, length, arith, ◌↔◌, All, ◌≤◌, ◌≡◌, ℕ, is_truthy, List, [], ◌∷◌, true,
  refl, inl, inr,
}
use peer_core.Action.{Result-cases, ok}
use peer_core.Base.Int.{pos, negsuc}
use peer_core.Menu.{
  is_integer, NewOption, NewGroup, validate_modifier_groups, check_group, check_limits,
  check_options,
}
use peer_core.Orders.Pricing.{Number, integer, other}

-- From `low` to `high` of the options can be chosen, at least one if that is required.
abbrev HasLimits : NewGroup → Number → Number → ℕ → ℕ → Type 0
HasLimits g low high m n =
    (low ≡ integer (pos m))
    × (high ≡ integer (pos n))
    × (m ≤ n)
    × (n ≤ length g.options)
    × (leb 1 m || not g.required ≡ true)

-- A group with a name, whose limits are whole numbers that its options can meet, and whose
-- options change the price by whole numbers.
pub record IsWellFormed (g : NewGroup) : Type 0 where
  pub named : is_truthy g.name ≡ true
  pub low : ℕ
  pub high : ℕ
  pub limits : HasLimits g g.min_select g.max_select low high
  pub prices : All (λ o. is_integer o.price_delta_minor ≡ true) g.options

options_ok :
    (os : List NewOption)
    → (check_options os ≡ ok tt) ↔ All (λ o. is_integer o.price_delta_minor ≡ true) os
options_ok [] = (λ h. tt, λ h. refl)
options_ok (o ∷ os) = elim (Bool-cases (is_integer o.price_delta_minor)) [
  | inl e ↦ (λ h. (e, (options_ok os).0 (rw e at h)), λ h. rw e ((options_ok os).1 h.1))
  | inr e ↦ (λ h. absurd (ground arith), λ h. absurd (ground arith))
]

limits_ok :
    (g : NewGroup) (low high : Number)
    → check_limits g low high ≡ ok tt
    → (m : ℕ) × (n : ℕ) × HasLimits g low high m n × (check_options g.options ≡ ok tt)
limits_ok g other high h = absurd (ground arith)
limits_ok g (integer low) other h = absurd (ground arith)
limits_ok g (integer (negsuc m)) (integer high) h = absurd (ground arith)
limits_ok g (integer (pos m)) (integer (negsuc n)) h = absurd (ground arith)
limits_ok g (integer (pos m)) (integer (pos n)) h =
    (m, n, (refl, refl, ground arith, ground arith, ground arith), ground arith)

check_group-IsWellFormed : (g : NewGroup) → check_group g ≡ ok tt → IsWellFormed g
check_group-IsWellFormed g h =
    let (m, n, limits, options) = limits_ok g g.min_select g.max_select (ground arith) in
    record {
      named = ground arith;
      low = m;
      high = n;
      limits = limits;
      prices = (options_ok g.options).0 options;
    }

limits_back :
    (g : NewGroup) (m n : ℕ)
    → HasLimits g (integer (pos m)) (integer (pos n)) m n
    → check_options g.options ≡ ok tt
    → check_limits g (integer (pos m)) (integer (pos n)) ≡ ok tt
limits_back g m n h k = let (x, y, le, fits, need) = h in ground arith

IsWellFormed-check_group : (g : NewGroup) → IsWellFormed g → check_group g ≡ ok tt
IsWellFormed-check_group g h =
    let (x, y, le, fits, need) = h.limits in
    rw (check_group, h.named, x, y)
      (limits_back g h.low h.high (refl, refl, le, fits, need) ((options_ok g.options).1 h.prices))

-- validateModifierGroups returns exactly when every group has a name, whole limits low and high
-- with 0 ≤ low ≤ high ≤ the number of its options, at least 1 for low if it is required, and
-- whole price changes for its options.
validate_modifier_groups-ok_iff :
    (gs : List NewGroup) → (validate_modifier_groups gs ≡ ok tt) ↔ All IsWellFormed gs
unfolding validate_modifier_groups
validate_modifier_groups-ok_iff [] = (λ h. tt, λ h. refl)
validate_modifier_groups-ok_iff (g ∷ gs) =
    let (there, back) = validate_modifier_groups-ok_iff gs in
    elim (Result-cases (check_group g)) [
      | inl (u, e) ↦ (λ h. (check_group-IsWellFormed g e, there (rw e at h)), λ h. rw e (back h.1))
      | inr (x, e) ↦
          (λ h. absurd (ground arith), λ h. absurd (ground (arith, IsWellFormed-check_group g h.0)))
    ]
