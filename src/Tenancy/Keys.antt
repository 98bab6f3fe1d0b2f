-- ===== src/Tenancy/Keys.antt =====
-- Tables with a primary key, and updates by it (src/db/schema.ts).
use peer_core.Tenancy.Rows.{sees, update, select_one, Scoped}
use peer_core.Base.{
  sym, arith, subst, ◌≢◌, Bool-cases, if◌then◌else◌, ◌≡◌, ◌==◌, All, List, Bool, ℕ, [], ◌∷◌, none,
  some, true, false, refl, inl, inr,
}
use peer_core.Orders.Tables.{
  CatalogItem-scoped, MenuAvailability-scoped, Branch-scoped, Promotion-scoped, Order-scoped,
  OrderItem-scoped, OrderEvent-scoped, LoyaltyAccount-scoped,
}

module _ {A : Type 0} (key : A → ℕ) where
  -- No two rows have one key.
  abbrev pub Unique : List A → Type 0
  Unique [] = Unit {0}
  Unique (r ∷ rs) = All (λ x. key x ≢ key r) rs × Unique rs

module _ {A : Type 0} ⦃s : Scoped A⦄ (key : A → ℕ) where
  abbrev pub at_key : ℕ → A → Bool
  at_key k r = key r == k

  pub absent-update :
      (t k : ℕ) (f : A → A) (rs : List A) → All (λ x. key x ≢ k) rs → update t (at_key k) f rs ≡ rs
  unfolding update
  absent-update t k f [] h = refl
  absent-update t k f (r ∷ rs) h = ground (arith, absent-update t k f rs h.1)

  pub absent-select :
      (t k : ℕ) (rs : List A) → All (λ x. key x ≢ k) rs → select_one t (at_key k) rs ≡ none
  unfolding select_one
  absent-select t k [] h = refl
  absent-select t k (r ∷ rs) h = ground (arith, absent-select t k rs h.1)

  module _ (t k : ℕ) (f : A → A) (row : A) where
    -- What holds of each row holds of each after the update, if it holds of the new row.
    pub update-All :
        (P : A → Type 0) (rs : List A)
        → Unique key rs
        → select_one t (at_key k) rs ≡ some row
        → All P rs
        → P (f row)
        → All P (update t (at_key k) f rs)
    unfolding select_one update
    update-All P [] u e h fresh = tt
    update-All P (r ∷ rs) u e h fresh = elim (Bool-cases (sees t (at_key k) r)) [
      | inl hit ↦
          let same : r ≡ row = ground arith in
          let here : key r ≡ k = ground arith in
          let rest = absent-update t k f rs (subst (λ x. All (λ y. key y ≢ x) rs) here u.0) in
          rw (hit, rest) (subst (λ x. P (f x)) (sym same) fresh, h.1)
      | inr miss ↦ rw miss (h.0, update-All P rs u.1 (ground arith) h.1 fresh)
    ]

  -- An update that leaves keys as they are keeps them unique.
  module _ (t : ℕ) (p : A → Bool) (f : A → A) (keep : (r : A) → key (f r) ≡ key r) where
    update-All_keys :
        (k : ℕ) (rs : List A) → All (λ x. key x ≢ k) rs → All (λ x. key x ≢ k) (update t p f rs)
    unfolding update
    update-All_keys k [] h = tt
    update-All_keys k (r ∷ rs) h = ground (arith, keep r, update-All_keys k rs h.1)

    key_kept : (b : Bool) (r : A) → key r ≡ key (if b then f r else r)
    key_kept true r = sym (keep r)
    key_kept false r = refl

    pub update-Unique : (rs : List A) → Unique key rs → Unique key (update t p f rs)
    unfolding update
    update-Unique [] h = tt
    update-Unique (r ∷ rs) h = (
      subst (λ k. All (λ x. key x ≢ k) (update t p f rs)) (key_kept (sees t p r) r)
          (update-All_keys (key r) rs h.0),
      update-Unique rs h.1,
    )
