-- ===== src/Action/Yields.antt =====
-- What an action leaves in the tables when it returns.
use peer_core.Base.{inl, inr, ◌≡◌, arith}
use peer_core.Orders.Tables.{
  CatalogItem-scoped, MenuAvailability-scoped, Branch-scoped, Promotion-scoped, Order-scoped,
  OrderItem-scoped, OrderEvent-scoped, LoyaltyAccount-scoped,
}
use peer_core.Action.{ok, World, Action, Result-cases, ◌>>=◌}

-- Whenever `m` returns a value, `Q` holds of it and of the tables then.
pub record Yields {D X A : Type 0} (Q : A → D → Type 0) (m : Action D X A) : Type 0 where
  pub at : (w w' : World D X) (a : A) → m w ≡ (ok a, w') → Q a w'.db

module _ {D X A B : Type 0} {Q : B → D → Type 0} where
  -- The last step of a `do` block decides.
  infixr 4 ◌▸◌
  pub ◌▸◌ :
      (m : Action D X A) {f : A → Action D X B} → ((a : A) → Yields Q (f a)) → Yields Q (m >>= f)
  ◌▸◌ m {f} k = record {
    at = λ w w' b h. elim (Result-cases (m w).0) [
      | inl (a, e) ↦ (k a).at (m w).1 w' b (rw e at h)
      | inr (x, e) ↦ absurd (ground arith)
    ];
  }
