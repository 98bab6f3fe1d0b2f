-- ===== src/Tenancy/Rows.antt =====
-- Tables as lists of rows, and the statements that the services issue on them under row-level
-- security: a statement in the context of tenant `t` sees and changes rows of `t` alone
-- (`USING (tenant_id = current_tenant_id())`). Without an `order by` the rows come in the
-- order of the list.
use mathlib.Core.Option
use peer_core.Base.{ℕ, Option, none, some, List, [], ◌∷◌, Bool, ◌&&◌, ◌==◌, if◌then◌else◌}

-- A table with a column `tenant_id`.
pub record Scoped (A : Type 0) : Type 0 where
  pub tenant_of : A → ℕ

module _ {A : Type 0} ⦃s : Scoped A⦄ where
  -- The rows that a `where` clause picks in the context of `t`.
  abbrev pub sees : ℕ → (A → Bool) → A → Bool
  sees t p r = (s.tenant_of r == t) && p r

  unfoldable pub select : ℕ → (A → Bool) → List A → List A
  select t p [] = []
  select t p (r ∷ rs) = let rest = select t p rs in if sees t p r then r ∷ rest else rest

  -- `.limit(1)`
  unfoldable pub select_one : ℕ → (A → Bool) → List A → Option A
  select_one t p [] = none
  select_one t p (r ∷ rs) = if sees t p r then some r else select_one t p rs

  -- `update … set … where …`
  unfoldable pub update : ℕ → (A → Bool) → (A → A) → List A → List A
  update t p f [] = []
  update t p f (r ∷ rs) = (if sees t p r then f r else r) ∷ update t p f rs

  -- `update … returning *`, read as its first row.
  abbrev pub update_returning : ℕ → (A → Bool) → (A → A) → List A → Option A × List A
  update_returning t p f rs = (Option.map f (select_one t p rs), update t p f rs)
