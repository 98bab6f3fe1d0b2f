-- ===== src/Restaurants/Minimum.antt =====
-- What a change of a branch does to what the diners see, and to the minimum that checkout reads
-- (src/vertical/restaurants: restaurant.service.ts, faq.service.ts).
use peer_core.Menu.{natural_of}
use peer_core.Orders.Pricing.{Number}
use peer_core.Restaurants.{
  info_of, patched, branch_info_in, BranchPatch, update_branch, branch_info,
}
use mathlib.Core.Option
use peer_core.Tenancy.Rows.{update, select_one}
use peer_core.Base.{
  sym, subst, Bool-cases, ◌∙◌, ℕ, String, arith, ◌==◌, ◌≡◌, List, if◌then◌else◌, [], ◌∷◌, some,
  refl, inl, inr, Option, ap,
}
use peer_core.Action.{World, ok}
use peer_core.Tenancy.{Uuid, uuid_of, with_tenant}
use peer_core.Orders.Tables.{Tables, Branch, Branch-scoped}

-- A changed row keeps its id and its tenant.
select_one-update :
    (t id k : Uuid) (f : Branch → Branch) (rows : List Branch)
    → ((b : Branch) → ((f b).id ≡ b.id) × ((f b).tenant_id ≡ b.tenant_id))
    → select_one t (λ b. b.id == k) (update t (λ b. b.id == id) f rows) ≡ (
        if k == id
        then Option.map f (select_one t (λ b. b.id == k) rows)
        else select_one t (λ b. b.id == k) rows)
unfolding select_one update
select_one-update t id k f [] keep = ground arith
select_one-update t id k f (b ∷ rows) keep =
    ground (arith, keep b, select_one-update t id k f rows keep)

module _ {X : Type 0} where
  changed :
      (tenant_id : String) (t id : Uuid) (patch : BranchPatch) (n : Number) (m : ℕ)
      (w : World Tables X)
      → uuid_of tenant_id ≡ some t
      → patch.min_order_minor ≡ some n
      → natural_of n ≡ some m
      → update_branch tenant_id id patch w ≡ (
        ok (Option.map (patched patch (some m)) (select_one t (λ b. b.id == id) w.db.branches)),
        record w {
          db = record w.db {
            branches = update t (λ b. b.id == id) (patched patch (some m)) w.db.branches;
          };
        },
      )
  unfolding update_branch with_tenant
  changed tenant_id t id patch n m w e given fits =
      rw (update_branch, given, fits, with_tenant, e) refl

  read_info :
      (tenant_id : String) (t k : Uuid) (w : World Tables X)
      → uuid_of tenant_id ≡ some t
      → (branch_info tenant_id k w).0 ≡ ok (branch_info_in t k w.db)
  unfolding branch_info with_tenant
  read_info tenant_id t k w e = rw (branch_info, with_tenant, e) refl

  -- For a tenant id that is a UUID, an existing branch and a patch with a minimum that is a
  -- whole number from 0 on, after updateBranch the tenant has under the id of the branch the
  -- row with the patch, and under any other id what it had; branchInfo tells the same.
  update_branch-branch_info :
      (tenant_id : String) (t id k : Uuid) (patch : BranchPatch) (n : Number) (m : ℕ) (b : Branch)
      (w : World Tables X)
      → uuid_of tenant_id ≡ some t
      → patch.min_order_minor ≡ some n
      → natural_of n ≡ some m
      → select_one t (λ x. x.id == id) w.db.branches ≡ some b
      → let w' = (update_branch tenant_id id patch w).1 in
        let new = patched patch (some m) b in
        (select_one t (λ x. x.id == k) w'.db.branches
          ≡ (if k == id then some new else select_one t (λ x. x.id == k) w.db.branches))
        × ((branch_info tenant_id k w').0
            ≡ (if k == id then ok (some (info_of new)) else (branch_info tenant_id k w).0))
  update_branch-branch_info tenant_id t id k patch n m b w e given fits old =
      let done = ap (λ r. r.1) (changed tenant_id t id patch n m w e given fits) in
      let w' = (update_branch tenant_id id patch w).1 in
      let rows =
        ap (λ v. select_one t (λ x. x.id == k) v.db.branches) done
        ∙ select_one-update t id k (patched patch (some m)) w.db.branches (λ x. (refl, refl)) in
      let seen = read_info tenant_id t k w' e in
      let before = read_info tenant_id t k w e in
      let view = λ (o : Option Branch). ok (Option.map info_of o) in
      elim (Bool-cases (k == id)) [
        | inl same ↦
            let key : id ≡ k = ground (arith, same) in
            let found = subst (λ i. select_one t (λ x. x.id == i) w.db.branches ≡ some b) key old in
            let here = rows ∙ rw same (ap (Option.map (patched patch (some m))) found) in
            rw same (here, seen ∙ ap view here)
        | inr other ↦
            let here = rows ∙ rw other refl in rw other (here, seen ∙ ap view here ∙ sym before)
      ]
