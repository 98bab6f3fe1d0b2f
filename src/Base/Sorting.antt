-- ===== src/Base/Sorting.antt =====
-- The stable sort of `Array.prototype.sort`, by a test `le a b` for "a may stand before b", and `slice`.
use Prim.Native.Nat.{ℕ, zero, suc, min}
use mathlib.Core.Path.{◌≡◌, refl, ◌∙◌, ap}
use mathlib.Core.Logic.{inl, inr}
use mathlib.Core.Bool.{Bool, true, false, ◌||◌}
use mathlib.Core.List.{List, [], ◌∷◌, ◌++◌}
use native.Mathlib.Omega.{arith}
use peer_core.Base.Tests.{if◌then◌else◌, Bool-cases}
use peer_core.Base.Lists.{length, any, All}

module _ {ℓ} {A : Type ℓ} where
  -- `slice(0, k)`
  abbrev pub take : ℕ → List A → List A
  take zero xs = []
  take (suc k) [] = []
  take (suc k) (x ∷ xs) = x ∷ take k xs

  abbrev pub drop : ℕ → List A → List A
  drop zero xs = xs
  drop (suc k) [] = []
  drop (suc k) (x ∷ xs) = drop k xs

  pub take-append-drop : (k : ℕ) (xs : List A) → take k xs ++ drop k xs ≡ xs
  take-append-drop zero xs = refl
  take-append-drop (suc k) [] = refl
  take-append-drop (suc k) (x ∷ xs) = ap (◌∷◌ x) (take-append-drop k xs)

  pub length-take : (k : ℕ) (xs : List A) → length (take k xs) ≡ min k (length xs)
  length-take zero xs = omega arith
  length-take (suc k) [] = omega arith
  length-take (suc k) (x ∷ xs) = omega (arith, length-take k xs)

module _ {A : Type 0} (le : A → A → Bool) where
  unfoldable pub insert_sorted : A → List A → List A
  insert_sorted x [] = x ∷ []
  insert_sorted x (y ∷ ys) = if le x y then x ∷ y ∷ ys else y ∷ insert_sorted x ys

  unfoldable pub sort_by : List A → List A
  unfolding insert_sorted
  sort_by [] = []
  sort_by (x ∷ xs) = insert_sorted x (sort_by xs)

  -- Each element may stand before those after it.
  abbrev pub IsSorted : List A → Type 0
  IsSorted [] = Unit {0}
  IsSorted (x ∷ xs) = All (λ y. le x y ≡ true) xs × IsSorted xs

  insert_sorted-All :
      (P : A → Type 0) (x : A) (ys : List A) → P x → All P ys → All P (insert_sorted x ys)
  unfolding insert_sorted
  insert_sorted-All P x [] p h = (p, tt)
  insert_sorted-All P x (y ∷ ys) p h = elim (Bool-cases (le x y)) [
    | inl here ↦ rw (insert_sorted, here) (p, h)
    | inr later ↦ rw (insert_sorted, later) (h.0, insert_sorted-All P x ys p h.1)
  ]

  sort_by-All : (P : A → Type 0) (xs : List A) → All P xs → All P (sort_by xs)
  unfolding sort_by
  sort_by-All P [] h = tt
  sort_by-All P (x ∷ xs) h = insert_sorted-All P x (sort_by xs) h.0 (sort_by-All P xs h.1)

  -- The test is one of an order on the elements with `P`.
  module _ (P : A → Type 0) (total : (a b : A) → le a b ≡ false → le b a ≡ true)
      (trans : (a b c : A) → P a → P b → P c → le a b ≡ true → le b c ≡ true → le a c ≡ true) where
    before-All :
        (x y : A) (ys : List A)
        → P x
        → P y
        → All P ys
        → le x y ≡ true
        → All (λ z. le y z ≡ true) ys
        → All (λ z. le x z ≡ true) ys
    before-All x y [] p q ps h all = tt
    before-All x y (z ∷ ys) p q ps h all =
        (trans x y z p q ps.0 h all.0, before-All x y ys p q ps.1 h all.1)

    insert_sorted-IsSorted :
        (x : A) (ys : List A) → P x → All P ys → IsSorted ys → IsSorted (insert_sorted x ys)
    unfolding insert_sorted
    insert_sorted-IsSorted x [] p ps h = (tt, tt)
    insert_sorted-IsSorted x (y ∷ ys) p ps h = elim (Bool-cases (le x y)) [
      | inl here ↦ rw (insert_sorted, here) ((here, before-All x y ys p ps.0 ps.1 here h.0), h)
      | inr later ↦
          rw (insert_sorted, later)
            (
              insert_sorted-All (λ z. le y z ≡ true) x ys (total x y later) h.0,
              insert_sorted-IsSorted x ys p ps.1 h.1,
            )
    ]

    pub sort_by-IsSorted : (xs : List A) → All P xs → IsSorted (sort_by xs)
    unfolding sort_by
    sort_by-IsSorted [] h = tt
    sort_by-IsSorted (x ∷ xs) h =
        insert_sorted-IsSorted x (sort_by xs) h.0 (sort_by-All P xs h.1) (sort_by-IsSorted xs h.1)

  insert_sorted-any :
      (p : A → Bool) (x : A) (ys : List A) → any p (insert_sorted x ys) ≡ (p x || any p ys)
  unfolding insert_sorted
  insert_sorted-any p x [] = refl
  insert_sorted-any p x (y ∷ ys) = ground (arith, insert_sorted-any p x ys)

  pub sort_by-any : (p : A → Bool) (xs : List A) → any p (sort_by xs) ≡ any p xs
  unfolding sort_by
  sort_by-any p [] = refl
  sort_by-any p (x ∷ xs) = ground (arith, insert_sorted-any p x (sort_by xs), sort_by-any p xs)

  insert_sorted-length : (x : A) (ys : List A) → length (insert_sorted x ys) ≡ suc (length ys)
  unfolding insert_sorted
  insert_sorted-length x [] = refl
  insert_sorted-length x (y ∷ ys) = ground (arith, insert_sorted-length x ys)

  pub sort_by-length : (xs : List A) → length (sort_by xs) ≡ length xs
  unfolding sort_by
  sort_by-length [] = refl
  sort_by-length (x ∷ xs) = insert_sorted-length x (sort_by xs) ∙ ap suc (sort_by-length xs)
