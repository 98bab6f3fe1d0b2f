-- ===== src/Base/Lists.antt =====
-- Lists measured by native numbers, JavaScript's `Map` over strings, and predicates on lists.
use Prim.Native.Nat.{ℕ, suc, ◌+◌, ◌≤◌}
use Prim.Native.String.{String}
use mathlib.Core.Path.{◌≡◌, refl, sym, subst}
use mathlib.Core.Logic.{inl, inr}
use mathlib.Core.Bool.{Bool, true, false, ◌||◌}
use mathlib.Core.List.{List, [], ◌∷◌, ◌++◌}
use mathlib.Core.Option.{Option, none, some}
use native.Mathlib.Omega.{arith}
use text.Mathlib.Text.{◌==◌ as str_eq}
use text.Mathlib.TextEquality.{eq_iff}
use peer_core.Base.Tests.{if◌then◌else◌, Bool-cases}

module _ {ℓ} {A : Type ℓ} where
  abbrev pub length : List A → ℕ
  length [] = 0
  length (x ∷ xs) = suc (length xs)

  pub length-append : (xs ys : List A) → length (xs ++ ys) ≡ length xs + length ys
  length-append [] ys = omega arith
  length-append (x ∷ xs) ys = omega (arith, length-append xs ys)

  abbrev pub any : (A → Bool) → List A → Bool
  any p [] = false
  any p (x ∷ xs) = p x || any p xs

  abbrev pub find : (A → Bool) → List A → Option A
  find p [] = none
  find p (x ∷ xs) = if p x then some x else find p xs

  -- `Array.prototype.filter`
  abbrev pub keep : (A → Bool) → List A → List A
  keep p [] = []
  keep p (x ∷ xs) = let rest = keep p xs in if p x then x ∷ rest else rest

  abbrev pub All {κ} : (A → Type κ) → List A → Type κ
  All P [] = Unit
  All P (x ∷ xs) = P x × All P xs

  pub All-concat {κ} :
      (P : A → Type κ) (xs : List A) (x : A) → All P xs → P x → All P (xs ++ x ∷ [])
  All-concat P [] x h p = (p, tt)
  All-concat P (y ∷ xs) x h p = (h.0, All-concat P xs x h.1 p)

  pub length-keep_concat :
      (p : A → Bool) (xs : List A) (x : A)
      → length (keep p (xs ++ x ∷ [])) ≡ length (keep p xs) + (if◌then◌else◌ (p x) 1 0)
  length-keep_concat p [] x = ground arith
  length-keep_concat p (y ∷ xs) x = ground (arith, length-keep_concat p xs x)

  pub length-keep_mono :
      (p q : A → Bool) (xs : List A)
      → ((x : A) → p x ≡ true → q x ≡ true)
      → length (keep p xs) ≤ length (keep q xs)
  length-keep_mono p q [] h = omega arith
  length-keep_mono p q (x ∷ xs) h = ground (arith, h x, length-keep_mono p q xs h)

  pub find-concat_last :
      (p : A → Bool) (xs : List A) (x : A)
      → any p xs ≡ false
      → p x ≡ true
      → find p (xs ++ x ∷ []) ≡ some x
  find-concat_last p [] x h k = rw k refl
  find-concat_last p (y ∷ xs) x h k = ground (arith, find-concat_last p xs x (ground arith) k)

  pub any-concat_last :
      (p : A → Bool) (xs : List A) (x : A) → p x ≡ true → any p (xs ++ x ∷ []) ≡ true
  any-concat_last p [] x k = rw k refl
  any-concat_last p (y ∷ xs) x k = ground (arith, any-concat_last p xs x k)

  pub any-narrow :
      (p q : A → Bool) (xs : List A)
      → ((x : A) → q x ≡ true → p x ≡ true)
      → any p xs ≡ false
      → any q xs ≡ false
  any-narrow p q [] imp h = refl
  any-narrow p q (x ∷ xs) imp h = ground (arith, imp x, any-narrow p q xs imp (ground arith))

  pub find-any :
      (p q : A → Bool) (xs : List A) (x : A)
      → find p xs ≡ some x
      → (p x ≡ true → q x ≡ true)
      → any q xs ≡ true
  find-any p q [] x h k = absurd (ground arith)
  find-any p q (y ∷ xs) x h k = elim (Bool-cases (p y)) [
    | inl e ↦
        let same : y ≡ x = ground arith in
        let done = k (subst (λ z. p z ≡ true) same e) in
        let here : q y ≡ true = subst (λ z. q z ≡ true) (sym same) done in rw here refl
    | inr e ↦ ground (arith, find-any p q xs x (ground arith) k)
  ]

-- `Map<string, V>`, in insertion order.
abbrev pub Map {ℓ} : Type ℓ → Type ℓ
Map V = List (String × V)

module _ {ℓ} {V : Type ℓ} where
  abbrev pub lookup : String → Map V → Option V
  lookup k [] = none
  lookup k ((j, v) ∷ m) = if str_eq j k then some v else lookup k m

  abbrev pub insert : String → V → Map V → Map V
  insert k v [] = (k, v) ∷ []
  insert k v ((j, w) ∷ m) = if str_eq j k then (j, v) ∷ m else (j, w) ∷ insert k v m

  pub lookup-insert :
      (k j : String) (v : V) (m : Map V)
      → lookup j (insert k v m) ≡ (if str_eq k j then some v else lookup j m)
  lookup-insert k j v [] = refl
  lookup-insert k j v ((i, w) ∷ m) =
      ground (arith, eq_iff k j, eq_iff i k, eq_iff i j, lookup-insert k j v m)
