-- ===== src/Base/Lists.antt =====
-- Lists measured and indexed by native numbers, under the library's names.
use Prim.Native.Nat.{ℕ, zero, suc, ◌+◌, ◌-◌}
use mathlib.Core.Path.{◌≡◌, refl}
use mathlib.Core.Logic.{◌⊎◌, inl, inr}
use mathlib.Core.List.{List, [], ◌∷◌, ◌++◌}
use mathlib.Core.Option.{Option, none, some}
use native.Mathlib.Omega.{arith}

module _ {ℓ} {A : Type ℓ} where
  abbrev pub length : List A → ℕ
  length [] = 0
  length (x ∷ xs) = suc (length xs)

  abbrev pub drop : ℕ → List A → List A
  drop zero xs = xs
  drop (suc n) [] = []
  drop (suc n) (x ∷ xs) = drop n xs

  pub length-append : (xs ys : List A) → length (xs ++ ys) ≡ length xs + length ys
  length-append [] ys = omega arith
  length-append (x ∷ xs) ys = omega (arith, length-append xs ys)

  pub length-drop : (n : ℕ) (xs : List A) → length (drop n xs) ≡ length xs - n
  length-drop zero xs = omega arith
  length-drop (suc n) [] = omega arith
  length-drop (suc n) (x ∷ xs) = omega (arith, length-drop n xs)

  -- The element at an index, with the list without it.
  unfoldable pub take_at : List A → ℕ → Option (A × List A)
  take_at [] i = none
  take_at (x ∷ xs) zero = some (x, xs)
  take_at (x ∷ xs) (suc i) = elim (take_at xs i) [ none ↦ none | some (y, ys) ↦ some (y, x ∷ ys) ]

  -- What is left is one shorter.
  abbrev pub IsShorter : ℕ → Option (A × List A) → Type 0
  IsShorter n none = Unit
  IsShorter n (some (y, ys)) = n ≡ suc (length ys)

  pub length-take_at : (xs : List A) (i : ℕ) → IsShorter (length xs) (take_at xs i)
  unfolding take_at
  length-take_at [] i = tt
  length-take_at (x ∷ xs) zero = refl
  length-take_at (x ∷ xs) (suc i) = ground (arith, length-take_at xs i)

  -- A predicate on every element, by recursion, so that the tactics read and build it.
  abbrev pub All {κ} : (A → Type κ) → List A → Type κ
  All P [] = Unit
  All P (x ∷ xs) = P x × All P xs

module _ {ℓ κ ι} {A : Type ℓ} {B : Type κ} (P : B → Type ι) where
  -- To prove a property of a match on a list, prove it of both cases.
  pub list_elim :
      (l : List A) (f : A → List A → B) (y : B)
      → ((x : A) (xs : List A) → l ≡ x ∷ xs → P (f x xs))
      → (l ≡ [] → P y)
      → P (elim l [ x ∷ xs ↦ f x xs | [] ↦ y ])
  list_elim [] f y hf hy = hy refl
  list_elim (x ∷ xs) f y hf hy = hf x xs refl

pub List-cases {ℓ} :
    {A : Type ℓ} (xs : List A) → (xs ≡ []) ⊎ ((x : A) × (ys : List A) × (xs ≡ x ∷ ys))
List-cases [] = inl refl
List-cases (x ∷ xs) = inr (x, xs, refl)
