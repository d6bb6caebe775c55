-- ===== src/Base/Sort.antt =====
-- Sorting by a test of order, as `slices.SortFunc` does; equal elements keep their order.
use Prim.Native.Nat.{suc}
use mathlib.Core.Path.{◌≡◌, refl, ◌∙◌, ap}
use mathlib.Core.Logic.{inl, inr}
use mathlib.Core.Bool.{Bool, true, false, ◌||◌}
use mathlib.Core.List.{List, [], ◌∷◌}
use native.Mathlib.Omega.{arith}
use levenshtein.Base.Tests.{if◌then◌else◌, Bool-cases}
use levenshtein.Base.Lists.{length, any, All}

module _ {ℓ} {A : Type ℓ} (le : A → A → Bool) where
  unfoldable pub insert_by : A → List A → List A
  insert_by x [] = x ∷ []
  insert_by x (y ∷ ys) = let rest = insert_by x ys in if le x y then x ∷ y ∷ ys else y ∷ rest

  unfoldable pub sort_by : List A → List A
  sort_by [] = []
  sort_by (x ∷ xs) = insert_by x (sort_by xs)

  length-insert_by : (x : A) (xs : List A) → length (insert_by x xs) ≡ suc (length xs)
  unfolding insert_by
  length-insert_by x [] = refl
  length-insert_by x (y ∷ ys) = ground (arith, length-insert_by x ys)

  pub length-sort_by : (xs : List A) → length (sort_by xs) ≡ length xs
  unfolding sort_by
  length-sort_by [] = refl
  length-sort_by (x ∷ xs) = length-insert_by x (sort_by xs) ∙ ap suc (length-sort_by xs)

  any-insert_by : (p : A → Bool) (x : A) (xs : List A) → any p (insert_by x xs) ≡ (p x || any p xs)
  unfolding insert_by
  any-insert_by p x [] = refl
  any-insert_by p x (y ∷ ys) = ground (arith, any-insert_by p x ys)

  pub any-sort_by : (p : A → Bool) (xs : List A) → any p (sort_by xs) ≡ any p xs
  unfolding sort_by
  any-sort_by p [] = refl
  any-sort_by p (x ∷ xs) = any-insert_by p x (sort_by xs) ∙ ap (λ b. p x || b) (any-sort_by p xs)

  insert_by-All {κ} :
      (P : A → Type κ) (x : A) (xs : List A) → P x → All P xs → All P (insert_by x xs)
  unfolding insert_by
  insert_by-All P x [] p h = (p, tt)
  insert_by-All P x (y ∷ ys) p h = elim (Bool-cases (le x y)) [
    | inl first ↦ rw first (p, h)
    | inr later ↦ rw later (h.0, insert_by-All P x ys p h.1)
  ]

  -- Each element is at most the next, by the test.
  unfoldable pub Sorted : List A → Type 0
  Sorted [] = Unit
  Sorted (x ∷ []) = Unit
  Sorted (x ∷ y ∷ ys) = (le x y ≡ true) × Sorted (y ∷ ys)

  pub Sorted-rest : (x : A) (xs : List A) → Sorted (x ∷ xs) → Sorted xs
  unfolding Sorted
  Sorted-rest x [] h = tt
  Sorted-rest x (y ∷ ys) h = h.1

  module _ (total : (x y : A) → le x y ≡ false → le y x ≡ true) where
    insert_after :
        (x y : A) (ys : List A)
        → le y x ≡ true
        → Sorted (y ∷ ys)
        → Sorted (insert_by x ys)
        → Sorted (y ∷ insert_by x ys)
    unfolding insert_by Sorted
    insert_after x y [] first h k = (first, k)
    insert_after x y (z ∷ zs) first h k = elim (Bool-cases (le x z)) [
      | inl before ↦ rw before (first, rw before at k)
      | inr later ↦ rw later (h.0, rw later at k)
    ]

    insert_by-Sorted : (x : A) (xs : List A) → Sorted xs → Sorted (insert_by x xs)
    unfolding insert_by Sorted
    insert_by-Sorted x [] h = tt
    insert_by-Sorted x (y ∷ ys) h = elim (Bool-cases (le x y)) [
      | inl first ↦ rw first (first, h)
      | inr later ↦
          rw later
            (insert_after x y ys (total x y later) h (insert_by-Sorted x ys (Sorted-rest y ys h)))
    ]

    pub sort_by-Sorted : (xs : List A) → Sorted (sort_by xs)
    unfolding sort_by Sorted
    sort_by-Sorted [] = tt
    sort_by-Sorted (x ∷ xs) = insert_by-Sorted x (sort_by xs) (sort_by-Sorted xs)
