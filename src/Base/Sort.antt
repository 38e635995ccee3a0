-- ===== src/Base/Sort.antt =====
-- Python's `sorted`: a stable sort, here by insertion. `le x y` tells whether `x` may stand before
-- `y`; among equals the order of the input is kept.
pub mod Leading
pub mod Ordered
pub mod Reordered
use mathlib.Core.Path.{◌≡◌, refl}
use mathlib.Core.Logic.{inl, inr}
use mathlib.Core.Bool.{Bool}
use mathlib.Core.Option.{Option, none, some}
use mathlib.Core.List.{List, [], ◌∷◌, Perm}
use mathlib.Core.List.Perm
use native.Mathlib.Omega.{arith}
use asymmetric_committee.Base.Tests.{if◌then◌else◌, Bool-cases}

module _ {ℓ} {A : Type ℓ} (le : A → A → Bool) where
  abbrev pub insert_by : A → List A → List A
  insert_by x [] = x ∷ []
  insert_by x (y ∷ ys) = if le x y then x ∷ y ∷ ys else y ∷ insert_by x ys

  abbrev pub sort_by : List A → List A
  sort_by [] = []
  sort_by (x ∷ xs) = insert_by x (sort_by xs)

module _ {ℓ} {A : Type ℓ} where
  abbrev pub head? : List A → Option A
  head? [] = none
  head? (x ∷ xs) = some x

  -- `min(xs, key=…)`: the first among the least
  abbrev pub least_by : (A → A → Bool) → List A → Option A
  least_by le [] = none
  least_by le (x ∷ xs) = elim (least_by le xs) [
    | none ↦ some x
    | some y ↦ if le x y then some x else some y
  ]

  pub head?-insert_by :
      (le : A → A → Bool) (x : A) (ys : List A)
      → head? (insert_by le x ys)
        ≡ (elim (head? ys) [ none ↦ some x | some y ↦ if le x y then some x else some y ])
  head?-insert_by le x [] = refl
  head?-insert_by le x (y ∷ ys) = ground arith

  -- A sorted list begins with the least element.
  pub head?-sort_by : (le : A → A → Bool) (xs : List A) → head? (sort_by le xs) ≡ least_by le xs
  head?-sort_by le [] = refl
  head?-sort_by le (x ∷ xs) = rw (head?-insert_by, head?-sort_by le xs)

  pub insert_by-perm : (le : A → A → Bool) (x : A) (ys : List A) → Perm (insert_by le x ys) (x ∷ ys)
  insert_by-perm le x [] = Perm.refl _
  insert_by-perm le x (y ∷ ys) = elim (Bool-cases (le x y)) [
    | inl e ↦ rw e (Perm.refl _)
    | inr e ↦ rw e (Perm.trans (Perm.cons y (insert_by-perm le x ys)) (Perm.swap _ _ _))
  ]

  pub sort_by-perm : (le : A → A → Bool) (xs : List A) → Perm (sort_by le xs) xs
  sort_by-perm le [] = Perm.refl _
  sort_by-perm le (x ∷ xs) =
      Perm.trans (insert_by-perm le x (sort_by le xs)) (Perm.cons x (sort_by-perm le xs))
