-- ===== src/Base/Sort/Leading.antt =====
-- The first elements of a sorted list stand before the others.
use Prim.Native.Nat.{ℕ, zero, suc, ◌≤◌}
use mathlib.Core.Path.{◌≡◌, subst, sym}
use mathlib.Core.Logic.{inl, inr}
use mathlib.Core.Bool.{Bool, true}
use mathlib.Core.List.{List, [], ◌∷◌}
use native.Mathlib.Omega.{arith}
use asymmetric_committee.Base.Lists.{Elem, Elem-All, length}
use asymmetric_committee.Base.Sort.Ordered.{InOrder}

module _ {ℓ} {A : Type ℓ} where
  -- `xs[:n]`
  abbrev pub take : ℕ → List A → List A
  take zero xs = []
  take (suc n) [] = []
  take (suc n) (x ∷ xs) = x ∷ take n xs

  pub length-take_le : (n : ℕ) (xs : List A) → length (take n xs) ≤ n
  length-take_le zero xs = omega arith
  length-take_le (suc n) [] = omega arith
  length-take_le (suc n) (x ∷ xs) = omega (arith, length-take_le n xs)

module _ {A : Type 0} where
  pub Elem-take : (n : ℕ) (x : A) (xs : List A) → Elem x (take n xs) → Elem x xs
  Elem-take zero x xs e = absurd e
  Elem-take (suc n) x [] e = absurd e
  Elem-take (suc n) x (y ∷ ys) (inl p) = inl p
  Elem-take (suc n) x (y ∷ ys) (inr e) = inr (Elem-take n x ys e)

  pub take-leads :
      (le : A → A → Bool) (n : ℕ) (xs : List A)
      → InOrder le xs
      → (a b : A) → Elem a (take n xs)
      → Elem b xs
      → (Elem b (take n xs) → ⊥)
      → le a b ≡ true
  take-leads le zero xs o a b e f out = absurd e
  take-leads le (suc n) [] o a b e f out = absurd e
  take-leads le (suc n) (x ∷ xs) o a b e (inl q) out = absurd (out (inl q))
  take-leads le (suc n) (x ∷ xs) o a b (inl p) (inr f) out =
      subst (λ z. le z b ≡ true) (sym p) (Elem-All (λ y. le x y ≡ true) b xs o.0 f)
  take-leads le (suc n) (x ∷ xs) o a b (inr e) (inr f) out =
      take-leads le n xs o.1 a b e f (λ k. out (inr k))
