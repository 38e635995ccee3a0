-- ===== src/Base/Sort/Ordered.antt =====
-- A sorted list is in order, and has the elements of its input.
use mathlib.Core.Path.{◌≡◌}
use mathlib.Core.Logic.{◌⊎◌, inl, inr}
use mathlib.Core.Bool.{Bool, true, false}
use mathlib.Core.List.{List, [], ◌∷◌}
use asymmetric_committee.Base.Tests.{Bool-cases}
use asymmetric_committee.Base.Lists.{All, Elem, All-weaken}
use asymmetric_committee.Base.Sort.{insert_by, sort_by}

-- Each element stands in order with all that follow it.
abbrev pub InOrder : {A : Type 0} → (A → A → Bool) → List A → Type 0
InOrder le [] = Unit
InOrder le (x ∷ xs) = All (λ y. le x y ≡ true) xs × InOrder le xs

module _ {A : Type 0} (le : A → A → Bool) where
  pub insert_by-All :
      (P : A → Type 0) (x : A) (ys : List A) → P x → All P ys → All P (insert_by le x ys)
  insert_by-All P x [] p h = (p, tt)
  insert_by-All P x (y ∷ ys) p h = elim (Bool-cases (le x y)) [
    | inl e ↦ rw e (p, h)
    | inr e ↦ rw e (h.0, insert_by-All P x ys p h.1)
  ]

  pub sort_by-All : (P : A → Type 0) (xs : List A) → All P xs → All P (sort_by le xs)
  sort_by-All P [] h = tt
  sort_by-All P (x ∷ xs) h = insert_by-All P x (sort_by le xs) h.0 (sort_by-All P xs h.1)

  Elem-insert_by : (a x : A) (ys : List A) → (a ≡ x) ⊎ Elem a ys → Elem a (insert_by le x ys)
  Elem-insert_by a x [] h = h
  Elem-insert_by a x (y ∷ ys) (inl p) = elim (Bool-cases (le x y)) [
    | inl e ↦ rw e (inl p)
    | inr e ↦ rw e (inr (Elem-insert_by a x ys (inl p)))
  ]
  Elem-insert_by a x (y ∷ ys) (inr (inl p)) = elim (Bool-cases (le x y)) [
    | inl e ↦ rw e (inr (inl p))
    | inr e ↦ rw e (inl p)
  ]
  Elem-insert_by a x (y ∷ ys) (inr (inr p)) = elim (Bool-cases (le x y)) [
    | inl e ↦ rw e (inr (inr p))
    | inr e ↦ rw e (inr (Elem-insert_by a x ys (inr p)))
  ]

  pub Elem-sort_by : (a : A) (xs : List A) → Elem a xs → Elem a (sort_by le xs)
  Elem-sort_by a [] h = h
  Elem-sort_by a (x ∷ xs) (inl p) = Elem-insert_by a x (sort_by le xs) (inl p)
  Elem-sort_by a (x ∷ xs) (inr p) = Elem-insert_by a x (sort_by le xs) (inr (Elem-sort_by a xs p))

  module _ (total : (x y : A) → le x y ≡ false → le y x ≡ true)
      (transitive : (x y z : A) → le x y ≡ true → le y z ≡ true → le x z ≡ true) where
    insert_by-InOrder : (x : A) (ys : List A) → InOrder le ys → InOrder le (insert_by le x ys)
    insert_by-InOrder x [] h = (tt, tt)
    insert_by-InOrder x (y ∷ ys) h = elim (Bool-cases (le x y)) [
      | inl e ↦ rw e ((e, All-weaken _ _ ys (λ z. transitive x y z e) h.0), h)
      | inr e ↦
          rw e
            (insert_by-All (λ z. le y z ≡ true) x ys (total x y e) h.0, insert_by-InOrder x ys h.1)
    ]

    pub sort_by-InOrder : (xs : List A) → InOrder le (sort_by le xs)
    sort_by-InOrder [] = tt
    sort_by-InOrder (x ∷ xs) = insert_by-InOrder x (sort_by le xs) (sort_by-InOrder xs)
