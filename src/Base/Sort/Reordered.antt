-- ===== src/Base/Sort/Reordered.antt =====
-- When sorting forgets the order of its input: the order is total and transitive, and of elements
-- that stand in both orders there is one.
use mathlib.Core.Path.{◌≡◌, refl, sym, ap, ◌∙◌}
use mathlib.Core.Logic.{inl, inr}
use mathlib.Core.Bool.{Bool, true, false}
use mathlib.Core.List.{List, [], ◌∷◌}
use native.Mathlib.Omega.{arith}
use asymmetric_committee.Base.Tests.{Bool-cases}
use asymmetric_committee.Base.Lists.{All}
use asymmetric_committee.Base.Sort.{insert_by, sort_by}

-- One list is a reordering of the other.
pub data Reordered {A : Type 0} : List A → List A → Type 0 where
  empty : Reordered [] []
  keep : (x : A) {xs ys : List A} → Reordered xs ys → Reordered (x ∷ xs) (x ∷ ys)
  swap : (x y : A) (zs : List A) → Reordered (x ∷ y ∷ zs) (y ∷ x ∷ zs)
  chain : {xs ys zs : List A} → Reordered xs ys → Reordered ys zs → Reordered xs zs

pub Reordered-All :
    {A : Type 0} (P : A → Type 0) {xs ys : List A} → Reordered xs ys → All P xs → All P ys
Reordered-All P empty h = h
Reordered-All P (keep x r) h = (h.0, Reordered-All P r h.1)
Reordered-All P (swap x y zs) h = (h.1.0, (h.0, h.1.1))
Reordered-All P (chain r s) h = Reordered-All P s (Reordered-All P r h)

module _ {A : Type 0} (le : A → A → Bool) (total : (x y : A) → le x y ≡ false → le y x ≡ true)
    (transitive : (x y z : A) → le x y ≡ true → le y z ≡ true → le x z ≡ true) where
  pub insert_by_comm :
      (x y : A) (zs : List A)
      → (le x y ≡ true → le y x ≡ true → x ≡ y)
      → insert_by le x (insert_by le y zs) ≡ insert_by le y (insert_by le x zs)
  insert_by_comm x y [] same = elim (Bool-cases (le x y)) [
    | inl a ↦ elim (Bool-cases (le y x)) [
      | inl b ↦
          ap (λ w. insert_by le w (insert_by le y [])) (same a b)
          ∙ ap (λ w. insert_by le y (insert_by le w [])) (sym (same a b))
      | inr b ↦ rw (a, b) refl
    ]
    | inr a ↦ rw (a, total x y a) refl
  ]
  insert_by_comm x y (z ∷ zs) same = ground (
    arith,
    same,
    total x y,
    total y x,
    transitive x y z,
    transitive y x z,
    insert_by_comm x y zs same,
  )

  -- `P` singles out elements of which no two different ones stand in both orders.
  module _ (P : A → Type 0)
      (distinct : (x y : A) → P x → P y → le x y ≡ true → le y x ≡ true → x ≡ y) where
    pub sort_by-Reordered :
        {xs ys : List A} → Reordered xs ys → All P xs → sort_by le xs ≡ sort_by le ys
    sort_by-Reordered empty h = refl
    sort_by-Reordered (keep x r) h = ap (insert_by le x) (sort_by-Reordered r h.1)
    sort_by-Reordered (swap x y zs) h = insert_by_comm x y (sort_by le zs) (distinct x y h.0 h.1.0)
    sort_by-Reordered (chain r s) h =
        sort_by-Reordered r h ∙ sort_by-Reordered s (Reordered-All P r h)
