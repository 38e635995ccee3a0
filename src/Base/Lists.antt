-- ===== src/Base/Lists.antt =====
-- Lists over the native numbers, and a predicate and a membership by recursion, which the tactics
-- read and build.
use Prim.Native.Nat.{ℕ, suc, ◌+◌}
use mathlib.Core.Path.{◌≡◌, refl, subst, sym}
use mathlib.Core.Logic.{◌⊎◌, inl, inr}
use mathlib.Core.Bool.{Bool, true, false, ◌||◌, ◌&&◌}
use mathlib.Core.List.{List, [], ◌∷◌, ◌++◌}
use native.Mathlib.Omega.{arith}
use asymmetric_committee.Base.Tests.{if◌then◌else◌, Bool-cases}

module _ {ℓ} {A : Type ℓ} where
  abbrev pub length : List A → ℕ
  length [] = 0
  length (x ∷ xs) = suc (length xs)

  -- `any(p(x) for x in xs)`
  abbrev pub any : (A → Bool) → List A → Bool
  any p [] = false
  any p (x ∷ xs) = p x || any p xs

  -- `all(p(x) for x in xs)`
  abbrev pub all : (A → Bool) → List A → Bool
  all p [] = true
  all p (x ∷ xs) = p x && all p xs

  -- `[x for x in xs if p(x)]`
  abbrev pub filter : (A → Bool) → List A → List A
  filter p [] = []
  filter p (x ∷ xs) = if p x then x ∷ filter p xs else filter p xs

  pub length-append : (xs ys : List A) → length (xs ++ ys) ≡ length xs + length ys
  length-append [] ys = omega arith
  length-append (x ∷ xs) ys = omega (arith, length-append xs ys)

-- `x` occurs in the list
abbrev pub Elem : {A : Type 0} → A → List A → Type 0
Elem a [] = ⊥
Elem a (x ∷ xs) = (a ≡ x) ⊎ Elem a xs

module _ {ℓ κ} {A : Type ℓ} where
  abbrev pub All : (A → Type κ) → List A → Type κ
  All P [] = Unit
  All P (x ∷ xs) = P x × All P xs

-- The two lists have one length, and their elements correspond.
abbrev pub AllPairs : {A B : Type 0} → (A → B → Type 0) → List A → List B → Type 0
AllPairs P [] [] = Unit
AllPairs P (x ∷ xs) (y ∷ ys) = P x y × AllPairs P xs ys
AllPairs P _ _ = ⊥

-- Each element of a list is an element of it.
pub All-weaken :
    {A : Type 0} (P Q : A → Type 0) (xs : List A) → ((x : A) → P x → Q x) → All P xs → All Q xs
All-weaken P Q [] f h = tt
All-weaken P Q (x ∷ xs) f h = (f x h.0, All-weaken P Q xs f h.1)

pub All-Elem : {A : Type 0} (xs : List A) → All (λ x. Elem x xs) xs
All-Elem [] = tt
All-Elem (x ∷ xs) =
    (inl refl, All-weaken (λ y. Elem y xs) (λ y. Elem y (x ∷ xs)) xs (λ y h. inr h) (All-Elem xs))

pub Elem-All : {A : Type 0} (P : A → Type 0) (x : A) (xs : List A) → All P xs → Elem x xs → P x
Elem-All P x [] h e = absurd e
Elem-All P x (y ∷ ys) h (inl e) = subst P (sym e) h.0
Elem-All P x (y ∷ ys) h (inr e) = Elem-All P x ys h.1 e

pub any-Elem :
    {A : Type 0} (p : A → Bool) (xs : List A) → any p xs ≡ true → (x : A) × Elem x xs × (p x ≡ true)
any-Elem p [] h = absurd (cc)
any-Elem p (x ∷ xs) h = elim (Bool-cases (p x)) [
  | inl holds ↦ (x, inl refl, holds)
  | inr fails ↦ let (y, e, q) = any-Elem p xs (rw fails at h) in (y, inr e, q)
]

pub not-any :
    {A : Type 0} (p : A → Bool) (xs : List A) → any p xs ≡ false → All (λ x. p x ≡ false) xs
not-any p [] h = tt
not-any p (x ∷ xs) h = elim (Bool-cases (p x)) [
  | inl holds ↦ absurd (cc (rw holds at h))
  | inr fails ↦ (fails, not-any p xs (rw fails at h))
]

pub Elem-filter :
    {A : Type 0} (p : A → Bool) (x : A) (xs : List A)
    → Elem x (filter p xs)
    → Elem x xs × (p x ≡ true)
Elem-filter p x [] h = absurd h
Elem-filter p x (y ∷ ys) h = elim (Bool-cases (p y)) [
  | inl holds ↦ elim (rw holds at h) as (λ _. Elem x (y ∷ ys) × (p x ≡ true)) [
    | inl e ↦ (inl e, subst (λ z. p z ≡ true) (sym e) holds)
    | inr e ↦ let (r, q) = Elem-filter p x ys e in (inr r, q)
  ]
  | inr fails ↦ let (r, q) = Elem-filter p x ys (rw fails at h) in (inr r, q)
]

pub All-filter :
    {A : Type 0} (p : A → Bool) (P : A → Type 0) (xs : List A)
    → All P (filter p xs)
    → All (λ x. p x ≡ true → P x) xs
All-filter p P [] h = tt
All-filter p P (x ∷ xs) h = elim (Bool-cases (p x)) [
  | inl holds ↦ let k : All P (x ∷ filter p xs) = rw holds at h in (λ _. k.0, All-filter p P xs k.1)
  | inr fails ↦ (λ q. absurd (cc), All-filter p P xs (rw fails at h))
]

pub filter-Elem :
    {A : Type 0} (p : A → Bool) (x : A) (xs : List A)
    → Elem x xs
    → p x ≡ true
    → Elem x (filter p xs)
filter-Elem p x [] h q = h
filter-Elem p x (y ∷ ys) (inl e) q =
    let r : p y ≡ true = subst (λ z. p z ≡ true) e q in rw r (inl e)
filter-Elem p x (y ∷ ys) (inr e) q = elim (Bool-cases (p y)) [
  | inl holds ↦ rw holds (inr (filter-Elem p x ys e q))
  | inr fails ↦ rw fails (filter-Elem p x ys e q)
]
