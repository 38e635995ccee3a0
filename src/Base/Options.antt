-- ===== src/Base/Options.antt =====
-- Chains of results that may be missing.
use mathlib.Core.Path.{◌≡◌, refl}
use mathlib.Core.Bool.{true}
use mathlib.Core.Option.{Option, none, some}
use asymmetric_committee.Base.Tests.{is_some}

module _ {ℓ κ} {A : Type ℓ} {B : Type κ} where
  infixl 10 ◌>>=◌
  abbrev pub ◌>>=◌ : Option A → (A → Option B) → Option B
  none >>= f = none
  some a >>= f = f a

  -- A chain has a result where its first step has one and each such result leads on to one.
  pub >>=-is_some :
      (o : Option A) (f : A → Option B)
      → is_some o ≡ true
      → ((a : A) → o ≡ some a → is_some (f a) ≡ true)
      → is_some (o >>= f) ≡ true
  >>=-is_some none f h k = absurd (cc)
  >>=-is_some (some a) f h k = k a refl
