-- ===== src/Base/Actions.antt =====
-- Python code that may raise. A pure function returns a `Result`; a method on shared objects is an
-- `Exec`: what was written before a raise stays written, so the state comes back beside the error.
pub mod Keeps
pub mod Triple
use mathlib.Core.Path.{◌≡◌, refl}
use mathlib.Core.Bool.{Bool, true, false}
use asymmetric_committee.Base.Tests.{if◌then◌else◌}

pub data Result {ℓ} (E A : Type ℓ) : Type ℓ where
  ok : A → Result E A
  err : E → Result E A

module _ {ℓ} {E A B : Type ℓ} where
  abbrev pub and_then : Result E A → (A → Result E B) → Result E B
  and_then (ok a) f = f a
  and_then (err e) f = err e

  pub and_then-ok :
      (r : Result E A) (f : A → Result E B) (b : B)
      → and_then r f ≡ ok b
      → (a : A) × (r ≡ ok a) × (f a ≡ ok b)
  and_then-ok (ok a) f b h = (a, refl, h)
  and_then-ok (err e) f b h = absurd (cc)

  pub and_then-defined :
      (r : Result E A) (f : A → Result E B) (a : A)
      → r ≡ ok a
      → (b : B) × (f a ≡ ok b)
      → (b : B) × (and_then r f ≡ ok b)
  and_then-defined (ok c) f a h (b, e) = (b, cc)
  and_then-defined (err c) f a h (b, e) = absurd (cc)

-- The result, if there is one, satisfies `Q`.
abbrev pub IfOk : {E A : Type 0} → (A → Type 0) → Result E A → Type 0
IfOk Q (ok a) = Q a
IfOk Q (err e) = Unit

pub IfOk-and_then :
    {E A B : Type 0} (Q : B → Type 0) (r : Result E A) (f : A → Result E B)
    → ((a : A) → r ≡ ok a → IfOk Q (f a))
    → IfOk Q (and_then r f)
IfOk-and_then Q (ok a) f k = k a refl
IfOk-and_then Q (err e) f k = tt

pub IfOk-unless :
    {E A : Type 0} (Q : A → Type 0) (b : Bool) (e : E) (r : Result E A)
    → IfOk Q r
    → IfOk Q (if b then err e else r)
IfOk-unless Q true e r h = tt
IfOk-unless Q false e r h = h

abbrev pub Exec {ℓ} : Type ℓ → Type ℓ → Type ℓ → Type ℓ
Exec E S A = S → Result E A × S

module _ {ℓ} {E S A : Type ℓ} where
  unfoldable pub pure : A → Exec E S A
  pure a s = (ok a, s)

  unfoldable pub raise : E → Exec E S A
  raise e s = (err e, s)

  unfoldable pub lift : Result E A → Exec E S A
  lift r s = (r, s)

  unfoldable pub gets : (S → A) → Exec E S A
  gets f s = (ok (f s), s)

  abbrev pub handled : (E → Exec E S A) → Result E A → Exec E S A
  handled handler (ok a) s = (ok a, s)
  handled handler (err e) s = handler e s

  -- `try: m  except …: handler`, where the handler raises what it does not handle
  unfoldable pub attempt : Exec E S A → (E → Exec E S A) → Exec E S A
  attempt m handler s = let (r, s') = m s in handled handler r s'

module _ {ℓ} {E S : Type ℓ} where
  unfoldable pub modify : (S → S) → Exec E S Unit
  modify f s = (ok tt, f s)

module _ {ℓ} {E S A B : Type ℓ} where
  abbrev pub continue : Result E A → (A → Exec E S B) → Exec E S B
  continue (ok a) f s = f a s
  continue (err e) f s = (err e, s)

  infixl 10 ◌>>=◌ ◌>>◌
  -- to open this is to open the plain actions too
  unfoldable pub ◌>>=◌ : Exec E S A → (A → Exec E S B) → Exec E S B
  unfolding pure raise lift gets modify attempt
  ◌>>=◌ m f s = let (r, s') = m s in continue r f s'

  abbrev pub ◌>>◌ : Exec E S A → Exec E S B → Exec E S B
  m >> k = m >>= λ _. k

-- A test inside an action, at a state.
pub if_at {ℓ} :
    {E S A : Type ℓ} (b : Bool) (m n : Exec E S A) (s : S)
    → (if b then m else n) s ≡ (if b then m s else n s)
if_at true m n s = refl
if_at false m n s = refl
