-- ===== src/Base/Actions/Keeps.antt =====
-- Invariants of actions: one rule for each way to build an action.
use mathlib.Core.Path.{◌≡◌, refl, subst}
use mathlib.Core.Bool.{Bool, true, false}
use mathlib.Core.Option.{Option, none, some}
use asymmetric_committee.Base.Tests.{if◌then◌else◌}
use asymmetric_committee.Base.Actions.{
  Result, ok, err, Exec, pure, raise, lift, gets, modify, attempt, handled, continue, ◌>>=◌,
}

-- `m` keeps `P`, whether it returns or raises.
pub record Keeps {ℓ} {E S A : Type ℓ} (P : S → Type ℓ) (m : Exec E S A) : Type ℓ where
  pub at : (s : S) → P s → P (m s).1

module _ {ℓ} {E S A : Type ℓ} {P : S → Type ℓ} where
  -- an action that does not write
  Keeps-reader : (m : Exec E S A) → ((s : S) → s ≡ (m s).1) → Keeps P m
  Keeps-reader m same_state = record { at = λ s. subst P (same_state s) }

  pub Keeps-gets : (f : S → A) → Keeps P (gets {E = E} f)
  unfolding gets
  Keeps-gets f = Keeps-reader (gets f) (λ _. refl)

  pub Keeps-lift : (r : Result E A) → Keeps P (lift r)
  unfolding lift
  Keeps-lift r = Keeps-reader (lift r) (λ _. refl)

  pub Keeps-raise : (e : E) → Keeps P (raise {A = A} e)
  unfolding raise
  Keeps-raise e = Keeps-reader (raise e) (λ _. refl)

  pub Keeps-pure : (a : A) → Keeps P (pure {E = E} a)
  unfolding pure
  Keeps-pure a = Keeps-reader (pure a) (λ _. refl)

  pub Keeps-if :
      (b : Bool) (m n : Exec E S A) → Keeps P m → Keeps P n → Keeps P (if b then m else n)
  Keeps-if true m n km kn = km
  Keeps-if false m n km kn = kn

  Keeps-handled :
      (handler : E → Exec E S A) (r : Result E A) (s : S)
      → ((e : E) → Keeps P (handler e))
      → P s
      → P (handled handler r s).1
  Keeps-handled handler (ok a) s k h = h
  Keeps-handled handler (err e) s k h = (k e).at s h

  pub Keeps-attempt :
      (m : Exec E S A) (handler : E → Exec E S A)
      → Keeps P m
      → ((e : E) → Keeps P (handler e))
      → Keeps P (attempt m handler)
  unfolding attempt
  Keeps-attempt m handler km k = record {
    at = λ s h. let (r, s') = m s in Keeps-handled handler r s' k (km.at s h);
  }

module _ {ℓ} {E S : Type ℓ} {P : S → Type ℓ} where
  pub Keeps-modify : (f : S → S) → ((s : S) → P s → P (f s)) → Keeps P (modify {E = E} f)
  unfolding modify
  Keeps-modify f k = record { at = k }

module _ {ℓ} {E S A B : Type ℓ} where
  continue_at :
      (Q : S → Type ℓ) (r : Result E A) (f : A → Exec E S B) (s : S)
      → Q s
      → ((a : A) → Keeps Q (f a))
      → Q (continue r f s).1
  continue_at Q (ok a) f s q k = (k a).at s q
  continue_at Q (err e) f s q k = q

  -- The first action may break what the rest then keeps.
  pub bind_at :
      (Q : S → Type ℓ) (m : Exec E S A) (f : A → Exec E S B) (s : S)
      → Q (m s).1
      → ((a : A) → Keeps Q (f a))
      → Q ((m >>= f) s).1
  unfolding ◌>>=◌
  bind_at Q m f s q k = let (r, s') = m s in continue_at Q r f s' q k

module _ {ℓ} {E S A B : Type ℓ} {P : S → Type ℓ} where
  Keeps-continue :
      (r : Result E A) (f : A → Exec E S B) (s : S)
      → ((a : A) → Keeps P (f a))
      → P s
      → P (continue r f s).1
  Keeps-continue (ok a) f s k h = (k a).at s h
  Keeps-continue (err e) f s k h = h

  pub Keeps-bind :
      (m : Exec E S A) (f : A → Exec E S B)
      → Keeps P m
      → ((a : A) → Keeps P (f a))
      → Keeps P (m >>= f)
  unfolding ◌>>=◌
  Keeps-bind m f first next = record {
    at = λ s before. Keeps-continue (m s).0 f (m s).1 next (first.at s before);
  }

  -- a match on an Option inside an action
  pub Keeps-option :
      (o : Option A) (m : Exec E S B) (f : A → Exec E S B)
      → Keeps P m
      → ((a : A) → Keeps P (f a))
      → Keeps P (elim o [ none ↦ m | some a ↦ f a ])
  Keeps-option none m f km kf = km
  Keeps-option (some a) m f km kf = kf a

pub ruleset keeps_rules =
    (Keeps-pure, Keeps-raise, Keeps-lift, Keeps-gets, Keeps-if, Keeps-attempt, Keeps-bind)
