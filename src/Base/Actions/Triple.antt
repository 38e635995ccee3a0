-- ===== src/Base/Actions/Triple.antt =====
-- Actions from one assertion on the state to another: one for each result, and one for a raise.
use mathlib.Core.Path.{◌≡◌, refl}
use mathlib.Core.Bool.{Bool, true, false}
use asymmetric_committee.Base.Tests.{if◌then◌else◌}
use asymmetric_committee.Base.Actions.{
  Result, ok, err, Exec, pure, raise, lift, gets, modify, attempt, handled, continue, ◌>>=◌,
}
use asymmetric_committee.Base.Actions.Keeps.{Keeps}

module _ {E S A : Type 0} where
  abbrev pub Ends : (A → S → Type 0) → (S → Type 0) → Result E A × S → Type 0
  Ends Q R (ok a, s) = Q a s
  Ends Q R (err e, s) = R s

module _ {E S A : Type 0} {Q Q' : A → S → Type 0} {R R' : S → Type 0} where
  pub Ends-weaken :
      (r : Result E A × S)
      → ((a : A) (s : S) → Q a s → Q' a s)
      → ((s : S) → R s → R' s)
      → Ends Q R r
      → Ends Q' R' r
  Ends-weaken (ok a, s) f g h = f a s h
  Ends-weaken (err e, s) f g h = g s h

-- From a state with `P` the action returns with `Q`, or raises with `R`.
pub record Triple {E S A : Type 0} (P : S → Type 0) (m : Exec E S A) (Q : A → S → Type 0)
    (R : S → Type 0) : Type 0 where
  pub run : (s : S) → P s → Ends Q R (m s)

module _ {E S A : Type 0} {P R : S → Type 0} where
  pub Triple-pure :
      (Q : A → S → Type 0) (a : A) → ((s : S) → P s → Q a s) → Triple P (pure {E = E} a) Q R
  unfolding pure
  Triple-pure Q a k = record { run = k }

  pub Triple-raise :
      (Q : A → S → Type 0) (e : E) → ((s : S) → P s → R s) → Triple P (raise {A = A} e) Q R
  unfolding raise
  Triple-raise Q e k = record { run = k }

  pub Triple-lifted :
      (Q : A → S → Type 0) (r : Result E A)
      → ((a : A) → r ≡ ok a → (s : S) → P s → Q a s)
      → ((s : S) → P s → R s)
      → Triple P (lift r) Q R
  unfolding lift
  Triple-lifted Q (ok a) k failing = record { run = k a refl }
  Triple-lifted Q (err e) k failing = record { run = failing }

  -- what is known beside an assertion
  pub Triple-given :
      (X : Type 0) (Q : A → S → Type 0) (m : Exec E S A)
      → (X → Triple P m Q R)
      → Triple (λ s. P s × X) m Q R
  Triple-given X Q m k = record { run = λ s p. (k p.1).run s p.0 }

  pub Triple-if :
      (Q : A → S → Type 0) (b : Bool) (m n : Exec E S A)
      → (b ≡ true → Triple P m Q R)
      → (b ≡ false → Triple P n Q R)
      → Triple P (if b then m else n) Q R
  Triple-if Q true m n k l = k refl
  Triple-if Q false m n k l = l refl

  -- an action that keeps an assertion, whatever it returns
  pub Triple-Keeps :
      (Q : S → Type 0) (m : Exec E S A)
      → Keeps Q m
      → ((s : S) → P s → Q s)
      → ((s : S) → Q s → R s)
      → Triple P m (λ _. Q) R
  Triple-Keeps Q m k before after = record { run = λ s p. go (m s) (k.at s (before s p)) }
    where
      go : (r : Result E A × S) → Q r.1 → Ends (λ _. Q) R r
      go (ok a, s) q = q
      go (err e, s) q = after s q

  pub Triple-weaken :
      (P' : S → Type 0) (Q Q' : A → S → Type 0) (m : Exec E S A)
      → Triple P' m Q' R
      → ((s : S) → P s → P' s)
      → ((a : A) (s : S) → Q' a s → Q a s)
      → Triple P m Q R
  Triple-weaken P' Q Q' m t before after = record { run = λ s p. go (m s) (t.run s (before s p)) }
    where
      go : (r : Result E A × S) → Ends Q' R r → Ends Q R r
      go (ok a, s) q = after a s q
      go (err e, s) q = q

  pub Triple-attempt :
      (Q : A → S → Type 0) (R' : S → Type 0) (m : Exec E S A) (handler : E → Exec E S A)
      → Triple P m Q R'
      → ((e : E) → Triple R' (handler e) Q R)
      → Triple P (attempt m handler) Q R
  unfolding attempt
  Triple-attempt Q R' m handler t k = record { run = λ s p. go (m s) (t.run s p) }
    where
      go : (r : Result E A × S) → Ends Q R' r → Ends Q R (handled handler r.0 r.1)
      go (ok a, s) q = q
      go (err e, s) q = (k e).run s q

module _ {E S A B : Type 0} {P R : S → Type 0} where
  pub Triple-bind :
      (Q : B → S → Type 0) (Q' : A → S → Type 0) (m : Exec E S A) (f : A → Exec E S B)
      → Triple P m Q' R
      → ((a : A) → Triple (Q' a) (f a) Q R)
      → Triple P (m >>= f) Q R
  unfolding ◌>>=◌
  Triple-bind Q Q' m f t k = record { run = λ s p. go (m s) (t.run s p) }
    where
      go : (r : Result E A × S) → Ends Q' R r → Ends Q R (continue r.0 f r.1)
      go (ok a, s) q = (k a).run s q
      go (err e, s) q = q

  -- a value read from the state, and one computed, with what is then known of it
  pub Triple-gets :
      (Q : B → S → Type 0) (g : S → A) (f : A → Exec E S B)
      → ((a : A) → Triple (λ s. P s × (g s ≡ a)) (f a) Q R)
      → Triple P (gets g >>= f) Q R
  unfolding ◌>>=◌ gets
  Triple-gets Q g f k = record { run = λ s p. (k (g s)).run s (p, refl) }

  pub Triple-gets_from :
      (Q : B → S → Type 0) (g : S → A) (f : A → Exec E S B)
      → ((s : S) → Triple P (f (g s)) Q R)
      → Triple P (gets g >>= f) Q R
  unfolding ◌>>=◌ gets
  Triple-gets_from Q g f k = record { run = λ s p. (k s).run s p }

  pub Triple-lift :
      (Q : B → S → Type 0) (r : Result E A) (f : A → Exec E S B)
      → ((s : S) → P s → R s)
      → ((a : A) → r ≡ ok a → Triple P (f a) Q R)
      → Triple P (lift r >>= f) Q R
  unfolding ◌>>=◌ lift
  Triple-lift Q (ok a) f failing k = record { run = λ s p. (k a refl).run s p }
  Triple-lift Q (err e) f failing k = record { run = failing }

module _ {E S B : Type 0} {P R : S → Type 0} where
  pub Triple-modify :
      (P' : S → Type 0) (Q : B → S → Type 0) (g : S → S) (f : Unit → Exec E S B)
      → ((s : S) → P s → P' (g s))
      → Triple P' (f tt) Q R
      → Triple P (modify g >>= f) Q R
  unfolding ◌>>=◌ modify
  Triple-modify P' Q g f k t = record { run = λ s p. t.run (g s) (k s p) }
