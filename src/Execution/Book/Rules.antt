-- ===== src/Execution/Book/Rules.antt =====
-- How a phase carries a statement about each target and its leg. Errors are collected, so the
-- statements hold once the list of errors is empty, when `execute_book` returns outcomes.
use asymmetric_committee.Base.{
  ◌≡◌, ◌≢◌, refl, Bool, true, false, List, [], ◌∷◌, ◌++◌, AllPairs, Result, ok, err, ◌>>=◌, pure,
  Bool-cases, inl, inr, if◌then◌else◌, and_then, continue,
}
use asymmetric_committee.Execution.Gateway.{Error, World, M}
use asymmetric_committee.Execution.Leg.{ExecutionTarget, Leg, LegState, Step}
use asymmetric_committee.Execution.Book.{
  BookState, Phase, caught, guarded, visit, visit_all, phase, run_leg, each_leg, on_legs, put_legs,
  on_world,
}

abbrev pub LegFact : Type 1
LegFact = ExecutionTarget → Leg → Type 0

-- While no error was recorded, `P` holds of each target and its leg.
pub record Stands (P : LegFact) (ts : List ExecutionTarget) (s : BookState) : Type 0 where
  pub pairs : s.errors ≡ [] → AllPairs P ts s.legs

-- A phase that returns takes one statement to another; it drops no error.
abbrev pub OnReturn : (BookState → Type 0) → Result Error Unit × BookState → Type 0
OnReturn Q (ok _, s) = Q s
OnReturn Q (err _, s) = Unit

pub record Takes (P Q : BookState → Type 0) (m : Phase Unit) : Type 0 where
  pub at : (s : BookState) → P s → OnReturn Q (m s)

-- A step that returns takes `P` to `Q` where it is chosen; elsewhere `P` gives `Q`.
pub record StepTakes (choose : Bool → Leg → Bool) (P Q : LegFact) (step : Step Unit) : Type 0 where
  pub run :
      (t : ExecutionTarget) (stop : Bool) (s s' : LegState)
      → P t s.leg
      → choose stop s.leg ≡ true
      → step s ≡ (ok tt, s')
      → Q t s'.leg
  pub skip : (t : ExecutionTarget) (stop : Bool) (l : Leg) → P t l → choose stop l ≡ false → Q t l

append-ne-nil : (es : List Error) (e : Error) → es ++ e ∷ [] ≢ []
append-ne-nil [] e h = cc
append-ne-nil (x ∷ es) e h = cc

caught-errors :
    (s : BookState) (r : Result Error Unit) (after : LegState)
    → (caught s (r, after)).1.errors ≡ []
    → (r ≡ ok tt) × (s.errors ≡ [])
caught-errors s (ok u) after h = (refl, h)
caught-errors s (err e) after h = absurd (append-ne-nil s.errors e h)

module _ (choose : Bool → Leg → Bool) (step : Step Unit) where
  visit-errors : (l : Leg) (s : BookState) → (visit choose step l s).1.errors ≡ [] → s.errors ≡ []
  unfolding visit guarded
  visit-errors l s h = elim (Bool-cases (choose s.stop_exposure l)) [
    | inl yes_chosen ↦
        let (r, after) = step (record { world = s.world; leg = l }) in
        (caught-errors s r after (rw yes_chosen at h)).1
    | inr passed ↦ rw passed at h
  ]

  visit_all-errors :
      (ls : List Leg) (s : BookState) → (visit_all choose step ls s).1.errors ≡ [] → s.errors ≡ []
  unfolding visit_all
  visit_all-errors [] s h = h
  visit_all-errors (l ∷ ls) s h = visit-errors l s (visit_all-errors ls (visit choose step l s).1 h)

  module _ {P Q : LegFact} (k : StepTakes choose P Q step) where
    caught-takes :
        (t : ExecutionTarget) (s : BookState) (x : LegState)
        → P t x.leg
        → choose s.stop_exposure x.leg ≡ true
        → (caught s (step x)).1.errors ≡ []
        → Q t (caught s (step x)).0
    caught-takes t s x p c h = go (step x) refl h
      where
        go :
            (y : Result Error Unit × LegState)
            → step x ≡ y
            → (caught s y).1.errors ≡ []
            → Q t (caught s y).0
        go (ok tt, after) e h = k.run t s.stop_exposure x after p c e
        go (err e', after) e h = absurd (append-ne-nil s.errors e' h)

    visit-takes :
        (t : ExecutionTarget) (l : Leg) (s : BookState)
        → P t l
        → (visit choose step l s).1.errors ≡ []
        → Q t (visit choose step l s).0
    unfolding visit guarded
    visit-takes t l s p h = elim (Bool-cases (choose s.stop_exposure l)) [
      | inl chosen ↦
          rw chosen
            (caught-takes t s (record { world = s.world; leg = l }) p chosen (rw chosen at h))
      | inr passed ↦ rw passed (k.skip t s.stop_exposure l p passed)
    ]

    visit_all-takes :
        (ts : List ExecutionTarget) (ls : List Leg) (s : BookState)
        → AllPairs P ts ls
        → (visit_all choose step ls s).1.errors ≡ []
        → AllPairs Q ts (visit_all choose step ls s).0
    unfolding visit_all
    visit_all-takes [] [] s p h = tt
    visit_all-takes [] (l ∷ ls) s p h = absurd p
    visit_all-takes (t ∷ ts) [] s p h = absurd p
    visit_all-takes (t ∷ ts) (l ∷ ls) s p h = (
      visit-takes t l s p.0 (visit_all-errors ls (visit choose step l s).1 h),
      visit_all-takes ts ls (visit choose step l s).1 p.1 h,
    )

    pub phase-Takes :
        (ts : List ExecutionTarget) → Takes (Stands P ts) (Stands Q ts) (phase choose step)
    unfolding phase
    phase-Takes ts = record {
      at = λ s p. record {
        pairs = λ h. visit_all-takes ts s.legs s (p.pairs (visit_all-errors s.legs s h)) h;
      };
    }

abbrev OnLeg : (Leg → Type 0) → Result Error Leg × World → Type 0
OnLeg Q (ok l, w) = Q l
OnLeg Q (err e, w) = Unit

abbrev pub OnLegs : (List Leg → Type 0) → Result Error (List Leg) × World → Type 0
OnLegs Q (ok ls, w) = Q ls
OnLegs Q (err e, w) = Unit

module _ (choose : Leg → Bool) (step : Step Unit) {P Q : LegFact}
    (k : StepTakes (λ _. choose) P Q step) where
  run_leg-takes :
      (t : ExecutionTarget) (l : Leg) (w : World)
      → P t l
      → choose l ≡ true
      → OnLeg (Q t) (run_leg step l w)
  unfolding run_leg
  run_leg-takes t l w p c = go (step (record { world = w; leg = l })) refl
    where
      go :
          (y : Result Error Unit × LegState)
          → step (record { world = w; leg = l }) ≡ y
          → OnLeg (Q t) (and_then y.0 (λ _. ok y.1.leg), y.1.world)
      go (ok tt, after) e = k.run t false (record { world = w; leg = l }) after p c e
      go (err e', after) e = tt

  one-takes :
      (t : ExecutionTarget) (l : Leg) (w : World)
      → P t l
      → OnLeg (Q t) ((if choose l then run_leg step l else pure l) w)
  unfolding pure
  one-takes t l w p = elim (Bool-cases (choose l)) [
    | inl chosen ↦ rw chosen (run_leg-takes t l w p chosen)
    | inr passed ↦ rw passed (k.skip t false l p passed)
  ]

  pub each_leg-takes :
      (ts : List ExecutionTarget) (ls : List Leg) (w : World)
      → AllPairs P ts ls
      → OnLegs (AllPairs Q ts) (each_leg choose step ls w)
  unfolding each_leg ◌>>=◌
  each_leg-takes [] [] w p = tt
  each_leg-takes [] (l ∷ ls) w p = absurd p
  each_leg-takes (t ∷ ts) [] w p = absurd p
  each_leg-takes (t ∷ ts) (l ∷ ls) w p =
      go ((if choose l then run_leg step l else pure l) w) (one-takes t l w p.0)
        (λ w'. each_leg-takes ts ls w' p.1)
    where
      last :
          (l' : Leg) (z : Result Error (List Leg) × World)
          → Q t l'
          → OnLegs (AllPairs Q ts) z
          → OnLegs (AllPairs Q (t ∷ ts)) (continue z.0 (λ ls'. pure (l' ∷ ls')) z.1)
      last l' (ok ls', w') q rest = (q, rest)
      last l' (err e, w') q rest = tt

      go :
          (y : Result Error Leg × World)
          → OnLeg (Q t) y
          → ((w' : World) → OnLegs (AllPairs Q ts) (each_leg choose step ls w'))
          → OnLegs
              (AllPairs Q (t ∷ ts))
              (continue y.0 (λ l'. each_leg choose step ls >>= λ ls'. pure (l' ∷ ls')) y.1)
      go (ok l', w') q rest = last l' (each_leg choose step ls w') q (rest w')
      go (err e, w') q rest = tt

module _ (P Q : List Leg → Type 0) where
  pub OnLegs-bind :
      (m : M (List Leg)) (f : List Leg → M (List Leg)) (w : World)
      → OnLegs P (m w)
      → ((ls : List Leg) (w' : World) → P ls → OnLegs Q (f ls w'))
      → OnLegs Q ((m >>= f) w)
  unfolding ◌>>=◌
  OnLegs-bind m f w a k = go (m w) a
    where
      go : (y : Result Error (List Leg) × World) → OnLegs P y → OnLegs Q (continue y.0 f y.1)
      go (ok ls, w') q = k ls w' q
      go (err e, w') q = tt

module _ (Q : List Leg → Type 0) where
  pub OnLegs-after :
      (m : M Unit) (n : M (List Leg)) (w : World)
      → ((w' : World) → OnLegs Q (n w'))
      → OnLegs Q ((m >>= λ _. n) w)
  unfolding ◌>>=◌
  OnLegs-after m n w k = go (m w)
    where
      go : (y : Result Error Unit × World) → OnLegs Q (continue y.0 (λ _. n) y.1)
      go (ok _, w') = k w'
      go (err e, w') = tt

  pub OnLegs-if :
      (b : Bool) (m n : M (List Leg)) (w : World)
      → OnLegs Q (m w)
      → OnLegs Q (n w)
      → OnLegs Q ((if b then m else n) w)
  OnLegs-if true m n w a b = a
  OnLegs-if false m n w a b = b

module _ {P Q : LegFact} (ts : List ExecutionTarget) where
  pub on_legs-Takes :
      (f : List Leg → M (List Leg))
      → ((ls : List Leg) (w : World) → AllPairs P ts ls → OnLegs (AllPairs Q ts) (f ls w))
      → Takes (Stands P ts) (Stands Q ts) (on_legs f)
  unfolding on_legs
  on_legs-Takes f k = record {
    at = λ s p. go s (f s.legs s.world) (λ h. k s.legs s.world (p.pairs h));
  }
    where
      go :
          (s : BookState) (y : Result Error (List Leg) × World)
          → (s.errors ≡ [] → OnLegs (AllPairs Q ts) y)
          → OnReturn (Stands Q ts) (put_legs s y)
      go s (ok ls, w) q = record { pairs = q }
      go s (err e, w) q = tt

pub on_world-Takes :
    {P : LegFact} (ts : List ExecutionTarget) (m : M Unit)
    → Takes (Stands P ts) (Stands P ts) (on_world m)
unfolding on_world
on_world-Takes {P} ts m = record { at = λ s p. go s (m s.world) p }
  where
    go :
        (s : BookState) (y : Result Error Unit × World)
        → Stands P ts s
        → OnReturn (Stands P ts) (y.0, record s { world = y.1 })
    go s (ok _, w) p = record { pairs = p.pairs }
    go s (err e, w) p = tt

module _ {P Q R : BookState → Type 0} where
  pub Takes-then : (m n : Phase Unit) → Takes P Q m → Takes Q R n → Takes P R (m >>= λ _. n)
  unfolding ◌>>=◌
  Takes-then m n a b = record { at = λ s p. go (m s) (a.at s p) }
    where
      go :
          (y : Result Error Unit × BookState)
          → OnReturn Q y
          → OnReturn R (continue y.0 (λ _. n) y.1)
      go (ok _, s) q = b.at s q
      go (err e, s) q = tt
