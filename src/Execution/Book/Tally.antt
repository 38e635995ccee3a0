-- ===== src/Execution/Book/Tally.antt =====
-- How a phase changes the number of submissions under one client id.
use asymmetric_committee.Base.{
  ℕ, ◌+◌, ◌≤◌, ◌≡◌, refl, ◌∙◌, Bool, List, [], ◌∷◌, AllPairs, arith, Result, ok, err, pure, ◌>>=◌,
  continue, Keeps, Bool-cases, inl, inr, if◌then◌else◌, and_then,
}
use asymmetric_committee.Execution.Gateway.{Error, ClientId, Env, World, M}
use asymmetric_committee.Execution.Leg.{ExecutionTarget, Leg, LegState, Step, Settings}
use asymmetric_committee.Execution.Leg.Submissions.{submissions, AtMost, Quiet}
use asymmetric_committee.Execution.Leg.Adds.{Adds}
use asymmetric_committee.Execution.Book.{
  BookState, Phase, caught, guarded, visit, visit_all, phase, run_leg, each_leg, on_legs, put_legs,
  on_world,
}

-- The legs belong to the targets, in order.
abbrev pub OfTargets : List ExecutionTarget → List Leg → Type 0
OfTargets = AllPairs (λ t l. l.target ≡ t)

abbrev pub total : (ExecutionTarget → ℕ) → List ExecutionTarget → ℕ
total hit [] = 0
total hit (t ∷ ts) = hit t + total hit ts

-- `m` takes `P` to `Q`, whether it returns or raises.
pub record Leads (P Q : BookState → Type 0) (m : Phase Unit) : Type 0 where
  pub at : (s : BookState) → P s → Q (m s).1

pub Leads-then :
    {P Q R : BookState → Type 0} (m n : Phase Unit)
    → Leads P Q m
    → Leads Q R n
    → ((s : BookState) → Q s → R s)
    → Leads P R (m >>= λ _. n)
unfolding ◌>>=◌
Leads-then {P} {Q} {R} m n a b c = record { at = λ s p. go (m s) (a.at s p) }
  where
    go : (y : Result Error Unit × BookState) → Q y.1 → R (continue y.0 (λ _. n) y.1).1
    go (ok _, s) q = b.at s q
    go (err e, s) q = c s q

module _ (env : Env) (settings : Settings) (cid : ClientId) where
  abbrev pub Counted : List ExecutionTarget → ℕ → BookState → Type 0
  Counted ts n s = (submissions cid s.world.history ≤ n) × OfTargets ts s.legs

  pub Counted-le :
      (ts : List ExecutionTarget) (n m : ℕ)
      → n ≤ m
      → (s : BookState) → Counted ts n s
      → Counted ts m s
  Counted-le ts n m h s p = (omega arith, p.1)

  pub Quiet-Adds :
      (step : Step Unit)
      → ((n : ℕ) (t : ExecutionTarget) → Keeps (Quiet env settings cid n t) step)
      → Adds env settings cid (λ _. 0) step
  Quiet-Adds step k s =
      let q = (k (submissions cid s.world.history) s.leg.target).at s (omega arith, refl) in
      (omega (arith, q.0), q.1)

  module _ (choose : Bool → Leg → Bool) (step : Step Unit) (hit : ExecutionTarget → ℕ)
      (adds : Adds env settings cid hit step) where
    visit-adds :
        (l : Leg) (s : BookState)
        → (submissions cid (visit choose step l s).1.world.history
            ≤ submissions cid s.world.history + hit l.target)
          × ((visit choose step l s).0.target ≡ l.target)
    unfolding visit guarded
    visit-adds l s = elim (Bool-cases (choose s.stop_exposure l)) [
      | inl chosen ↦ rw chosen (
          go (step (record { world = s.world; leg = l }))
            (adds (record { world = s.world; leg = l })))
      | inr passed ↦ rw passed (omega arith, refl)
    ]
      where
        go :
            (y : Result Error Unit × LegState)
            → (submissions cid y.1.world.history ≤ submissions cid s.world.history + hit l.target)
              × (y.1.leg.target ≡ l.target)
            → (submissions cid (caught s y).1.world.history
                ≤ submissions cid s.world.history + hit l.target)
              × ((caught s y).0.target ≡ l.target)
        go (ok _, after) h = h
        go (err e, after) h = h

    visit_all-adds :
        (ts : List ExecutionTarget) (ls : List Leg) (s : BookState)
        → OfTargets ts ls
        → (submissions cid (visit_all choose step ls s).1.world.history
            ≤ submissions cid s.world.history + total hit ts)
          × OfTargets ts (visit_all choose step ls s).0
    unfolding visit_all
    visit_all-adds [] [] s p = (omega arith, tt)
    visit_all-adds [] (l ∷ ls) s p = absurd p
    visit_all-adds (t ∷ ts) [] s p = absurd p
    visit_all-adds (t ∷ ts) (l ∷ ls) s p =
        let first = visit-adds l s in
        let rest = visit_all-adds ts ls (visit choose step l s).1 p.1 in
        (rw (← p.0) (omega (arith, first.0, rest.0)), (first.1 ∙ p.0, rest.1))

    pub phase-Leads :
        (ts : List ExecutionTarget) (n : ℕ)
        → Leads (Counted ts n) (Counted ts (n + total hit ts)) (phase choose step)
    unfolding phase
    phase-Leads ts n = record {
      at = λ s p. let q = visit_all-adds ts s.legs s p.1 in (omega (arith, q.0, p.0), q.1);
    }

  -- What an action on all legs leaves: the count, and if it returns, legs of the same targets.
  abbrev pub LegsCounted : List ExecutionTarget → ℕ → Result Error (List Leg) × World → Type 0
  LegsCounted ts n (ok ls, w) = (submissions cid w.history ≤ n) × OfTargets ts ls
  LegsCounted ts n (err e, w) = submissions cid w.history ≤ n

  pub LegsCounted-bind :
      (ts us : List ExecutionTarget) (n : ℕ) (m : M (List Leg)) (f : List Leg → M (List Leg))
      (w : World)
      → LegsCounted ts n (m w)
      → ((ls : List Leg) (w' : World)
          → submissions cid w'.history ≤ n
          → OfTargets ts ls
          → LegsCounted us n (f ls w'))
      → LegsCounted us n ((m >>= f) w)
  unfolding ◌>>=◌
  LegsCounted-bind ts us n m f w a k = go (m w) a
    where
      go :
          (y : Result Error (List Leg) × World)
          → LegsCounted ts n y
          → LegsCounted us n (continue y.0 f y.1)
      go (ok ls, w') q = k ls w' q.0 q.1
      go (err e, w') q = q

  pub LegsCounted-after :
      {A : Type 0} (ts : List ExecutionTarget) (n : ℕ) (m : M A) (f : A → M (List Leg)) (w : World)
      → Keeps (AtMost env settings cid n) m
      → submissions cid w.history ≤ n
      → ((a : A) (w' : World) → submissions cid w'.history ≤ n → LegsCounted ts n (f a w'))
      → LegsCounted ts n ((m >>= f) w)
  unfolding ◌>>=◌
  LegsCounted-after {A} ts n m f w keeps h k = go (m w) (keeps.at w h)
    where
      go :
          (y : Result Error A × World)
          → submissions cid y.1.history ≤ n
          → LegsCounted ts n (continue y.0 f y.1)
      go (ok a, w') q = k a w' q
      go (err e, w') q = q

  abbrev pub LegCounted : ExecutionTarget → ℕ → Result Error Leg × World → Type 0
  LegCounted t n (ok l, w) = (submissions cid w.history ≤ n) × (l.target ≡ t)
  LegCounted t n (err e, w) = submissions cid w.history ≤ n

  pub LegCounted-bind :
      (t : ExecutionTarget) (us : List ExecutionTarget) (n : ℕ) (m : M Leg) (f : Leg → M (List Leg))
      (w : World)
      → LegCounted t n (m w)
      → ((l : Leg) (w' : World)
          → submissions cid w'.history ≤ n
          → l.target ≡ t
          → LegsCounted us n (f l w'))
      → LegsCounted us n ((m >>= f) w)
  unfolding ◌>>=◌
  LegCounted-bind t us n m f w a k = go (m w) a
    where
      go : (y : Result Error Leg × World) → LegCounted t n y → LegsCounted us n (continue y.0 f y.1)
      go (ok l, w') q = k l w' q.0 q.1
      go (err e, w') q = q

  module _ (choose : Leg → Bool) (step : Step Unit)
      (k : (n : ℕ) (t : ExecutionTarget) → Keeps (Quiet env settings cid n t) step) where
    pub one-counted :
        (t : ExecutionTarget) (l : Leg) (n : ℕ) (w : World)
        → submissions cid w.history ≤ n
        → l.target ≡ t
        → LegCounted t n ((if choose l then run_leg step l else pure l) w)
    unfolding pure run_leg
    one-counted t l n w h e = elim (Bool-cases (choose l)) [
      | inl chosen ↦ rw chosen (
          go (step (record { world = w; leg = l }))
            ((k n t).at (record { world = w; leg = l }) (h, e)))
      | inr passed ↦ rw passed (h, e)
    ]
      where
        go :
            (y : Result Error Unit × LegState)
            → Quiet env settings cid n t y.1
            → LegCounted t n (and_then y.0 (λ _. ok y.1.leg), y.1.world)
        go (ok _, s) q = q
        go (err e, s) q = q.0

    pub each_leg-counted :
        (ts : List ExecutionTarget) (ls : List Leg) (n : ℕ) (w : World)
        → submissions cid w.history ≤ n
        → OfTargets ts ls
        → LegsCounted ts n (each_leg choose step ls w)
    unfolding each_leg pure
    each_leg-counted [] [] n w h p = (h, tt)
    each_leg-counted [] (l ∷ ls) n w h p = absurd p
    each_leg-counted (t ∷ ts) [] n w h p = absurd p
    each_leg-counted (t ∷ ts) (l ∷ ls) n w h p =
        LegCounted-bind t (t ∷ ts) n _ _ w (one-counted t l n w h p.0) λ l' w' h' e.
          LegsCounted-bind ts (t ∷ ts) n _ _ w' (each_leg-counted ts ls n w' h' p.1)
            (λ ls' w'' h'' q. (h'', (e, q)))

  pub on_legs-Leads :
      (ts : List ExecutionTarget) (n : ℕ) (f : List Leg → M (List Leg))
      → ((ls : List Leg) (w : World)
          → submissions cid w.history ≤ n
          → OfTargets ts ls
          → LegsCounted ts n (f ls w))
      → Leads (Counted ts n) (Counted ts n) (on_legs f)
  unfolding on_legs
  on_legs-Leads ts n f k = record {
    at = λ s p. go s p.1 (f s.legs s.world) (k s.legs s.world p.0 p.1);
  }
    where
      go :
          (s : BookState)
          → OfTargets ts s.legs
          → (y : Result Error (List Leg) × World) → LegsCounted ts n y
          → Counted ts n (put_legs s y).1
      go s p (ok ls, w) q = q
      go s p (err e, w) q = (q, p)

  pub on_world-Leads :
      (ts : List ExecutionTarget) (n : ℕ) (m : M Unit)
      → Keeps (AtMost env settings cid n) m
      → Leads (Counted ts n) (Counted ts n) (on_world m)
  unfolding on_world
  on_world-Leads ts n m k = record { at = λ s p. (k.at s.world p.0, p.1) }
