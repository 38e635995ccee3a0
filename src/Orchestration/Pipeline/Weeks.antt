-- ===== src/Orchestration/Pipeline/Weeks.antt =====
-- The steps of a backtest.
use asymmetric_committee.Base.{
  ℕ, All, All-weaken, zero, suc, ◌+◌, ◌-◌, ◌*◌, ◌≤◌, ◌<◌, ◌≡◌, ◌↔◌, inl, inr, sym, subst, ◌∙◌, List,
  [], ◌∷◌, Elem, arith, leb, Bool-cases, le→leb, leb→le,
}
use asymmetric_committee.Orchestration.Pipeline.Resume.{weekly_from, weekly_steps}

next_step : (days t k : ℕ) → t + suc k * days ≡ t + days + k * days
next_step days t k = grind arith

weeks_le : (days k : ℕ) → 0 < days → k ≤ k * days
weeks_le days k positive = grind arith

weekly_from-complete :
    (days end fuel t k : ℕ)
    → k < fuel
    → t + k * days ≤ end
    → Elem (t + k * days) (weekly_from days end fuel t)
unfolding weekly_from
weekly_from-complete days end zero t k enough h = absurd (omega arith)
weekly_from-complete days end (suc fuel) t zero enough h =
    rw (le→leb t end (omega (arith, h))) (inl (omega arith))
weekly_from-complete days end (suc fuel) t (suc k) enough h = rw (le→leb t end (grind (arith, h))) (
    inr (
      subst (λ x. Elem x (weekly_from days end fuel (t + days))) (sym (next_step days t k))
        (weekly_from-complete days end fuel (t + days) k (omega (arith, enough))
          (subst (λ x. x ≤ end) (next_step days t k) h))))

weekly_from_sound :
    (days end fuel t x : ℕ)
    → Elem x (weekly_from days end fuel t)
    → (k : ℕ) × (x ≡ t + k * days) × (x ≤ end)
unfolding weekly_from
weekly_from_sound days end zero t x e = absurd e
weekly_from_sound days end (suc fuel) t x e = elim (Bool-cases (leb t end)) [
  | inl before ↦ elim (rw before at e) as (λ _. (k : ℕ) × (x ≡ t + k * days) × (x ≤ end)) [
    | inl s ↦ (0, omega (arith, s), omega (arith, s, leb→le t end before))
    | inr e' ↦
        let (k, p, q) = weekly_from_sound days end fuel (t + days) x e' in
        (suc k, p ∙ sym (next_step days t k), q)
  ]
  | inr after ↦ absurd (rw after at e)
]

-- Each instant is later than those before it.
abbrev pub Rising : List ℕ → Type 0
Rising [] = Unit
Rising (t ∷ ts) = All (λ x. t < x) ts × Rising ts

weekly_from-above : (days end fuel t : ℕ) → All (λ x. t ≤ x) (weekly_from days end fuel t)
unfolding weekly_from
weekly_from-above days end zero t = tt
weekly_from-above days end (suc fuel) t = elim (Bool-cases (leb t end)) [
  | inl within ↦ rw within (
    omega arith,
    All-weaken (λ x. t + days ≤ x) (λ x. t ≤ x) (weekly_from days end fuel (t + days))
        (λ x h. omega (arith, h)) (weekly_from-above days end fuel (t + days)),
  )
  | inr after ↦ rw after tt
]

weekly_from-Rising : (days end fuel t : ℕ) → 0 < days → Rising (weekly_from days end fuel t)
unfolding weekly_from
weekly_from-Rising days end zero t positive = tt
weekly_from-Rising days end (suc fuel) t positive = elim (Bool-cases (leb t end)) [
  | inl within ↦ rw within (
    All-weaken (λ x. t + days ≤ x) (λ x. t < x) (weekly_from days end fuel (t + days))
        (λ x h. omega (arith, h, positive)) (weekly_from-above days end fuel (t + days)),
    weekly_from-Rising days end fuel (t + days) positive,
  )
  | inr after ↦ rw after tt
]

-- The steps of a backtest come in rising order, and are exactly the instants that lie a whole
-- number of weeks after its start, up to and including its end; a week has a positive length.
pub weekly_steps_iff :
    (days start end : ℕ)
    → 0 < days
    → Rising (weekly_steps days start end)
      × ((x : ℕ)
          → Elem x (weekly_steps days start end) ↔ ((k : ℕ) × (x ≡ start + k * days) × (x ≤ end)))
unfolding weekly_steps
weekly_steps_iff days start end positive = (
  weekly_from-Rising days end (end + 1 - start) start positive,
  λ x. (
    weekly_from_sound days end (end + 1 - start) start x,
    λ (k, p, q).
        subst (λ y. Elem y (weekly_from days end (end + 1 - start) start)) (sym p)
          (weekly_from-complete days end (end + 1 - start) start k
            (omega (arith, weeks_le days k positive, p, q)) (omega (arith, p, q))),
  ),
)
