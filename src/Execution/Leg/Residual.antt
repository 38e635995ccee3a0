-- ===== src/Execution/Leg/Residual.antt =====
-- What the steps of a leg do to its orders: notes leave them alone, and a limit that `close_limit`
-- lets through is terminal, within the target, and leaves the exact residual.
use asymmetric_committee.Base.{
  ℕ, ◌+◌, ◌≤◌, ◌<◌, ◌≡◌, true, false, Option, none, some, [], ◌∷◌, ◌++◌, arith, ok, Keeps,
  keeps_rules, ◌>>=◌, pure, raise, if_at, Option-cases, ◌⊎◌, inl, inr,
}
use asymmetric_committee.Contracts.Enums.{terminal, ReferenceSource}
use asymmetric_committee.Execution.Gateway.{Error, BrokerOrder, Env, ExecutionRecord, M}
use asymmetric_committee.Execution.Leg.{
  ExecutionTarget, Leg, LegState, Settings, shared, update_leg, note, get_reference, guard_overfill,
  close_limit, close_market, filled_of, is_rejected, looked_up, recorded, settle_limit,
  settle_terminal, set_residual, settle_market,
}

-- `l` and `m` agree on everything but the evidence: the records and the remembered reference.
pub record SameOrders (l m : Leg) : Type 0 where
  pub target : m.target ≡ l.target
  pub limit_order : m.limit_order ≡ l.limit_order
  pub market_order : m.market_order ≡ l.market_order
  pub error : m.error ≡ l.error
  pub residual : m.residual ≡ l.residual
  pub residual_pending : m.residual_pending ≡ l.residual_pending

abbrev pub Unmoved : Leg → LegState → Type 0
Unmoved l s = SameOrders l s.leg

module _ {A : Type 0} where
  pub shared-Unmoved : (l : Leg) (m : M A) → Keeps (Unmoved l) (shared m)
  unfolding shared
  shared-Unmoved l m = record { at = λ s h. h }

reference-Unmoved :
    (l : Leg) (found : ℕ × ReferenceSource)
    → Keeps (Unmoved l) (update_leg (λ m. record m { reference = some found }))
unfolding update_leg
reference-Unmoved l found = record { at = λ s h. ground arith }

records-Unmoved :
    (l : Leg) (rec : ExecutionRecord)
    → Keeps (Unmoved l) (update_leg (λ m. record m { records = m.records ++ rec ∷ [] }))
unfolding update_leg
records-Unmoved l rec = record { at = λ s h. ground arith }

module _ (env : Env) (settings : Settings) (l : Leg) where
  looked_up-Unmoved :
      (o : Option (ℕ × ReferenceSource)) (t : ExecutionTarget)
      → Keeps (Unmoved l) (looked_up env settings o t)
  unfolding looked_up
  looked_up-Unmoved none t = search (keeps_rules, shared-Unmoved, reference-Unmoved)
  looked_up-Unmoved (some r) t = search keeps_rules

  recorded-Unmoved :
      (o : Option ExecutionRecord) (m : Leg) → Keeps (Unmoved l) (recorded env settings o m)
  unfolding recorded
  recorded-Unmoved none m = looked_up-Unmoved m.reference m.target
  recorded-Unmoved (some rec) m = search keeps_rules

  pub get_reference-Unmoved : Keeps (Unmoved l) (get_reference env settings)
  unfolding get_reference
  get_reference-Unmoved = search (keeps_rules, shared-Unmoved, recorded-Unmoved)

  pub note-Unmoved : (o : BrokerOrder) → Keeps (Unmoved l) (note env settings o)
  unfolding note
  note-Unmoved o = search (keeps_rules, shared-Unmoved, records-Unmoved, get_reference-Unmoved)

-- Where a leg's limit stands once `close_limit` has let it through: not sent, or terminal and
-- filled by at most the target and the tolerance.
abbrev pub LimitDone : ℕ → Option BrokerOrder → Type 0
LimitDone qty none = Unit
LimitDone qty (some o) = (terminal o.status ≡ true) × (o.filled_qty ≤ qty + 1)

-- A residual is what a terminal limit left of the target, and it is positive.
abbrev pub ExactAt : ℕ → ℕ → Option BrokerOrder → Type 0
ExactAt qty residual none = ⊥
ExactAt qty residual (some o) =
    (terminal o.status ≡ true) × (residual + o.filled_qty ≡ qty) × (0 < residual)

-- What a leg waits to trade at the market is exactly what its terminal limit left.
abbrev pub ResidualExact : Leg → Type 0
ResidualExact l = l.residual_pending ≡ true → ExactAt l.target.qty l.residual l.limit_order

pub same : (l : Leg) → SameOrders l l
same l = ground arith

module _ (env : Env) (settings : Settings) where
  settle_terminal-done :
      (t : ExecutionTarget) (o : BrokerOrder) (s s' : LegState)
      → settle_terminal env settings t o s ≡ (ok tt, s')
      → (o.filled_qty ≤ t.qty + 1)
        × (s'.leg.limit_order ≡ s.leg.limit_order)
        × (s'.leg.market_order ≡ s.leg.market_order)
        × (s'.leg.target ≡ s.leg.target)
        × (s'.leg.error ≡ s.leg.error)
        × ((s'.leg ≡ s.leg) ⊎ (s'.leg ≡ set_residual o s.leg))
  unfolding settle_terminal guard_overfill update_leg ◌>>=◌
  settle_terminal-done t o s s' h =
      ground (arith, if_at (is_rejected o.status) (pure tt) (update_leg (set_residual o)) s)

  settle_limit-done :
      (o : BrokerOrder) (s s' : LegState)
      → settle_limit env settings s.leg.target (some o) s ≡ (ok tt, s')
      → s.leg.limit_order ≡ some o
      → s.leg.residual_pending ≡ false
      → (s'.leg.limit_order ≡ some o)
        × LimitDone s'.leg.target.qty (some o)
        × ResidualExact s'.leg
        × (s'.leg.market_order ≡ s.leg.market_order)
        × (s'.leg.target ≡ s.leg.target)
        × (s'.leg.error ≡ s.leg.error)
  unfolding settle_limit ◌>>=◌
  settle_limit-done o s s' h e p =
      let s₁ = (note env settings o s).1 in
      let t = s.leg.target in
      ground (
        arith,
        (note-Unmoved env settings s.leg o).at s (same s.leg),
        if_at (terminal o.status) (settle_terminal env settings t o)
            (raise Error.cancel_not_confirmed) s₁,
        settle_terminal-done t o s₁ s',
      )

  pub close_limit-done :
      (s s' : LegState)
      → close_limit env settings s ≡ (ok tt, s')
      → s.leg.residual_pending ≡ false
      → LimitDone s'.leg.target.qty s'.leg.limit_order
        × ResidualExact s'.leg
        × (s'.leg.market_order ≡ s.leg.market_order)
        × (s'.leg.target ≡ s.leg.target)
        × (s'.leg.error ≡ s.leg.error)
  unfolding close_limit settle_limit ◌>>=◌
  close_limit-done s s' h p = elim (Option-cases s.leg.limit_order) [
    | inl absent ↦ ground arith
    | inr (o, e) ↦ ground (arith, settle_limit-done o s s')
  ]

  pub close_market-done :
      (s s' : LegState)
      → close_market env settings s ≡ (ok tt, s')
      → (filled_of s'.leg.limit_order + filled_of s'.leg.market_order ≤ s'.leg.target.qty + 1)
        × SameOrders s.leg s'.leg
  unfolding close_market settle_market guard_overfill ◌>>=◌
  close_market-done s s' h = elim (Option-cases s.leg.limit_order) [
    | inl absent ↦ ground arith
    | inr (l, e) ↦ elim (Option-cases s.leg.market_order) [
      | inl absent ↦ ground arith
      | inr (m, f) ↦ ground (arith, (note-Unmoved env settings s.leg m).at s (same s.leg))
    ]
  ]
