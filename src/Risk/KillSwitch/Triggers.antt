-- ===== src/Risk/KillSwitch/Triggers.antt =====
-- When an automatic trigger fires, and what a drawdown is.
use asymmetric_committee.Base.{
  ℕ, ◌+◌, ◌≤◌, ◌<◌, ◌≡◌, ◌≢◌, ◌↔◌, refl, ap, true, false, Option, none, some, List, [], ◌∷◌, All,
  arith, ok, inl, inr, Bool-cases,
}
use asymmetric_committee.Base.Int.{ℤ, pos, ◌-ℤ◌, ◌≤ℤ◌, scale}
use asymmetric_committee.Contracts.Enums.{FeedName}
use asymmetric_committee.Risk.KillSwitch.{finite, Ratio, evaluate, stale_feeds, is_stale}

-- A required feed has succeeded, and not longer ago than its limit.
abbrev pub InTime : (FeedName → Option ℕ) → ℕ → FeedName × ℕ → Type 0
InTime last_success now (feed, sla) =
    (seen : ℕ) × (last_success feed ≡ some seen) × (now ≤ seen + sla)

is_stale→InTime :
    (last_success : FeedName → Option ℕ) (now sla : ℕ) (feed : FeedName)
    → is_stale (last_success feed) sla now ≡ false
    → InTime last_success now (feed, sla)
is_stale→InTime last_success now sla feed h = go (last_success feed) refl
  where
    go : (o : Option ℕ) → last_success feed ≡ o → InTime last_success now (feed, sla)
    go none e = cc (ap (λ o. is_stale o sla now) e)
    go (some seen) e = (seen, e, ground arith)

InTime→is_stale :
    (last_success : FeedName → Option ℕ) (now sla : ℕ) (feed : FeedName)
    → InTime last_success now (feed, sla)
    → is_stale (last_success feed) sla now ≢ true
InTime→is_stale last_success now sla feed (seen, e, h) = rw e (ground arith)

stale_feeds-none :
    (last_success : FeedName → Option ℕ) (sla : List (FeedName × ℕ)) (now : ℕ)
    → (stale_feeds last_success sla now ≡ []) ↔ All (InTime last_success now) sla
unfolding stale_feeds
stale_feeds-none last_success [] now = (λ h. tt, λ h. refl)
stale_feeds-none last_success ((feed, sla) ∷ rest) now =
    let (to, from) = stale_feeds-none last_success rest now in
    elim (Bool-cases (is_stale (last_success feed) sla now)) [
      | inl late ↦
          (λ h. cc (rw late at h), λ h. absurd (InTime→is_stale last_success now sla feed h.0 late))
      | inr fine ↦ (
        λ h. (is_stale→InTime last_success now sla feed fine, to (rw fine at h)),
        λ h. rw fine (from h.1),
      )
    ]

-- For a finite equity and a positive prior close no trigger fires exactly when the loss is within
-- the limit and every required feed is in time.
pub evaluate-none :
    (equity : ℤ) (prior now : ℕ) (limit : Ratio) (last_success : FeedName → Option ℕ)
    (sla : List (FeedName × ℕ))
    → 0 < prior
    → (evaluate (finite equity) (finite (pos prior)) limit last_success sla now ≡ ok none) ↔ (
        (scale limit.den (pos prior -ℤ equity) ≤ℤ scale prior limit.num)
        × All (InTime last_success now) sla)
unfolding evaluate
evaluate-none equity prior now limit last_success sla h =
    let (to, from) = stale_feeds-none last_success sla now in
    (λ e. (ground arith, to (ground arith)), λ (w, fine). ground (arith, from fine))
