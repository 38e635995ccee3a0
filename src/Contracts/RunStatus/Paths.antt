-- ===== src/Contracts/RunStatus/Paths.antt =====
-- What the transition table allows: the histories of a run, as lists of statuses, newest first.
use asymmetric_committee.Base.{ℕ, ◌≡◌, refl, ◌↔◌, true, false, List, [], ◌∷◌, arith}
use asymmetric_committee.Contracts.RunStatus.{
  RunStatus, pending, ingest_ok, features_ok, gated, agents_ok, committed, anchored, executed,
  scored, failed, partial, position, member, can_transition, terminal_run_statuses,
}

-- A history of a run that began at `pending` and stands at its first status.
pub data History : RunStatus → List RunStatus → Type 0 where
  start : History pending []
  step :
      {s : RunStatus} {h : List RunStatus} (d : RunStatus)
      → can_transition s d ≡ true
      → History s h
      → History d (s ∷ h)

-- How far a status is along the path; the ends share one rank.
abbrev rank : RunStatus → ℕ
rank failed = 8
rank partial = 8
rank s = position s

-- A status is final exactly when the table allows no transition out of it.
pub terminal_iff :
    (s : RunStatus)
    → (member s terminal_run_statuses ≡ true) ↔ ((d : RunStatus) → can_transition s d ≡ false)
unfolding can_transition terminal_run_statuses
terminal_iff pending = (λ h. cc, λ f. cc (f ingest_ok))
terminal_iff ingest_ok = (λ h. cc, λ f. cc (f features_ok))
terminal_iff features_ok = (λ h. cc, λ f. cc (f gated))
terminal_iff gated = (λ h. cc, λ f. cc (f agents_ok))
terminal_iff agents_ok = (λ h. cc, λ f. cc (f committed))
terminal_iff committed = (λ h. cc, λ f. cc (f anchored))
terminal_iff anchored = (λ h. cc, λ f. cc (f executed))
terminal_iff executed = (λ h. cc, λ f. cc (f scored))
terminal_iff scored = (λ h d. refl, λ f. refl)
terminal_iff failed = (λ h d. refl, λ f. refl)
terminal_iff partial = (λ h d. refl, λ f. refl)

pub position-injective : (s t : RunStatus) → position s ≡ position t → s ≡ t
position-injective pending t h = ground arith
position-injective _ t h = ground arith
