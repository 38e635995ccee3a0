-- ===== src/Agents/RateLimit/Tests.antt =====
-- A bucket of sixty a minute, and instances of the theorems on rate limits.
use asymmetric_committee.Base.{
  ℕ, ◌≡◌, ◌≤◌, ◌+◌, ◌*◌, refl, true, Option, none, some, [], ◌∷◌, is_some, arith,
}
use asymmetric_committee.Base.Int.{pos}
use asymmetric_committee.Agents.RateLimit.{
  Bucket, Surroundings, parts, tokens_found, ceil_div, script, acquire_model, token_bucket,
  model_rate_limiter,
}
use asymmetric_committee.Agents.RateLimit.Window.{spent, spent-bound}
use asymmetric_committee.Agents.RateLimit.Wait.{acquire_model-alone}

abbrev alone : Surroundings
alone = record { lag = λ _. 0; others = λ _ b. some b }

abbrev empty_at : ℕ → Option Bucket
empty_at t = some (record { tokens = pos 0; ts = t })

-- At one unit a second an empty bucket makes a worker wait a second for one unit.
waits : (script 60 5000 1 (empty_at 5000)).0 ≡ 1000
unfolding script tokens_found ceil_div
waits = refl

refused : model_rate_limiter (pos 60) (pos 0) ≡ none
unfolding model_rate_limiter token_bucket
refused = refl

-- A clock that went back takes tokens away.
went_back : (script 60 4000 1 (empty_at 5000)).0 ≡ 2000
unfolding script tokens_found ceil_div
went_back = refl

spent-bound_example :
    spent 60 ((5000, 40) ∷ (5001, 40) ∷ (26000, 40) ∷ []) none + 5000 * 60 ≤ parts * 60 + 26000 * 60
spent-bound_example =
    spent-bound 60 5000 26000 40 ((5001, 40) ∷ (26000, 40) ∷ []) none tt
      (omega arith, (omega arith, omega arith))

acquire_model-alone_example :
    is_some (
      acquire_model alone alone
        (record { rpm = 60; tpm = 600 })
        100
        2
        5000
        (empty_at 5000)
        (empty_at 4000))
    ≡ true
acquire_model-alone_example =
    acquire_model-alone alone alone (record { rpm = 60; tpm = 600 }) 100 5000 (empty_at 5000)
      (empty_at 4000) (omega arith) (omega arith) (λ _ _. refl) (λ _ _. refl)
      ((refl, omega arith), omega arith) ((refl, omega arith), omega arith)
