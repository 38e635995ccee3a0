-- ===== src/Execution/Pricing/Collar.antt =====
-- The collared limit is in whole cents and lies inside the collar, less than a cent from its edge.
use asymmetric_committee.Base.{ℕ, ◌+◌, ◌-◌, ◌*◌, ◌/◌, ◌≤◌, ◌<◌, ◌≡◌, refl, arith}
use asymmetric_committee.Contracts.Enums.{buy, sell}
use asymmetric_committee.Execution.Pricing.{collar_price}

-- A collared limit is a whole number of cents. A buy limit exceeds `reference * (1 + bps / 10000)` by at most a millionth of
-- a cent, and lies less than a cent and that millionth below it; a sell limit mirrors this above
-- `reference * (1 - bps / 10000)`.
pub collar_price_bounds :
    (reference bps : ℕ)
    → ((cents : ℕ) × (collar_price buy reference bps ≡ cents * 100))
      × ((cents : ℕ) × (collar_price sell reference bps ≡ cents * 100))
      × (collar_price buy reference bps * 10000 ≤ reference * (10000 + bps) + 1)
      × (reference * (10000 + bps) + 1 < collar_price buy reference bps * 10000 + 1000000)
      × (reference * (10000 - bps) ≤ collar_price sell reference bps * 10000 + 1)
      × (collar_price sell reference bps * 10000 < reference * (10000 - bps) + 1000000)
unfolding collar_price
collar_price_bounds reference bps =
    let b = reference * (10000 + bps) in
    let s = reference * (10000 - bps) in
    (
      ((b + 1) / 1000000, refl),
      ((s + 999998) / 1000000, refl),
      omega arith,
      omega arith,
      omega arith,
      omega arith,
    )
