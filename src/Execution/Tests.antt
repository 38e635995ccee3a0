-- ===== src/Execution/Tests.antt =====
-- Tests and instances for prices, legs and halts.
use asymmetric_committee.Base.{ℕ, ◌+◌, ◌*◌, ◌≤◌, ◌<◌, ◌≡◌, refl}
use asymmetric_committee.Contracts.Enums.{buy, sell}
use asymmetric_committee.Execution.Pricing.{collar_price}
use asymmetric_committee.Execution.Pricing.Collar.{collar_price_bounds}

collar_price_example :
    ((cents : ℕ) × (collar_price buy 1005000 25 ≡ cents * 100))
    × ((cents : ℕ) × (collar_price sell 1005000 25 ≡ cents * 100))
    × (collar_price buy 1005000 25 * 10000 ≤ 1005000 * 10025 + 1)
    × (1005000 * 10025 + 1 < collar_price buy 1005000 25 * 10000 + 1000000)
    × (1005000 * 9975 ≤ collar_price sell 1005000 25 * 10000 + 1)
    × (collar_price sell 1005000 25 * 10000 < 1005000 * 9975 + 1000000)
collar_price_example = collar_price_bounds 1005000 25

-- 100.50 with 25 basis points: buy at 100.75 and sell at 100.25.
collar_25_bps : (collar_price buy 1005000 25 ≡ 1007500) × (collar_price sell 1005000 25 ≡ 1002500)
unfolding collar_price
collar_25_bps = (refl, refl)
