-- ===== src/Execution/Pricing.antt =====
-- The price rules of execution/executor.py: the collar around a reference, and slippage.
pub mod Collar
use asymmetric_committee.Base.{ℕ, ◌+◌, ◌-◌, ◌*◌, ◌/◌}
use asymmetric_committee.Base.Int.{ℤ, pos, ◌-ℤ◌, scale}
use asymmetric_committee.Contracts.Enums.{OrderSide, buy, sell}
use asymmetric_committee.Risk.KillSwitch.{Ratio}

-- `slippage_bps`: the basis points by which the fill is worse than the reference
unfoldable pub slippage_bps : OrderSide → ℕ → ℕ → Ratio
slippage_bps buy reference fill = record {
  num = scale 10000 (pos fill -ℤ pos reference);
  den = reference;
}
slippage_bps sell reference fill = record {
  num = scale 10000 (pos reference -ℤ pos fill);
  den = reference;
}

-- `collar_price`: the limit in hundredths of a cent. With the reference in the same unit and a
-- collar of whole basis points, `cents` is a number of millionths, and `_EPS` is one of them.
unfoldable pub collar_price : OrderSide → ℕ → ℕ → ℕ
collar_price buy reference bps =
    let cents = reference * (10000 + bps) in (cents + 1) / 1000000 * 100
collar_price sell reference bps =
    let cents = reference * (10000 - bps) in (cents + 999998) / 1000000 * 100
