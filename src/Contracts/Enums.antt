-- ===== src/Contracts/Enums.antt =====
-- The enumerations of contracts/enums.py that trading uses, and the errors that the modules raise.
use asymmetric_committee.Base.{Bool, true, false}

-- `KillTrigger`
pub data KillTrigger : Type 0 where
  daily_loss stale_feed manual : KillTrigger

-- `FeedName`
pub data FeedName : Type 0 where
  price_bars fundamentals insider_trades news regime features : FeedName

-- `OrderSide`
pub data OrderSide : Type 0 where
  buy sell : OrderSide

-- `OrderKind`
pub data OrderKind : Type 0 where
  limit market : OrderKind

-- `BrokerOrderStatus`
pub data BrokerOrderStatus : Type 0 where
  open_order partially_filled pending_cancel filled canceled expired done_for_day rejected :
      BrokerOrderStatus

-- `BrokerOrderStatus.terminal`: membership in `TERMINAL_ORDER_STATUSES`
abbrev pub terminal : BrokerOrderStatus → Bool
terminal filled = true
terminal canceled = true
terminal expired = true
terminal done_for_day = true
terminal rejected = true
terminal _ = false

-- `ReferenceSource`
pub data ReferenceSource : Type 0 where
  iex_mid sip_last : ReferenceSource
