-- ===== src/Evaluation/Sequential.antt =====
-- evaluation/sequential.py: the sequential test as a state machine. Arithmetic on floats is a
-- parameter (`Floats`), of which nothing is assumed.
mod Tests
pub mod Window
use asymmetric_committee.Base.{
  ℕ, suc, ◌+◌, Bool, true, false, not, ◌&&◌, ◌||◌, Option, none, some, List, [], ◌∷◌, ◌++◌, Result,
  ok, err, and_then, if◌then◌else◌, ltb, leb,
}

-- Float arithmetic, and the float that a fraction of whole numbers is written as.
pub record Floats : Type 1 where
  pub Float : Type 0
  pub literal : ℕ → ℕ → Float
  pub negate : Float → Float
  pub add : Float → Float → Float
  pub sub : Float → Float → Float
  pub mul : Float → Float → Float
  pub div : Float → Float → Float
  pub below : Float → Float → Bool
  pub at_most : Float → Float → Bool
  pub is_finite : Float → Bool

-- `SequentialTestClosed`, and the `ValueError` of a bad observation
pub data SequentialError : Type 0 where
  test_closed value_error : SequentialError

-- `SequentialStatus`
pub data SequentialStatus : Type 0 where
  running pass fail inconclusive : SequentialStatus

-- `TerminalReason`
pub data TerminalReason : Type 0 where
  both_e_processes mirrored_e_process conflicting_evidence no_crossing : TerminalReason

-- `MIN_WEEK` and `MAX_WEEK`
abbrev pub min_week : ℕ
min_week = 26

abbrev pub max_week : ℕ
max_week = 104

module _ (F : Floats) where
  -- `BettingState`
  pub record BettingState : Type 0 where
    pub t : ℕ
    pub wealth : F.Float
    pub sum_y : F.Float
    pub sum_sq_dev : F.Float
    pub mu : F.Float
    pub var : F.Float

  -- `BettingState()`
  abbrev pub no_bets : BettingState
  no_bets = record {
    t = 0;
    wealth = F.literal 1 1;
    sum_y = F.literal 0 1;
    sum_sq_dev = F.literal 0 1;
    mu = F.literal 0 1;
    var = F.literal 1 1;
  }

  -- Python's `min` and `max` of two: the first, unless the second is strictly beyond it
  abbrev pub least : F.Float → F.Float → F.Float
  least a b = if F.below b a then b else a

  abbrev pub greatest : F.Float → F.Float → F.Float
  greatest a b = if F.below a b then b else a

  -- `C_X` and `LAMBDA_CAP`
  abbrev pub c_x : F.Float
  c_x = F.literal 5 100

  abbrev pub lambda_cap : F.Float
  lambda_cap = F.literal 1 2

  -- `clipped_y`
  unfoldable pub clipped_y : F.Float → Result SequentialError F.Float
  clipped_y x =
      if F.is_finite x
      then ok (F.div (greatest (F.negate c_x) (least c_x x)) c_x)
      else err value_error

  -- `next_lambda`
  abbrev pub next_lambda : BettingState → F.Float
  next_lambda s =
      let lam = F.div s.mu (F.add s.var (F.mul s.mu s.mu)) in
      greatest (F.literal 0 1) (least lambda_cap lam)

  abbrev pub booked : BettingState → F.Float → BettingState
  booked s y =
      let t = s.t + 1 in
      let sum_y = F.add s.sum_y y in
      let mu = F.div sum_y (F.literal (t + 1) 1) in
      let sum_sq_dev = F.add s.sum_sq_dev (F.mul (F.sub y mu) (F.sub y mu)) in
      record {
        t = t;
        wealth = F.mul s.wealth (F.add (F.literal 1 1) (F.mul (next_lambda s) y));
        sum_y = sum_y;
        sum_sq_dev = sum_sq_dev;
        mu = mu;
        var = F.div (F.add (F.literal 1 1) sum_sq_dev) (F.literal (t + 1) 1);
      }

  -- `bet`
  unfoldable pub bet : BettingState → F.Float → Result SequentialError BettingState
  bet s y =
      if F.at_most (F.negate (F.literal 1 1)) y && F.at_most y (F.literal 1 1)
      then ok (booked s y)
      else err value_error

  -- `SequentialTest`, without the diagnostic
  pub record SequentialTest : Type 0 where
    pub week : ℕ
    pub spy : BettingState
    pub quant : BettingState
    pub mirror : BettingState
    pub quant_excess : List F.Float
    pub status : SequentialStatus
    pub terminal_week : Option ℕ
    pub terminal_reason : Option TerminalReason

  -- `SequentialTest()`
  abbrev pub fresh_test : SequentialTest
  fresh_test = record {
    week = 0;
    spy = no_bets;
    quant = no_bets;
    mirror = no_bets;
    quant_excess = [];
    status = running;
    terminal_week = none;
    terminal_reason = none;
  }

  -- `wealth >= E_THRESHOLD`
  abbrev pub crossed : BettingState → Bool
  crossed s = F.at_most (F.literal 20 1) s.wealth

  -- the local function `state` of `observe`
  abbrev pub next_state :
      ℕ
      → BettingState
      → BettingState
      → BettingState
      → List F.Float
      → SequentialStatus
      → Option TerminalReason
      → SequentialTest
  next_state week spy quant mirror raw status reason = record {
    week = week;
    spy = spy;
    quant = quant;
    mirror = mirror;
    quant_excess = raw;
    status = status;
    terminal_week = elim status [ running ↦ none | _ ↦ some week ];
    terminal_reason = reason;
  }

  -- the returns of `observe` once the bets are booked
  unfoldable pub verdict_at :
      ℕ → BettingState → BettingState → BettingState → List F.Float → SequentialTest
  verdict_at week spy quant mirror raw =
      let passed = crossed spy && crossed quant in
      let failed = crossed mirror in
      let early = ltb week min_week in
      if not early && (passed && failed)
      then next_state week spy quant mirror raw inconclusive (some conflicting_evidence)
      else if not early && passed
      then next_state week spy quant mirror raw pass (some both_e_processes)
      else if not early && failed
      then next_state week spy quant mirror raw fail (some mirrored_e_process)
      else if ltb week max_week
      then next_state week spy quant mirror raw running none
      else next_state week spy quant mirror raw inconclusive (some no_crossing)

  abbrev pub frozen : SequentialTest → Option TerminalReason → Result SequentialError SequentialTest
  frozen s (some no_crossing) = err test_closed
  frozen s _ = ok s

  unfoldable pub observe_running :
      SequentialTest → F.Float → F.Float → Result SequentialError SequentialTest
  unfolding clipped_y bet verdict_at
  observe_running s excess_vs_spy excess_vs_quant = and_then (clipped_y excess_vs_spy) (λ y_spy.
      and_then (clipped_y excess_vs_quant) (λ y_quant. and_then (bet s.spy y_spy) (λ spy.
        and_then (bet s.quant y_quant) (λ quant.
          and_then (bet s.mirror (F.negate y_quant)) (λ mirror.
            ok (
              verdict_at (s.week + 1) spy quant mirror
                (s.quant_excess ++ excess_vs_quant ∷ [])))))))

  -- `SequentialTest.observe`
  unfoldable pub observe :
      SequentialTest → F.Float → F.Float → Result SequentialError SequentialTest
  unfolding observe_running
  observe s excess_vs_spy excess_vs_quant = elim s.status [
    | running ↦ observe_running s excess_vs_spy excess_vs_quant
    | _ ↦ frozen s s.terminal_reason
  ]

  -- One observation after the other; the first error ends it.
  unfoldable pub observe_all :
      SequentialTest → List (F.Float × F.Float) → Result SequentialError SequentialTest
  unfolding observe
  observe_all s [] = ok s
  observe_all s ((a, b) ∷ xs) = and_then (observe s a b) (λ s'. observe_all s' xs)
