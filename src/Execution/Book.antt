-- ===== src/Execution/Book.antt =====
-- `OrderExecutor.execute_book` of execution/executor.py: the shared phases over all the legs. The
-- legs are objects in the source; here they are a list that each phase returns anew.
mod Rules
mod Shared
pub mod Halted
mod Tally
mod Tests
pub mod Overfill
pub mod Counts
use asymmetric_committee.Base.{
  ℕ, zero, suc, ◌+◌, ◌-◌, ◌==◌, Bool, true, false, not, ◌&&◌, ◌||◌, Option, none, some, List, [],
  ◌∷◌, ◌++◌, and_then, map, any, all, Result, ok, err, Exec, pure, raise, lift, gets, modify, ◌>>=◌,
  ◌>>◌, if◌then◌else◌, ltb, is_some,
}
use asymmetric_committee.Contracts.Enums.{terminal}
use asymmetric_committee.Risk.KillSwitch.{halted}
use asymmetric_committee.Execution.Gateway.{
  Error, BrokerOrder, Call, Env, World, M, call, is_overfill,
}
use asymmetric_committee.Execution.Leg.{
  ExecutionTarget, ExecutionOutcome, Leg, LegState, Step, Settings, current, set_current, new_leg,
  open_for_submit, resolve_reference, submit_limit, cancel_limit, close_limit, submit_market,
  close_market, outcome, shared, update_leg,
}

-- The local variables of `execute_book`, beside the shared world.
pub record BookState : Type 0 where
  pub world : World
  pub legs : List Leg
  pub errors : List Error
  pub stop_exposure : Bool

abbrev pub Phase : Type 0 → Type 0
Phase = Exec Error BookState

abbrev pub is_live : Leg → Bool
is_live l = not (is_some l.error)

-- What `guarded` does after a step: an error stays with its leg and is put at the end of the list,
-- and an overfill stops new exposure.
abbrev caught : BookState → Result Error Unit × LegState → Leg × BookState
caught s (ok _, after) = (after.leg, record s { world = after.world })
caught s (err e, after) = (
  record (after.leg) { error = some e },
  record s {
    world = after.world;
    errors = s.errors ++ e ∷ [];
    stop_exposure = s.stop_exposure || is_overfill e;
  },
)

-- `guarded`
pub guarded : Step Unit → Leg → BookState → Leg × BookState
guarded step l s = caught s (step (record { world = s.world; leg = l }))

-- One turn of a loop `for leg in …: guarded(leg, step)`; the choice may look at `stop_exposure`.
pub visit : (Bool → Leg → Bool) → Step Unit → Leg → BookState → Leg × BookState
visit choose step l s = if choose s.stop_exposure l then guarded step l s else (l, s)

pub visit_all : (Bool → Leg → Bool) → Step Unit → List Leg → BookState → List Leg × BookState
visit_all choose step [] s = ([], s)
visit_all choose step (l ∷ ls) s =
    let (l', s') = visit choose step l s in
    let (ls', s'') = visit_all choose step ls s' in (l' ∷ ls', s'')

pub phase : (Bool → Leg → Bool) → Step Unit → Phase Unit
phase choose step s =
    let (legs, s') = visit_all choose step s.legs s in (ok tt, record s' { legs = legs })

-- A step that nothing guards: what it raises leaves `execute_book`.
pub run_leg : Step Unit → Leg → M Leg
run_leg step l w =
    let (r, after) = step (record { world = w; leg = l }) in
    (and_then r (λ _. ok after.leg), after.world)

pub each_leg : (Leg → Bool) → Step Unit → List Leg → M (List Leg)
each_leg choose step [] = pure []
each_leg choose step (l ∷ ls) = do
  l' ← if choose l then run_leg step l else pure l
  ls' ← each_leg choose step ls
  pure (l' ∷ ls')

abbrev pub put_legs : BookState → Result Error (List Leg) × World → Result Error Unit × BookState
put_legs s (ok legs, w) = (ok tt, record s { world = w; legs = legs })
put_legs s (err e, w) = (err e, record s { world = w })

pub on_legs : (List Leg → M (List Leg)) → Phase Unit
on_legs f s = put_legs s (f s.legs s.world)

pub on_world : M Unit → Phase Unit
on_world m s = let (r, w) = m s.world in (r, record s { world = w })

abbrev working : Option BrokerOrder → Bool
working none = false
working (some o) = not (terminal o.status)

-- the latest `submitted_at` of the orders that `_wait_once` waits for
later : Bool → Option BrokerOrder → Option ℕ → Option ℕ
later true (some o) (some t) = some (if ltb t o.submitted_at then o.submitted_at else t)
later true (some o) none = some o.submitted_at
later _ _ t = t

latest_working : List Leg → Option ℕ
unfolding later
latest_working [] = none
latest_working (l ∷ ls) =
    later (is_live l && working l.limit_order) l.limit_order (latest_working ls)

-- `raise errors[0]`, or the outcomes
pub conclude : List Error → List Leg → Result Error (List ExecutionOutcome)
conclude [] legs = ok (map outcome legs)
conclude (e ∷ es) legs = err e

abbrev pub finish : Result Error Unit × BookState → Result Error (List ExecutionOutcome) × World
finish (ok _, s) = (conclude s.errors s.legs, s.world)
finish (err e, s) = (err e, s.world)

abbrev pub start_book : World → List Leg → BookState
start_book w legs = record { world = w; legs = legs; errors = []; stop_exposure = false }

module _ (env : Env) (settings : Settings) where
  sleep : ℕ → M Unit
  sleep span = call (Call.sleep span) env.act

  read_clock : M ℕ
  read_clock = call Call.clock (λ h. ok (env.now h))

  sleep_until : ℕ → M Unit
  sleep_until deadline = do
    now ← read_clock
    if ltb now deadline then sleep (deadline - now) else pure tt

  pub wait_until : Option ℕ → M Unit
  wait_until none = pure tt
  wait_until (some submitted) = sleep_until (submitted + settings.limit_wait)

  -- `OrderExecutor._wait_once`
  pub wait_once : List Leg → M Unit
  wait_once legs = do
    ks ← gets (λ w. w.kill_switch)
    if halted ks then pure tt else wait_until (latest_working legs)

  -- A leg that `_await_all` polls.
  abbrev pub is_waiting : Leg → Bool
  is_waiting l = is_live l && working (current l)

  poll_order : Option BrokerOrder → Step Unit
  poll_order none = raise Error.assertion_error
  poll_order (some o) = do
    now ← shared (call (Call.get_order o.broker_order_id) env.order)
    update_leg (set_current now)

  pub poll : Step Unit
  poll = do l ← gets (λ s. s.leg); poll_order (current l)

  -- the end of a round: return, or sleep and go on with `rest`
  pub poll_again : List Leg → M (List Leg) → M (List Leg)
  poll_again polled rest =
      if any is_waiting polled then (do sleep settings.poll_seconds; rest) else pure polled

  -- `OrderExecutor._await_all`, over the legs without an error
  pub await_all : ℕ → List Leg → M (List Leg)
  await_all zero legs = pure legs
  await_all (suc attempts) legs = do
    polled ← each_leg is_waiting poll legs
    poll_again polled (await_all attempts polled)

  pub new_legs : List ExecutionTarget → M (List Leg)
  new_legs [] = pure []
  new_legs (t ∷ ts) = do l ← new_leg env settings t; ls ← new_legs ts; pure (l ∷ ls)

  pub mark_fresh : Step Unit
  mark_fresh = do
    opened ← open_for_submit env settings
    update_leg (λ l. record l { fresh = opened })

  -- the phases A to E, after the legs are made
  pub run_phases : M Unit → Phase Unit
  run_phases gate = do
    on_world gate
    on_legs (each_leg (λ _. true) mark_fresh)
    phase (λ _ l. l.fresh) (resolve_reference env settings)
    phase (λ _ l. l.fresh && is_live l) (submit_limit env settings)
    on_legs (λ legs. do wait_once legs; pure legs)
    phase (λ _ l. is_live l) (cancel_limit env settings)
    on_legs (await_all settings.poll_attempts)
    phase (λ _ l. is_live l) (close_limit env settings)
    on_world gate
    phase (λ stop l. is_live l && (l.residual_pending && not stop)) (submit_market env settings)
    on_legs (await_all settings.poll_attempts)
    phase (λ _ l. is_live l && is_some l.market_order) (close_market env settings)

  pub drive : M Unit → List Leg → M (List ExecutionOutcome)
  drive gate legs w = finish (run_phases gate (start_book w legs))

  -- `execute_book`; without a gate `gate` is `pure tt`
  unfoldable pub execute_book : M Unit → List ExecutionTarget → M (List ExecutionOutcome)
  unfolding drive
  execute_book gate targets =
      if any (λ t. t.qty == 0) targets
      then raise Error.value_error
      else do legs ← new_legs targets; drive gate legs
