-- ===== src/Execution/Book/Shared.antt =====
-- An invariant of the shared world that every step of a leg keeps is kept by the whole book.
use asymmetric_committee.Base.{
  ℕ, zero, suc, ◌==◌, Bool, Option, none, some, List, [], ◌∷◌, any, Result, ok, err, pure, Keeps,
  Keeps-bind, Keeps-pure, Keeps-raise, Keeps-if, keeps_rules, Bool-cases, inl, inr,
}
use asymmetric_committee.Execution.Gateway.{Error, BrokerOrder, Call, Env, World, M, call}
use asymmetric_committee.Execution.Leg.{
  ExecutionTarget, Leg, LegState, Step, Settings, shared, update_leg, new_leg, open_for_submit,
  resolve_reference, submit_limit, cancel_limit, close_limit, submit_market, close_market,
}
use asymmetric_committee.Execution.Book.{
  BookState, caught, guarded, visit, visit_all, phase, run_leg, each_leg, put_legs, on_legs,
  on_world, sleep, read_clock, sleep_until, wait_until, wait_once, poll_order, poll, poll_again,
  await_all, new_legs, mark_fresh, run_phases, finish, start_book, drive, execute_book,
}

module _ (P : World → Type 0) where
  abbrev pub InLeg : LegState → Type 0
  InLeg s = P s.world

  abbrev InBook : BookState → Type 0
  InBook s = P s.world

  caught-keeps :
      (s : BookState) (y : Result Error Unit × LegState) → InLeg y.1 → InBook (caught s y).1
  caught-keeps s (ok u, after) h = h
  caught-keeps s (err e, after) h = h

  module _ (choose : Bool → Leg → Bool) (step : Step Unit) (k : Keeps InLeg step) where
    visit-keeps : (l : Leg) (s : BookState) → InBook s → InBook (visit choose step l s).1
    unfolding visit guarded
    visit-keeps l s h = elim (Bool-cases (choose s.stop_exposure l)) [
      | inl chosen ↦
          let x : LegState = record { world = s.world; leg = l } in
          rw chosen (caught-keeps s (step x) (k.at x h))
      | inr passed ↦ rw passed h
    ]

    visit_all-keeps :
        (ls : List Leg) (s : BookState) → InBook s → InBook (visit_all choose step ls s).1
    unfolding visit_all
    visit_all-keeps [] s h = h
    visit_all-keeps (l ∷ ls) s h = visit_all-keeps ls (visit choose step l s).1 (visit-keeps l s h)

    phase-keeps : Keeps InBook (phase choose step)
    unfolding phase
    phase-keeps = record { at = λ s h. visit_all-keeps s.legs s h }

  run_leg-keeps : (step : Step Unit) (l : Leg) → Keeps InLeg step → Keeps P (run_leg step l)
  unfolding run_leg
  run_leg-keeps step l k = record { at = λ w h. k.at (record { world = w; leg = l }) h }

  each_leg-keeps :
      (choose : Leg → Bool) (step : Step Unit) (ls : List Leg)
      → Keeps InLeg step
      → Keeps P (each_leg choose step ls)
  unfolding each_leg
  each_leg-keeps choose step [] k = Keeps-pure []
  each_leg-keeps choose step (l ∷ ls) k =
      Keeps-bind _ _
        (Keeps-if (choose l) (run_leg step l) (pure l) (run_leg-keeps step l k) (Keeps-pure l))
        (λ l'. Keeps-bind _ _ (each_leg-keeps choose step ls k) (λ ls'. Keeps-pure (l' ∷ ls')))

  put_legs-keeps :
      (s : BookState) (y : Result Error (List Leg) × World) → P y.1 → InBook (put_legs s y).1
  put_legs-keeps s (ok ls, w) h = h
  put_legs-keeps s (err e, w) h = h

  on_legs-keeps :
      (f : List Leg → M (List Leg)) → ((ls : List Leg) → Keeps P (f ls)) → Keeps InBook (on_legs f)
  unfolding on_legs
  on_legs-keeps f k = record {
    at = λ s h. put_legs-keeps s (f s.legs s.world) ((k s.legs).at s.world h);
  }

  on_world-keeps : (m : M Unit) → Keeps P m → Keeps InBook (on_world m)
  unfolding on_world
  on_world-keeps m k = record { at = λ s h. k.at s.world h }

  finish-keeps : (y : Result Error Unit × BookState) → InBook y.1 → P (finish y).1
  finish-keeps (ok u, s) h = h
  finish-keeps (err e, s) h = h

  -- The calls that the book makes itself, and the steps of a leg.
  pub record Steady (env : Env) (settings : Settings) : Type 1 where
    pub sleeping : (span : ℕ) → Keeps P (call (Call.sleep span) env.act)
    pub clock : Keeps P (call Call.clock (λ h. ok (env.now h)))
    pub polling : (id : ℕ) → Keeps P (call (Call.get_order id) env.order)
    pub making : (t : ExecutionTarget) → Keeps P (new_leg env settings t)
    pub opening : Keeps InLeg (open_for_submit env settings)
    pub resolving : Keeps InLeg (resolve_reference env settings)
    pub limit : Keeps InLeg (submit_limit env settings)
    pub cancelling : Keeps InLeg (cancel_limit env settings)
    pub closing : Keeps InLeg (close_limit env settings)
    pub market : Keeps InLeg (submit_market env settings)
    pub market_closing : Keeps InLeg (close_market env settings)

  module _ (env : Env) (settings : Settings) (steady : Steady env settings) where
    update_leg-keeps : (f : Leg → Leg) → Keeps InLeg (update_leg f)
    unfolding update_leg
    update_leg-keeps f = record { at = λ s h. h }

    shared-keeps : {A : Type 0} (m : M A) → Keeps P m → Keeps InLeg (shared m)
    unfolding shared
    shared-keeps m k = record { at = λ s h. k.at s.world h }

    sleep-keeps : (span : ℕ) → Keeps P (sleep env settings span)
    unfolding sleep
    sleep-keeps span = steady.sleeping span

    read_clock-keeps : Keeps P (read_clock env settings)
    unfolding read_clock
    read_clock-keeps = steady.clock

    sleep_until-keeps : (deadline : ℕ) → Keeps P (sleep_until env settings deadline)
    unfolding sleep_until
    sleep_until-keeps deadline = search (keeps_rules, sleep-keeps, read_clock-keeps) depth 7

    wait_until-keeps : (o : Option ℕ) → Keeps P (wait_until env settings o)
    unfolding wait_until
    wait_until-keeps none = search keeps_rules
    wait_until-keeps (some t) = search (keeps_rules, sleep_until-keeps) depth 7

    wait_once-keeps : (ls : List Leg) → Keeps P (wait_once env settings ls)
    unfolding wait_once
    wait_once-keeps ls = search (keeps_rules, wait_until-keeps) depth 7

    poll_order-keeps : (o : Option BrokerOrder) → Keeps InLeg (poll_order env settings o)
    unfolding poll_order
    poll_order-keeps none = search keeps_rules
    poll_order-keeps (some o) =
        search (keeps_rules, shared-keeps, steady.polling, update_leg-keeps) depth 7

    poll-keeps : Keeps InLeg (poll env settings)
    unfolding poll
    poll-keeps = search (keeps_rules, poll_order-keeps) depth 7

    poll_again-keeps :
        (ls : List Leg) (rest : M (List Leg))
        → Keeps P rest
        → Keeps P (poll_again env settings ls rest)
    unfolding poll_again
    poll_again-keeps ls rest k =
        Keeps-if _ _ _ (Keeps-bind _ _ (sleep-keeps settings.poll_seconds) (λ _. k)) (Keeps-pure ls)

    await_all-keeps : (n : ℕ) (ls : List Leg) → Keeps P (await_all env settings n ls)
    unfolding await_all
    await_all-keeps zero ls = Keeps-pure ls
    await_all-keeps (suc n) ls =
        Keeps-bind _ _ (each_leg-keeps _ (poll env settings) ls poll-keeps)
          (λ polled. poll_again-keeps polled _ (await_all-keeps n polled))

    new_legs-keeps : (ts : List ExecutionTarget) → Keeps P (new_legs env settings ts)
    unfolding new_legs
    new_legs-keeps [] = Keeps-pure []
    new_legs-keeps (t ∷ ts) =
        Keeps-bind _ _ (steady.making t)
          (λ l. Keeps-bind _ _ (new_legs-keeps ts) (λ ls. Keeps-pure (l ∷ ls)))

    mark_fresh-keeps : Keeps InLeg (mark_fresh env settings)
    unfolding mark_fresh
    mark_fresh-keeps = search (keeps_rules, steady.opening, update_leg-keeps) depth 7

    run_phases-keeps : (gate : M Unit) → Keeps P gate → Keeps InBook (run_phases env settings gate)
    unfolding run_phases
    run_phases-keeps gate g = Keeps-bind _ _ (on_world-keeps gate g) (λ _.
        Keeps-bind _ _
          (on_legs-keeps _ (λ ls. each_leg-keeps _ (mark_fresh env settings) ls mark_fresh-keeps))
          (λ _.
            Keeps-bind _ _ (phase-keeps _ (resolve_reference env settings) steady.resolving) (λ _.
              Keeps-bind _ _ (phase-keeps _ (submit_limit env settings) steady.limit) (λ _.
                Keeps-bind _ _
                  (on_legs-keeps _ (λ ls. Keeps-bind _ _ (wait_once-keeps ls) (λ _. Keeps-pure ls)))
                  (λ _.
                    Keeps-bind _ _ (phase-keeps _ (cancel_limit env settings) steady.cancelling)
                      (λ _.
                        Keeps-bind _ _ (on_legs-keeps _ (await_all-keeps settings.poll_attempts))
                          (λ _.
                            Keeps-bind _ _ (phase-keeps _ (close_limit env settings) steady.closing)
                              (λ _. Keeps-bind _ _ (on_world-keeps gate g) (λ _.
                                Keeps-bind _ _
                                  (phase-keeps _ (submit_market env settings) steady.market)
                                  (λ _.
                                    Keeps-bind _ _
                                      (on_legs-keeps _ (await_all-keeps settings.poll_attempts))
                                      (λ _.
                                        phase-keeps _ (close_market env settings)
                                          steady.market_closing)))))))))))

    pub execute_book-keeps :
        (gate : M Unit) (ts : List ExecutionTarget)
        → Keeps P gate
        → Keeps P (execute_book env settings gate ts)
    unfolding execute_book drive
    execute_book-keeps gate ts g = Keeps-if (any (λ t. t.qty == 0) ts) _ _ (Keeps-raise _) (
        Keeps-bind _ _ (new_legs-keeps ts) (λ ls. record {
          at = λ w h.
              finish-keeps (run_phases env settings gate (start_book w ls))
                ((run_phases-keeps gate g).at (start_book w ls) h);
        }))
