-- ===== src/Execution/Book/Counts.antt =====
-- How often `execute_book` submits an order under one client id.
use asymmetric_committee.Base.{
  ℕ, zero, suc, ◌+◌, ◌≤◌, ◌≡◌, refl, Bool, Option, none, some, List, [], ◌∷◌, arith, Result, ok,
  err, pure, raise, ◌>>=◌, continue, Keeps, keeps_rules, Bool-cases, inl, inr, if◌then◌else◌, any,
  ◌==◌, ◌||◌,
}
use asymmetric_committee.Execution.Gateway.{Error, ClientId, same_id, BrokerOrder, Env, World, M}
use asymmetric_committee.Execution.Leg.{
  ExecutionTarget, Leg, Step, Settings, lim_id, mkt_id, new_leg,
}
use asymmetric_committee.Execution.Leg.Submissions.{
  submissions, limit_hit, market_hit, AtMost, call-AtMost, Quiet, open_for_submit-Quiet,
  resolve_reference-Quiet, cancel_limit-Quiet, close_limit-Quiet, close_market-Quiet, fresh-Quiet,
  current-Quiet, shared-Quiet,
}
use asymmetric_committee.Execution.Leg.Adds.{submit_limit-Adds, submit_market-Adds, new_leg-adds}
use asymmetric_committee.Execution.Leg.Stages.{new_leg-Early}
use asymmetric_committee.Execution.Book.Tally.{
  OfTargets, total, Leads, Leads-then, Counted, Counted-le, Quiet-Adds, phase-Leads, LegsCounted,
  LegsCounted-bind, LegsCounted-after, LegCounted, LegCounted-bind, each_leg-counted, on_legs-Leads,
  on_world-Leads,
}
use asymmetric_committee.Execution.Book.{
  BookState, Phase, phase, on_legs, execute_book, run_phases, drive, finish, new_legs, mark_fresh,
  await_all, poll, poll_order, poll_again, is_waiting, wait_once, wait_until, sleep_until,
  read_clock, sleep, start_book,
}

-- How many of the orders of the targets go by the id: each target has one for its limit and one
-- for its market order.
abbrev pub occurrences : ClientId → List ExecutionTarget → ℕ
occurrences cid [] = 0
occurrences cid (t ∷ ts) =
    (if same_id (lim_id t) cid || same_id (mkt_id t) cid then 1 else 0) + occurrences cid ts

module _ (env : Env) (settings : Settings) (cid : ClientId) where
  poll_order-Quiet :
      (n : ℕ) (t : ExecutionTarget) (o : Option BrokerOrder)
      → Keeps (Quiet env settings cid n t) (poll_order env settings o)
  unfolding poll_order
  poll_order-Quiet n t none = search keeps_rules
  poll_order-Quiet n t (some o) = search (
    keeps_rules,
    shared-Quiet env settings cid n t,
    call-AtMost env settings cid n,
    current-Quiet env settings cid n t,
  )

  poll-Quiet :
      (n : ℕ) (t : ExecutionTarget) → Keeps (Quiet env settings cid n t) (poll env settings)
  unfolding poll
  poll-Quiet n t = search (keeps_rules, poll_order-Quiet)

  mark_fresh-Quiet :
      (n : ℕ) (t : ExecutionTarget) → Keeps (Quiet env settings cid n t) (mark_fresh env settings)
  unfolding mark_fresh
  mark_fresh-Quiet n t =
      search
        (keeps_rules, open_for_submit-Quiet env settings cid n t, fresh-Quiet env settings cid n t)

  sleep-AtMost : (n span : ℕ) → Keeps (AtMost env settings cid n) (sleep env settings span)
  unfolding sleep
  sleep-AtMost n span = search (call-AtMost env settings cid n)

  sleep_until-AtMost : (n t : ℕ) → Keeps (AtMost env settings cid n) (sleep_until env settings t)
  unfolding sleep_until read_clock
  sleep_until-AtMost n t = search (keeps_rules, call-AtMost env settings cid n, sleep-AtMost)

  wait_until-AtMost :
      (n : ℕ) (o : Option ℕ) → Keeps (AtMost env settings cid n) (wait_until env settings o)
  unfolding wait_until
  wait_until-AtMost n none = search keeps_rules
  wait_until-AtMost n (some t) = sleep_until-AtMost n (t + settings.limit_wait)

  wait_once-AtMost :
      (n : ℕ) (ls : List Leg) → Keeps (AtMost env settings cid n) (wait_once env settings ls)
  unfolding wait_once
  wait_once-AtMost n ls = search (keeps_rules, wait_until-AtMost)

  poll_again-counted :
      (ts : List ExecutionTarget) (n : ℕ) (polled : List Leg) (rest : M (List Leg)) (w : World)
      → submissions cid w.history ≤ n
      → OfTargets ts polled
      → ((w' : World)
          → submissions cid w'.history ≤ n
          → LegsCounted env settings cid ts n (rest w'))
      → LegsCounted env settings cid ts n (poll_again env settings polled rest w)
  unfolding poll_again pure
  poll_again-counted ts n polled rest w h p k =
      elim (Bool-cases (any (is_waiting env settings) polled)) [
        | inl more ↦ rw more (
            LegsCounted-after env settings cid ts n _ _ w (sleep-AtMost n settings.poll_seconds) h
              (λ _. k))
        | inr done ↦ rw done (h, p)
      ]

  await_all-counted :
      (ts : List ExecutionTarget) (n attempts : ℕ) (ls : List Leg) (w : World)
      → submissions cid w.history ≤ n
      → OfTargets ts ls
      → LegsCounted env settings cid ts n (await_all env settings attempts ls w)
  unfolding await_all pure
  await_all-counted ts n zero ls w h p = (h, p)
  await_all-counted ts n (suc attempts) ls w h p =
      LegsCounted-bind env settings cid ts ts n _ _ w
        (each_leg-counted env settings cid _ _ poll-Quiet ts ls n w h p)
        λ polled w' h' p'.
          poll_again-counted ts n polled _ w' h' p'
            (λ w'' h''. await_all-counted ts n attempts polled w'' h'' p')

  new_leg-counted :
      (t : ExecutionTarget) (n : ℕ) (w : World)
      → submissions cid w.history ≤ n
      → LegCounted env settings cid t n (new_leg env settings t w)
  new_leg-counted t n w h =
      go (new_leg env settings t w) (omega (arith, new_leg-adds env settings cid t w)) refl
    where
      go :
          (y : Result Error Leg × World)
          → submissions cid y.1.history ≤ n
          → new_leg env settings t w ≡ y
          → LegCounted env settings cid t n y
      go (ok l, w') q e = (q, (new_leg-Early env settings t w w' l e).target)
      go (err x, w') q e = q

  new_legs-counted :
      (ts : List ExecutionTarget) (n : ℕ) (w : World)
      → submissions cid w.history ≤ n
      → LegsCounted env settings cid ts n (new_legs env settings ts w)
  unfolding new_legs pure
  new_legs-counted [] n w h = (h, tt)
  new_legs-counted (t ∷ ts) n w h =
      LegCounted-bind env settings cid t (t ∷ ts) n _ _ w (new_leg-counted t n w h) λ l w' h' e.
        LegsCounted-bind env settings cid ts (t ∷ ts) n _ _ w' (new_legs-counted ts n w' h')
          (λ ls w'' h'' p. (h'', (e, p)))

  module _ (gate : M Unit) (quiet : (n : ℕ) → Keeps (AtMost env settings cid n) gate) where
    total_none : (ts : List ExecutionTarget) → total (λ _. 0) ts ≡ 0
    total_none [] = refl
    total_none (t ∷ ts) = omega (arith, total_none ts)

    phase-Quiet :
        (ts : List ExecutionTarget) (n : ℕ) (choose : Bool → Leg → Bool) (step : Step Unit)
        → ((n : ℕ) (t : ExecutionTarget) → Keeps (Quiet env settings cid n t) step)
        → Leads (Counted env settings cid ts n) (Counted env settings cid ts n) (phase choose step)
    phase-Quiet ts n choose step k = record {
      at = λ s p.
          let q =
            (phase-Leads env settings cid choose step (λ _. 0) (Quiet-Adds env settings cid step k)
                ts n).at
              s p in
          (omega (arith, q.0, total_none ts), q.1);
    }

    -- an action that counts up to `a` stays within any larger number when the rest does
    then_quiet :
        (ts : List ExecutionTarget) (a b : ℕ) (m n : Phase Unit)
        → Leads (Counted env settings cid ts a) (Counted env settings cid ts a) m
        → a ≤ b
        → Leads (Counted env settings cid ts a) (Counted env settings cid ts b) n
        → Leads (Counted env settings cid ts a) (Counted env settings cid ts b) (m >>= λ _. n)
    then_quiet ts a b m n km h kn = Leads-then m n km kn (Counted-le env settings cid ts a b h)

    wait-quiet :
        (ts : List ExecutionTarget) (n : ℕ)
        → Leads
            (Counted env settings cid ts n)
            (Counted env settings cid ts n)
            (on_legs (λ legs. wait_once env settings legs >>= λ _. pure legs))
    unfolding pure
    wait-quiet ts n = on_legs-Leads env settings cid ts n _ (λ ls w h p.
        LegsCounted-after env settings cid ts n _ _ w (wait_once-AtMost n ls) h
          (λ _ w' h'. (h', p)))

    run_phases-Leads :
        (ts : List ExecutionTarget) (n : ℕ)
        → Leads
            (Counted env settings cid ts n)
            (Counted env settings cid ts (n + total (limit_hit cid) ts + total (market_hit cid) ts))
            (run_phases env settings gate)
    unfolding run_phases
    run_phases-Leads ts n =
        let a = n + total (limit_hit cid) ts in
        let b = a + total (market_hit cid) ts in
        let n_le : n ≤ b = omega arith in
        let a_le : a ≤ b = omega arith in
        let awaiting = λ (c : ℕ).
          on_legs-Leads env settings cid ts c _
            (λ ls w h p. await_all-counted ts c settings.poll_attempts ls w h p) in
        then_quiet ts n b _ _ (on_world-Leads env settings cid ts n gate (quiet n)) n_le (
          then_quiet ts n b _ _
            (on_legs-Leads env settings cid ts n _
              (λ ls w h p. each_leg-counted env settings cid _ _ mark_fresh-Quiet ts ls n w h p))
            n_le
            (then_quiet ts n b _ _ (phase-Quiet ts n _ _ (resolve_reference-Quiet env settings cid))
              n_le
              (Leads-then _ _
                (phase-Leads env settings cid _ _ _ (submit_limit-Adds env settings cid) ts n)
                (then_quiet ts a b _ _ (wait-quiet ts a) a_le (
                  then_quiet ts a b _ _ (phase-Quiet ts a _ _ (cancel_limit-Quiet env settings cid))
                    a_le
                    (then_quiet ts a b _ _ (awaiting a) a_le (
                      then_quiet ts a b _ _
                        (phase-Quiet ts a _ _ (close_limit-Quiet env settings cid)) a_le
                        (then_quiet ts a b _ _ (on_world-Leads env settings cid ts a gate (quiet a))
                          a_le
                          (Leads-then _ _
                            (phase-Leads env settings cid _ _ _
                              (submit_market-Adds env settings cid) ts a)
                            (then_quiet ts b b _ _ (awaiting b) (omega arith)
                              (phase-Quiet ts b _ _ (close_market-Quiet env settings cid)))
                            (λ s p. p)))))))
                (Counted-le env settings cid ts a b a_le))))

    finish-counted :
        (n : ℕ) (y : Result Error Unit × BookState)
        → submissions cid y.1.world.history ≤ n
        → submissions cid (finish y).1.history ≤ n
    finish-counted n (ok _, s) h = h
    finish-counted n (err e, s) h = h

hits-le-occurrences :
    (cid : ClientId) (ts : List ExecutionTarget)
    → total (limit_hit cid) ts + total (market_hit cid) ts ≤ occurrences cid ts
hits-le-occurrences cid [] = omega arith
hits-le-occurrences cid (t ∷ ts) = ground (arith, hits-le-occurrences cid ts)

-- Whatever the broker answers, and whether `execute_book` returns or raises: it submits at most one
-- order under a client id for each target that the id belongs to, so it never submits one a second
-- time; the gate is one that itself submits none.
pub execute_book-submissions :
    (env : Env) (settings : Settings) (cid : ClientId) (gate : M Unit)
    (targets : List ExecutionTarget) (w : World)
    → ((n : ℕ) → Keeps (AtMost env settings cid n) gate)
    → submissions cid (execute_book env settings gate targets w).1.history
      ≤ submissions cid w.history + occurrences cid targets
unfolding execute_book drive ◌>>=◌ raise
execute_book-submissions env settings cid gate targets w quiet =
    elim (Bool-cases (any (λ t. t.qty == 0) targets)) [
      | inl invalid ↦ rw invalid (omega arith)
      | inr valid ↦ rw valid (
          go (new_legs env settings targets w)
            (new_legs-counted env settings cid targets (submissions cid w.history) w (omega arith)))
    ]
  where
    n : ℕ
    n = submissions cid w.history

    go :
        (y : Result Error (List Leg) × World)
        → LegsCounted env settings cid targets n y
        → submissions cid (continue y.0 (drive env settings gate) y.1).1.history
          ≤ n + occurrences cid targets
    go (ok legs, w₁) p =
        let y = run_phases env settings gate (start_book w₁ legs) in
        finish-counted env settings cid gate quiet (n + occurrences cid targets) y (
          omega (
            arith,
            ((run_phases-Leads env settings cid gate quiet targets n).at (start_book w₁ legs) p).0,
            hits-le-occurrences cid targets,
          ))
    go (err e, w₁) p = omega arith
