-- ===== src/Execution/Book/Tests.antt =====
-- A run of the book, and instances of its theorems.
use asymmetric_committee.Base.{
  ◌+◌, ◌≤◌, ◌≡◌, refl, true, false, [], ◌∷◌, AllPairs, ok, Keeps-pure, ◌>>=◌,
}
use asymmetric_committee.Contracts.Enums.{iex_mid}
use asymmetric_committee.Risk.KillSwitch.{halted, allows}
use asymmetric_committee.Execution.Gateway.{BrokerOrder, ExecutionRecord, World, call}
use asymmetric_committee.Execution.Leg.{
  ExecutionOutcome, lim_id, make_record, new_leg, found_or_raise, reconcile, submit_once, looked_up,
  recorded, get_reference, note, block, open_for_submit, resolve_reference, send_limit,
  submit_limit, cancel_working, cancel_known, cancel_limit, settle_terminal, settle_limit,
  close_limit, send_market, market_known, submit_market, settle_market, close_market, shared,
  update_leg, guard_overfill, outcome,
}
use asymmetric_committee.Execution.Leg.Submissions.{submissions}
use asymmetric_committee.Execution.Book.{
  guarded, visit, visit_all, phase, run_leg, each_leg, on_legs, on_world, later, latest_working,
  conclude, sleep, read_clock, sleep_until, wait_until, wait_once, poll_order, poll, poll_again,
  await_all, new_legs, mark_fresh, run_phases, drive, execute_book,
}
use asymmetric_committee.Execution.Leg.Halted.{buys}
use asymmetric_committee.Execution.Book.Halted.{execute_book-buys}
use asymmetric_committee.Execution.Book.Overfill.{Promised, execute_book-Promised}
use asymmetric_committee.Execution.Book.Counts.{occurrences, execute_book-submissions}
use asymmetric_committee.Execution.Pricing.{collar_price, slippage_bps}
use asymmetric_committee.Execution.Sample.{
  acme, limit_fill, market_fill, broker, settings, quiet_world, halted_world, gate,
}

execute_book-submissions_example :
    submissions (lim_id acme) (execute_book broker settings gate (acme ∷ []) quiet_world).1.history
    ≤ 0 + occurrences (lim_id acme) (acme ∷ [])
execute_book-submissions_example =
    execute_book-submissions broker settings (lim_id acme) gate (acme ∷ []) quiet_world
      (λ n. Keeps-pure tt)

abbrev acme_record : BrokerOrder → ExecutionRecord
acme_record o = make_record acme o 1005000 iex_mid

-- Two shares by the limit and the third by the market; every record is written twice.
abbrev acme_outcome : ExecutionOutcome
acme_outcome = record {
  records =
      acme_record limit_fill
      ∷ acme_record limit_fill
      ∷ acme_record market_fill
      ∷ acme_record market_fill
      ∷ [];
  filled_qty = 3000000;
  complete = true;
  blocked_by_kill_switch = false;
}

abbrev acme_world : World
acme_world = (execute_book broker settings gate (acme ∷ []) quiet_world).1

acme_runs :
    execute_book broker settings gate (acme ∷ []) quiet_world ≡ (ok (acme_outcome ∷ []), acme_world)
unfolding guarded visit visit_all phase run_leg each_leg on_legs on_world later latest_working
    conclude sleep read_clock sleep_until wait_until wait_once poll_order poll poll_again await_all
    new_legs mark_fresh run_phases drive execute_book make_record new_leg found_or_raise reconcile
    submit_once looked_up recorded get_reference note block open_for_submit resolve_reference
    send_limit submit_limit cancel_working cancel_known cancel_limit settle_terminal settle_limit
    close_limit send_market market_known submit_market settle_market close_market shared update_leg
    guard_overfill outcome call collar_price slippage_bps allows ◌>>=◌
acme_runs = refl

execute_book-Promised_example : AllPairs Promised (acme ∷ []) (acme_outcome ∷ [])
execute_book-Promised_example =
    execute_book-Promised broker settings gate (acme ∷ []) quiet_world acme_world
      (acme_outcome ∷ []) acme_runs

execute_book-buys_example :
    (halted (execute_book broker settings gate (acme ∷ []) halted_world).1.kill_switch ≡ true)
    × (buys (execute_book broker settings gate (acme ∷ []) halted_world).1.history ≡ 0)
execute_book-buys_example =
    execute_book-buys broker settings gate (acme ∷ []) halted_world refl (λ n. Keeps-pure tt)
