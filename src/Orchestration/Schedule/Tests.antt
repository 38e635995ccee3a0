-- ===== src/Orchestration/Schedule/Tests.antt =====
-- A calendar of four sessions in two weeks: the days 3 and 4, and 7 and 8.
use asymmetric_committee.Base.{
  ℕ, ◌+◌, ◌*◌, ◌/◌, ◌≤◌, ◌<◌, ◌≡◌, refl, false, some, List, [], ◌∷◌, ok, arith, Elem, All,
}
use asymmetric_committee.Orchestration.Schedule.{
  MarketSession, same_week, nearby, execution_window, weekly_as_of,
}
use asymmetric_committee.Orchestration.Schedule.Windows.{Ascending, weekly_as_of-final}

abbrev on_day : ℕ → MarketSession
on_day d = record { session_date = d; opens_at = 100 * d + 10; closes_at = 100 * d + 60 }

abbrev calendar : ℕ → ℕ → List MarketSession
calendar a b = on_day 3 ∷ on_day 4 ∷ on_day 7 ∷ on_day 8 ∷ []

abbrev date_of : ℕ → ℕ
date_of instant = instant / 100

ascending : (a b : ℕ) → Ascending (calendar a b)
ascending a b = ground arith

opens_next : execution_window calendar date_of 460 5 ≡ ok (715, 760)
unfolding execution_window
opens_next = refl

due_after_day_4 : weekly_as_of calendar date_of 470 ≡ ok (some 460)
unfolding weekly_as_of
due_after_day_4 = refl

weekly_as_of-final_example :
    (last next : MarketSession) × (Elem last (nearby calendar date_of 470)
      × Elem next (nearby calendar date_of 470))
    × (460 ≡ last.closes_at)
    × (460 ≤ 470)
    × All
        (λ s. s.closes_at ≤ 470 → s.session_date ≤ last.session_date)
        (nearby calendar date_of 470)
    × (last.session_date < next.session_date)
    × All
        (λ s. last.session_date < s.session_date → next.session_date ≤ s.session_date)
        (nearby calendar date_of 470)
    × (same_week next.session_date last.session_date ≡ false)
weekly_as_of-final_example = weekly_as_of-final calendar date_of ascending 470 460 due_after_day_4
