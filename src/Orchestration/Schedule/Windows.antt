-- ===== src/Orchestration/Schedule/Windows.antt =====
-- A run trades in the first session after it, and is taken at the last close of a week.
use asymmetric_committee.Base.{
  ℕ, ◌+◌, ◌≤◌, ◌<◌, ◌≡◌, ◌↔◌, refl, ap, sym, subst, inl, inr, Bool, true, false, some, List, [],
  ◌∷◌, arith, ok, ltb, leb, filter, Elem, All, All-weaken, Elem-filter, All-filter, Bool-cases,
  leb→le, le→leb, ltb→lt, lt→ltb,
}
use asymmetric_committee.Orchestration.Schedule.{
  MarketSession, early, in_window, expired, window_state, window_of, last_of, same_week, due,
  weekly_of, upcoming, execution_window, nearby, weekly_as_of,
}

-- The state of a window that ends after its start is open exactly from its start and before its
-- end, early before, and expired from its end on.
pub window_state_iff :
    (now start end_at : ℕ)
    → start ≤ end_at
    → ((window_state now (start, end_at) ≡ early) ↔ (now < start))
      × ((window_state now (start, end_at) ≡ in_window) ↔ ((start ≤ now) × (now < end_at)))
      × ((window_state now (start, end_at) ≡ expired) ↔ (end_at ≤ now))
unfolding window_state
window_state_iff now start end_at h = ground arith

-- Each session of the list comes at a later date than those before it.
abbrev pub Ascending : List MarketSession → Type 0
Ascending [] = Unit
Ascending (s ∷ ss) = All (λ t. s.session_date < t.session_date) ss × Ascending ss

All-kept :
    (p : MarketSession → Bool) (P : MarketSession → Type 0) (ss : List MarketSession)
    → All P ss
    → All P (filter p ss)
All-kept p P [] h = tt
All-kept p P (s ∷ ss) h = elim (Bool-cases (p s)) [
  | inl keep ↦ rw keep (h.0, All-kept p P ss h.1)
  | inr leave ↦ rw leave (All-kept p P ss h.1)
]

Ascending-filter :
    (p : MarketSession → Bool) (ss : List MarketSession) → Ascending ss → Ascending (filter p ss)
Ascending-filter p [] h = tt
Ascending-filter p (s ∷ ss) h = elim (Bool-cases (p s)) [
  | inl keep ↦
      rw keep (All-kept p (λ t. s.session_date < t.session_date) ss h.0, Ascending-filter p ss h.1)
  | inr leave ↦ rw leave (Ascending-filter p ss h.1)
]

All-kept-test :
    (p : MarketSession → Bool) (ss : List MarketSession) → All (λ s. p s ≡ true) (filter p ss)
All-kept-test p [] = tt
All-kept-test p (s ∷ ss) = elim (Bool-cases (p s)) [
  | inl keep ↦ rw keep (keep, All-kept-test p ss)
  | inr leave ↦ rw leave (All-kept-test p ss)
]

last_of-Elem : (s : MarketSession) (ss : List MarketSession) → Elem (last_of s ss) (s ∷ ss)
last_of-Elem s [] = inl refl
last_of-Elem s (t ∷ ts) = inr (last_of-Elem t ts)

last_of-last :
    (s : MarketSession) (ss : List MarketSession)
    → Ascending (s ∷ ss)
    → All (λ t. t.session_date ≤ (last_of s ss).session_date) (s ∷ ss)
last_of-last s [] h = (omega arith, tt)
last_of-last s (t ∷ ts) (above, rest) =
    let k = last_of-last t ts rest in (omega (arith, above.0, k.0), k)

due-some :
    (last next : MarketSession) (rest : List MarketSession) (t : ℕ)
    → due last (next ∷ rest) ≡ ok (some t)
    → (same_week next.session_date last.session_date ≡ false) × (t ≡ last.closes_at)
due-some last next rest t h = elim (Bool-cases (same_week next.session_date last.session_date)) [
  | inl same ↦ absurd (cc (rw same at h))
  | inr other ↦ (other, ap (λ r. elim r [ ok (some x) ↦ x | _ ↦ t ]) (sym (rw other at h)))
]

module _ (sessions : ℕ → ℕ → List MarketSession) (et_date : ℕ → ℕ)
    (ascending : (a b : ℕ) → Ascending (sessions a b)) where
  -- An execution window is the delayed session of the calendar that comes first after the day of
  -- the run: the session is not on that day or before it, and no other is earlier.
  pub execution_window-first :
      (as_of delay start end_at : ℕ)
      → execution_window sessions et_date as_of delay ≡ ok (start, end_at)
      → (s : MarketSession) × Elem s (upcoming sessions et_date as_of)
        × (et_date as_of < s.session_date)
        × (start ≡ s.opens_at + delay)
        × (end_at ≡ s.closes_at)
        × All (λ t. s.session_date ≤ t.session_date) (upcoming sessions et_date as_of)
  unfolding execution_window
  execution_window-first as_of delay start end_at h =
      go (upcoming sessions et_date as_of)
        (Ascending-filter (λ s. leb (et_date as_of + 1) s.session_date) _ (ascending _ _))
        (All-kept-test (λ s. leb (et_date as_of + 1) s.session_date)
          (sessions (et_date as_of + 1) _))
        h
    where
      go :
          (us : List MarketSession)
          → Ascending us
          → All (λ s. leb (et_date as_of + 1) s.session_date ≡ true) us
          → window_of delay us ≡ ok (start, end_at)
          → (s : MarketSession) × Elem s us
            × (et_date as_of < s.session_date)
            × (start ≡ s.opens_at + delay)
            × (end_at ≡ s.closes_at)
            × All (λ t. s.session_date ≤ t.session_date) us
      go [] a k e = absurd (cc)
      go (s ∷ ss) a k e = (
        s,
        inl refl,
        ground (arith, k.0),
        ground arith,
        ground arith,
        (
          omega arith,
          All-weaken (λ t. s.session_date < t.session_date) (λ t. s.session_date ≤ t.session_date)
              ss (λ t x. omega (arith, x)) a.0,
        ),
      )

  -- A weekly run is due at the close of the latest session that has closed; there are later
  -- sessions, and the first of them is in another week. The calendar answers in the order of dates.
  pub weekly_as_of-final :
      (now t : ℕ)
      → weekly_as_of sessions et_date now ≡ ok (some t)
      → (last next : MarketSession) × (Elem last (nearby sessions et_date now)
          × Elem next (nearby sessions et_date now))
        × (t ≡ last.closes_at)
        × (t ≤ now)
        × All
            (λ s. s.closes_at ≤ now → s.session_date ≤ last.session_date)
            (nearby sessions et_date now)
        × (last.session_date < next.session_date)
        × All
            (λ s. last.session_date < s.session_date → next.session_date ≤ s.session_date)
            (nearby sessions et_date now)
        × (same_week next.session_date last.session_date ≡ false)
  unfolding weekly_as_of
  weekly_as_of-final now t h = go (filter (λ s. leb s.closes_at now) near) refl h
    where
      near : List MarketSession
      near = nearby sessions et_date now

      Goal : Type 0
      Goal =
          (last next : MarketSession) × (Elem last near × Elem next near)
          × (t ≡ last.closes_at)
          × (t ≤ now)
          × All (λ s. s.closes_at ≤ now → s.session_date ≤ last.session_date) near
          × (last.session_date < next.session_date)
          × All (λ s. last.session_date < s.session_date → next.session_date ≤ s.session_date) near
          × (same_week next.session_date last.session_date ≡ false)

      -- the first of the later sessions, which is the earliest of them
      first_after :
          (last u : MarketSession) (us : List MarketSession)
          → filter (λ x. ltb last.session_date x.session_date) near ≡ u ∷ us
          → All (λ s. last.session_date < s.session_date → u.session_date ≤ s.session_date) near
      first_after last u us f =
          let later = λ (x : MarketSession). ltb last.session_date x.session_date in
          let no_earlier = λ (x : MarketSession). u.session_date ≤ x.session_date in
          let (above, _) = subst Ascending f (Ascending-filter later near (ascending _ _)) in
          let least : All no_earlier (u ∷ us) = (
            omega arith,
            All-weaken (λ x. u.session_date < x.session_date) no_earlier us
                (λ x h. omega (arith, h)) above,
          ) in
          All-weaken (λ x. later x ≡ true → no_earlier x)
            (λ x. last.session_date < x.session_date → no_earlier x) near
            (λ x g lt. g (lt→ltb last.session_date x.session_date lt))
            (All-filter later no_earlier near (subst (All no_earlier) (sym f) least))

      finish :
          (s : MarketSession) (ss us : List MarketSession)
          → filter (λ s. leb s.closes_at now) near ≡ s ∷ ss
          → filter (λ u. ltb (last_of s ss).session_date u.session_date) near ≡ us
          → due (last_of s ss) us ≡ ok (some t)
          → Goal
      finish s ss [] e f k = absurd (cc)
      finish s ss (u ∷ us) e f k =
          let last = last_of s ss in
          let closed = λ (x : MarketSession). leb x.closes_at now in
          let after = λ (x : MarketSession). ltb last.session_date x.session_date in
          let (last_near, last_closed) =
            Elem-filter closed last near (subst (Elem last) (sym e) (last_of-Elem s ss)) in
          let (u_near, u_after) = Elem-filter after u near (subst (Elem u) (sym f) (inl refl)) in
          let at_most = λ (x : MarketSession). x.session_date ≤ last.session_date in
          let bound = subst (All at_most) (sym e) (
            last_of-last s ss (subst Ascending e (Ascending-filter closed near (ascending _ _)))) in
          let (other_week, same) = due-some last u us t k in
          (
            last,
            u,
            (last_near, u_near),
            same,
            omega (arith, same, leb→le last.closes_at now last_closed),
            All-weaken (λ x. closed x ≡ true → at_most x) (λ x. x.closes_at ≤ now → at_most x) near
                (λ x g le. g (le→leb x.closes_at now le)) (All-filter closed at_most near bound),
            ltb→lt last.session_date u.session_date u_after,
            first_after last u us f,
            other_week,
          )

      go :
          (cs : List MarketSession)
          → filter (λ s. leb s.closes_at now) near ≡ cs
          → weekly_of near cs ≡ ok (some t)
          → Goal
      go [] e k = absurd (cc)
      go (s ∷ ss) e k = finish s ss _ e refl k
