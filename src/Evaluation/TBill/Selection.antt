-- ===== src/Evaluation/TBill/Selection.antt =====
-- The selected rate is the latest usable one.
use asymmetric_committee.Base.{
  ℕ, ◌≡◌, refl, inl, inr, true, Option, none, some, List, [], ◌∷◌, Result, ok, err, leb, Bool-cases,
  All, Elem, All-Elem, All-weaken,
}
use asymmetric_committee.Base.Int.{ℤ}
use asymmetric_committee.Evaluation.Calendar.{
  TradingCalendar, previous_session, CalendarError, coverage_error,
}
use asymmetric_committee.Evaluation.TBill.{
  TBillObservation, rate, is_usable, take_rate, latest_rates, select_before, select_rate,
}
use asymmetric_committee.Evaluation.TBill.Latest.{
  IsLater, Entry, Dominated, put_rate-Entry, put_rate-Dominated-new, put_rate-Dominated,
  choose-greatest,
}

module _ (accrual previous : ℕ) where
  take_rate-Entry :
      (P : TBillObservation → Type 0) (r : TBillObservation) (es : List (ℕ × TBillObservation))
      → (is_usable accrual previous r ≡ true → P r)
      → All (Entry P) es
      → All (Entry P) (take_rate accrual previous r es)
  unfolding take_rate
  take_rate-Entry P r es p h = elim (Bool-cases (is_usable accrual previous r)) [
    | inl fit ↦ rw fit (put_rate-Entry P r es (p fit) h)
    | inr unfit ↦ rw unfit h
  ]

  take_rate-Dominated :
      (r t : TBillObservation) (es : List (ℕ × TBillObservation))
      → Dominated es t
      → Dominated (take_rate accrual previous r es) t
  unfolding take_rate
  take_rate-Dominated r t es h = elim (Bool-cases (is_usable accrual previous r)) [
    | inl fit ↦ rw fit (put_rate-Dominated r t es h)
    | inr unfit ↦ rw unfit h
  ]

  take_rate-Dominated-new :
      (r : TBillObservation) (es : List (ℕ × TBillObservation))
      → is_usable accrual previous r ≡ true
      → Dominated (take_rate accrual previous r es) r
  unfolding take_rate
  take_rate-Dominated-new r es fit = rw fit (put_rate-Dominated-new r es)

  latest_rates-Entry :
      (P : TBillObservation → Type 0) (es : List (ℕ × TBillObservation))
      (rs : List TBillObservation)
      → All (Entry P) es
      → All (λ r. is_usable accrual previous r ≡ true → P r) rs
      → All (Entry P) (latest_rates accrual previous es rs)
  unfolding latest_rates
  latest_rates-Entry P es [] h k = h
  latest_rates-Entry P es (r ∷ rs) h (p, ps) =
      latest_rates-Entry P (take_rate accrual previous r es) rs (take_rate-Entry P r es p h) ps

  latest_rates-Dominated :
      (t : TBillObservation) (es : List (ℕ × TBillObservation)) (rs : List TBillObservation)
      → Dominated es t
      → Dominated (latest_rates accrual previous es rs) t
  unfolding latest_rates
  latest_rates-Dominated t es [] h = h
  latest_rates-Dominated t es (r ∷ rs) h =
      latest_rates-Dominated t (take_rate accrual previous r es) rs (take_rate-Dominated r t es h)

  latest_rates-All :
      (es : List (ℕ × TBillObservation)) (rs : List TBillObservation)
      → All
          (λ t.
            is_usable accrual previous t ≡ true → Dominated (latest_rates accrual previous es rs) t)
          rs
  unfolding latest_rates
  latest_rates-All es [] = tt
  latest_rates-All es (r ∷ rs) = (
    λ h.
        latest_rates-Dominated r (take_rate accrual previous r es) rs
          (take_rate-Dominated-new r es h),
    latest_rates-All (take_rate accrual previous r es) rs,
  )

-- A selected rate is that of a given row whose vintage is dated before the accrual date and whose
-- observation is not after the session before it; of all such rows it is the one of the latest
-- observation, and of the latest vintage for that observation.
pub select_rate-latest :
    (rows : List TBillObservation) (coverage : Option ℕ) (accrual : ℕ) (cal : TradingCalendar)
    (o v : ℕ) (y : ℤ)
    → select_rate rows coverage accrual cal ≡ rate o v y
    → (previous : ℕ) × (previous_session cal accrual ≡ ok previous)
      × (r : TBillObservation) × (Elem r rows × (is_usable accrual previous r ≡ true))
      × (rate o v y ≡ rate r.observation_date r.vintage_date r.yield_pct)
      × All (λ t. is_usable accrual previous t ≡ true → IsLater r t) rows
unfolding select_rate select_before
select_rate-latest rows none accrual cal o v y h = absurd (cc)
select_rate-latest rows (some earliest) accrual cal o v y h =
    elim (Bool-cases (leb accrual earliest)) [
      | inl early ↦ absurd (cc (rw early at h))
      | inr fine ↦ go (previous_session cal accrual) refl (rw fine at h)
    ]
  where
    go :
        (p : Result CalendarError ℕ)
        → previous_session cal accrual ≡ p
        → select_before rows accrual p ≡ rate o v y
        → (previous : ℕ) × (previous_session cal accrual ≡ ok previous)
          × (r : TBillObservation) × (Elem r rows × (is_usable accrual previous r ≡ true))
          × (rate o v y ≡ rate r.observation_date r.vintage_date r.yield_pct)
          × All (λ t. is_usable accrual previous t ≡ true → IsLater r t) rows
    go (err coverage_error) e k = absurd (cc)
    go (err CalendarError.value_error) e k = absurd (cc)
    go (err CalendarError.overflow_error) e k = absurd (cc)
    go (ok previous) e k =
        let P = λ (r : TBillObservation). Elem r rows × (is_usable accrual previous r ≡ true) in
        let es = latest_rates accrual previous [] rows in
        let (r, p, same, greatest) =
          choose-greatest P es o v y
            (latest_rates-Entry accrual previous P [] rows tt (
              All-weaken (λ r. Elem r rows) (λ r. is_usable accrual previous r ≡ true → P r) rows
                (λ r m u. (m, u)) (All-Elem rows)))
            k in
        (
          previous,
          e,
          r,
          p,
          same,
          All-weaken (λ t. is_usable accrual previous t ≡ true → Dominated es t)
              (λ t. is_usable accrual previous t ≡ true → IsLater r t) rows
              (λ t d u. greatest t (d u)) (latest_rates-All accrual previous [] rows),
        )
