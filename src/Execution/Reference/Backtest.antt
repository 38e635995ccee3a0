-- ===== src/Execution/Reference/Backtest.antt =====
-- A backtest reference is a given trade, of the latest instant that decides anything.
use asymmetric_committee.Base.{
  ℕ, ◌≤◌, ◌<◌, ◌≡◌, refl, sym, subst, ap, ◌∙◌, ◌⊎◌, inl, inr, String, Bool, true, ◌&&◌, List, [],
  ◌∷◌, ◌++◌, arith, leb, le→leb, filter, All, All-Elem, All-weaken, Elem, Elem-All, Elem-filter,
  filter-Elem, Elem-sort_by, sort_by-All, Bool-cases,
}
use asymmetric_committee.Evaluation.Calendar.{TradingSession}
use asymmetric_committee.Execution.Conditions.{ProviderEntry}
use asymmetric_committee.Execution.Reference.{
  SipTrade, resolved_sip, Verdict, qualifies, not_eligible, sequence_verdicts, groups, reverse,
  resolve_backtest,
}
use asymmetric_committee.Execution.Reference.Decision.{
  Skipped, Plain, Decides, FirstDecided, decide-FirstDecided,
}
use asymmetric_committee.Execution.Reference.Ordered.{
  concat, concat-All, concat-group_by_time, Separated, sequence_verdicts-judged, groups-Separated,
  Elem-judged, All-judged,
}

-- Beside the reference trade a verdict on a later instant is of a trade that does not count, and
-- one on the same instant is decided, and at the same price if its trade counts.
abbrev pub Agrees : SipTrade → Verdict → Type 0
Agrees t w =
    (t.time < w.trade.time → w.kind ≡ not_eligible)
    × (w.trade.time ≡ t.time → Plain w × (w.kind ≡ qualifies → w.trade.price ≡ t.price))

-- `t` comes from the last of the groups that has more than trades that are not eligible.
abbrev LastDecided : SipTrade → List (List Verdict) → Type 0
LastDecided t [] = ⊥
LastDecided t (g ∷ gs) = LastDecided t gs ⊎ (Decides t g × All (All Skipped) gs)

reverse-LastDecided :
    (t : SipTrade) (gs acc : List (List Verdict))
    → FirstDecided t (reverse gs acc)
    → LastDecided t gs ⊎ (All (All Skipped) gs × FirstDecided t acc)
reverse-LastDecided t [] acc h = inr (tt, h)
reverse-LastDecided t (g ∷ gs) acc h = elim (reverse-LastDecided t gs (g ∷ acc) h) [
  | inl last ↦ inl (inl last)
  | inr (skipped, inl decides) ↦ inl (inr (decides, skipped))
  | inr (skipped, inr (none_here, first)) ↦ inr ((none_here, skipped), first)
]

LastDecided-of :
    (t : SipTrade) (gs : List (List Verdict)) → FirstDecided t (reverse gs []) → LastDecided t gs
LastDecided-of t gs h = elim (reverse-LastDecided t gs [] h) [
  | inl last ↦ last
  | inr (skipped, first) ↦ elim first [ ]
]

Elem-append : (v : Verdict) (xs ys : List Verdict) → Elem v xs ⊎ Elem v ys → Elem v (xs ++ ys)
Elem-append v [] ys (inl e) = elim e [ ]
Elem-append v [] ys (inr e) = e
Elem-append v (x ∷ xs) ys (inl (inl e)) = inl e
Elem-append v (x ∷ xs) ys (inl (inr e)) = inr (Elem-append v xs ys (inl e))
Elem-append v (x ∷ xs) ys (inr e) = inr (Elem-append v xs ys (inr e))

-- the verdict on the reference trade itself
Qualified : SipTrade → List Verdict → Type 0
Qualified t vs = (v : Verdict) × Elem v vs × (v.kind ≡ qualifies) × (v.trade ≡ t)

LastDecided-Qualified :
    (t : SipTrade) (gs : List (List Verdict)) → LastDecided t gs → Qualified t (concat gs)
unfolding Qualified
LastDecided-Qualified t [] h = elim h [ ]
LastDecided-Qualified t (g ∷ gs) (inl last) =
    let (v, i, k, e) = LastDecided-Qualified t gs last in
    (v, Elem-append v g (concat gs) (inr i), k, e)
LastDecided-Qualified t (g ∷ gs) (inr ((plain, (v, i, k, e), same), skipped)) =
    (v, Elem-append v g (concat gs) (inl i), k, e)

abbrev time_of : Verdict → ℕ
time_of v = v.trade.time

-- the group of an earlier instant
before-Agrees :
    (t : SipTrade) (y : Verdict) (ys : List Verdict)
    → time_of y < t.time
    → All (λ v. time_of v ≡ time_of y) ys
    → All (Agrees t) (y ∷ ys)
before-Agrees t y ys lt h =
    let agrees : (v : Verdict) → time_of v ≡ time_of y → Agrees t v = λ v e. (
      λ later. absurd (omega (arith, e, lt, later)),
      λ same. absurd (omega (arith, e, lt, same)),
    ) in
    (agrees y refl, All-weaken _ (Agrees t) ys agrees h)

-- the groups of later instants than the one that decides
after-Agrees :
    (t : SipTrade) (gs : List (List Verdict))
    → All (All (λ w. t.time < time_of w)) gs
    → All (All Skipped) gs
    → All (All (Agrees t)) gs
after-Agrees t [] h k = tt
after-Agrees t (g ∷ gs) h k = (
  All-weaken (λ w. Elem w g) (Agrees t) g
      (λ w i. (
        λ _. Elem-All Skipped w g k.0 i,
        λ same. absurd (omega (arith, same, Elem-All (λ v. t.time < time_of v) w g h.0 i)),
      ))
      (All-Elem g),
  after-Agrees t gs h.1 k.1,
)

-- the group that decides
at-Agrees :
    (t : SipTrade) (g : List Verdict)
    → All (λ v. time_of v ≡ t.time) g
    → Decides t g
    → All (Agrees t) g
at-Agrees t g times (plain, one, same) =
    All-weaken (λ w. Elem w g) (Agrees t) g
      (λ w i. (
        λ later. absurd (omega (arith, later, Elem-All (λ v. time_of v ≡ t.time) w g times i)),
        λ _. (
          Elem-All Plain w g plain i,
          Elem-All (λ v. v.kind ≡ qualifies → v.trade.price ≡ t.price) w g same i,
        ),
      ))
      (All-Elem g)

LastDecided-Agrees :
    (t : SipTrade) (gs : List (List Verdict))
    → Separated time_of gs
    → LastDecided t gs
    → All (All (Agrees t)) gs
unfolding Qualified
LastDecided-Agrees t [] s h = elim h [ ]
LastDecided-Agrees t ([] ∷ gs) s h = elim s [ ]
LastDecided-Agrees t ((y ∷ ys) ∷ gs) (same, later, s) (inl last) =
    let (v, i, _, e) = LastDecided-Qualified t gs last in
    let after_v = Elem-All (λ w. time_of y < time_of w) v (concat gs) (concat-All _ gs later) i in
    let before : time_of y < t.time = subst (λ u. time_of y < u.time) e after_v in
    (before-Agrees t y ys before same, LastDecided-Agrees t gs s last)
LastDecided-Agrees t ((y ∷ ys) ∷ gs) (same, later, s)
      (inr ((plain, (v, i, k, e), price), skipped)) =
    let at_v = Elem-All (λ w. time_of w ≡ time_of y) v (y ∷ ys) (refl, same) i in
    let here : t.time ≡ time_of y = ap (λ u. u.time) (sym e) ∙ at_v in
    (
      at-Agrees t (y ∷ ys)
          (sym here, All-weaken _ (λ w. time_of w ≡ t.time) ys (λ w q. q ∙ sym here) same)
          (plain, (v, i, k, e), price),
      after-Agrees t gs
          (All-weaken _ (All (λ w. t.time < time_of w)) gs
            (λ g. All-weaken _ (λ w. t.time < time_of w) g (λ w q. omega (arith, q, here))) later)
          skipped,
    )

abbrev in_time : TradingSession → ℕ → SipTrade → Bool
in_time session ref_time u = leb session.open_at u.time && leb u.time ref_time

in_time-true :
    (session : TradingSession) (ref_time : ℕ) (u : SipTrade)
    → session.open_at ≤ u.time
    → u.time ≤ ref_time
    → in_time session ref_time u ≡ true
in_time-true session ref_time u h k = rw (le→leb _ _ h, le→leb _ _ k) refl

-- There is a verdict on each of the trades, and on no other.
verdict_on :
    (pmap : List ProviderEntry) (ts : List SipTrade) (u : SipTrade)
    → Elem u ts
    → (w : Verdict) × Elem w (sequence_verdicts pmap ts) × (w.trade ≡ u)
verdict_on pmap ts u i = Elem-judged u (sequence_verdicts pmap ts) (
    subst (Elem u) (sym (sequence_verdicts-judged pmap ts))
      (Elem-sort_by (λ t v. leb t.time v.time) u ts i))

trade_of-Elem :
    (pmap : List ProviderEntry) (ts : List SipTrade) (v : Verdict)
    → Elem v (sequence_verdicts pmap ts)
    → Elem v.trade ts
trade_of-Elem pmap ts v i =
    Elem-All (λ w. Elem w.trade ts) v (sequence_verdicts pmap ts)
      (All-judged pmap (λ u. Elem u ts) (sequence_verdicts pmap ts)
        (subst (All (λ u. Elem u ts)) (sym (sequence_verdicts-judged pmap ts))
          (sort_by-All (λ t u. leb t.time u.time) (λ u. Elem u ts) ts (All-Elem ts))))
      i

-- A backtest reference that is resolved is a given trade between the open and the reference time,
-- whose verdict is that it counts. Among the verdicts on the given trades of that stretch, one on
-- each of them, none on a later instant is anything but not eligible, and none on the same instant
-- is undecided or counts at another price.
pub resolve_backtest-decided :
    (symbol : String) (trades : List SipTrade) (session : TradingSession) (ref_time : ℕ)
    (pmap : List ProviderEntry) (t : SipTrade)
    → let vs : List Verdict =
        sequence_verdicts pmap
          (filter (λ u. leb session.open_at u.time && leb u.time ref_time) trades) in
      (resolve_backtest symbol trades session ref_time pmap).outcome ≡ resolved_sip t
      → Elem t trades
        × (session.open_at ≤ t.time)
        × (t.time ≤ ref_time)
        × ((v : Verdict) × Elem v vs × (v.kind ≡ qualifies) × (v.trade ≡ t))
        × All (Agrees t) vs
        × ((u : SipTrade)
            → Elem u trades
            → session.open_at ≤ u.time
            → u.time ≤ ref_time
            → (w : Verdict) × Elem w vs × (w.trade ≡ u))
unfolding resolve_backtest Qualified
resolve_backtest-decided symbol trades session ref_time pmap t h =
    elim (Bool-cases (leb session.open_at ref_time && leb ref_time session.close_at)) [
      | inr outside ↦ absurd (cc (rw outside at h))
      | inl inside ↦
          let regular = filter (in_time session ref_time) trades in
          let vs = sequence_verdicts pmap regular in
          let last = LastDecided-of t (groups vs) (decide-FirstDecided t _ (rw inside at h)) in
          let all_of : concat (groups vs) ≡ vs = concat-group_by_time time_of vs in
          let (v, i, k, e) =
            subst (Qualified t) all_of (LastDecided-Qualified t (groups vs) last) in
          let agrees = subst (All (Agrees t)) all_of (
            concat-All (Agrees t) (groups vs)
              (LastDecided-Agrees t (groups vs) (groups-Separated pmap regular) last)) in
          let t_regular = subst (λ u. Elem u regular) e (trade_of-Elem pmap regular v i) in
          let (given, timely) = Elem-filter (in_time session ref_time) t trades t_regular in
          (
            given,
            ground arith,
            ground arith,
            (v, i, k, e),
            agrees,
            λ u j from to. verdict_on pmap regular u (
                filter-Elem (in_time session ref_time) u trades j
                  (in_time-true session ref_time u from to)),
          )
    ]
