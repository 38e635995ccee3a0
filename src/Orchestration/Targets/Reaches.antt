-- ===== src/Orchestration/Targets/Reaches.antt =====
-- The planned orders, when they are filled, leave the book held.
use native.Mathlib.Nat.{div-mul-le_self, lt-div-mul-add, mul-pos}
use asymmetric_committee.Base.{
  ℕ, String, zero, suc, ◌+◌, ◌*◌, ◌/◌, ◌≤◌, ◌<◌, ◌≡◌, ◌≢◌, inl, inr, refl, sym, ap, ◌∙◌, Bool,
  false, ◌||◌, Option, none, some, List, [], ◌∷◌, ok, and_then, if◌then◌else◌, ltb, ◌==◌, any,
  sort_by, insert_by, insert_by-All, sort_by-All, All, Elem, Elem-sort_by, Elem-All, subst,
  Bool-cases, arith, ==→eq, lt→ltb, and_then-ok, eq→==,
}
use asymmetric_committee.Base.Int.{ℤ, pos, negsuc, pos_part, neg_part, sub_ℕ, ◌-ℤ◌, -ℤ_parts}
use asymmetric_committee.Contracts.Enums.{OrderSide, buy, sell}
use asymmetric_committee.Execution.Leg.{ExecutionTarget}
use asymmetric_committee.Orchestration.Targets.{
  Weight, ProposedPosition, MarketView, positive, book_weight, or_nothing, held_of, usable_price,
  desired_qty, nonzero, order_for, with_target, by_id, priced, target_for, targets_for, is_unknown,
  with_equity, plan_targets,
}

-- what the fill of an order makes of what is held
abbrev pub traded : OrderSide → ℕ → ℤ → ℤ
traded buy q held = sub_ℕ (pos_part held + q) (neg_part held)
traded sell q held = sub_ℕ (pos_part held) (neg_part held + q)

-- what the fills of all targets of a security make of it
abbrev pub filled : ℕ → List ExecutionTarget → ℤ → ℤ
filled sid [] held = held
filled sid (t ∷ ts) held =
    filled sid ts (if t.security_id == sid then traded t.side t.qty held else held)

-- No two entries have one key.
abbrev pub DistinctKeys : {A : Type 0} → List (ℕ × A) → Type 0
DistinctKeys [] = Unit
DistinctKeys (e ∷ es) = All (λ f. e.0 ≢ f.0) es × DistinctKeys es

pub DistinctKeys-insert_by :
    {A : Type 0} (le : ℕ × A → ℕ × A → Bool) (e : ℕ × A) (es : List (ℕ × A))
    → All (λ f. e.0 ≢ f.0) es
    → DistinctKeys es
    → DistinctKeys (insert_by le e es)
DistinctKeys-insert_by le e [] h d = (tt, tt)
DistinctKeys-insert_by le e (f ∷ fs) h d = elim (Bool-cases (le e f)) [
  | inl p ↦ rw p (h, d)
  | inr p ↦ rw p (
    insert_by-All le (λ g. f.0 ≢ g.0) e fs (λ q. h.0 (sym q)) d.0,
    DistinctKeys-insert_by le e fs h.1 d.1,
  )
]

pub DistinctKeys-sort_by :
    {A : Type 0} (le : ℕ × A → ℕ × A → Bool) (es : List (ℕ × A))
    → DistinctKeys es
    → DistinctKeys (sort_by le es)
DistinctKeys-sort_by le [] d = tt
DistinctKeys-sort_by le (e ∷ es) d =
    DistinctKeys-insert_by le e (sort_by le es) (sort_by-All le (λ f. e.0 ≢ f.0) es d.0)
      (DistinctKeys-sort_by le es d.1)

-- The order for a difference closes it,
order_for-closes :
    (run_id sid : ℕ) (symbol : String) (price wanted : ℕ) (held d : ℤ) (ts : List ExecutionTarget)
    → pos_part d + pos_part held ≡ neg_part d + wanted + neg_part held
    → filled sid (with_target (order_for run_id sid symbol price d) ts) held
      ≡ filled sid ts (pos wanted)
order_for-closes run_id sid symbol price wanted (pos h) (pos zero) ts e =
    ap (λ q. filled sid ts (pos q)) (omega (arith, e))
order_for-closes run_id sid symbol price wanted (negsuc h) (pos zero) ts e =
    absurd (omega (arith, e))
order_for-closes run_id sid symbol price wanted held (pos (suc n)) ts e =
    rw (eq→== sid sid refl) (ap (filled sid ts) ground (arith, e))
order_for-closes run_id sid symbol price wanted held (negsuc n) ts e =
    rw (eq→== sid sid refl) (ap (filled sid ts) ground (arith, e))

-- and leaves the other securities alone.
order_for-skips :
    (run_id sid other : ℕ) (symbol : String) (price : ℕ) (held d : ℤ) (ts : List ExecutionTarget)
    → sid ≢ other
    → filled other (with_target (order_for run_id sid symbol price d) ts) held
      ≡ filled other ts held
order_for-skips run_id sid other symbol price held (pos zero) ts ne = refl
order_for-skips run_id sid other symbol price held (pos (suc n)) ts ne =
    ap (filled other ts) (ground (arith, ne, ==→eq sid other))
order_for-skips run_id sid other symbol price held (negsuc n) ts ne =
    ap (filled other ts) (ground (arith, ne, ==→eq sid other))

positive-is_positive : (o : Option ℤ) (price : ℕ) → positive o ≡ some price → 0 < price
positive-is_positive none price h = absurd (cc)
positive-is_positive (some (pos zero)) price h = absurd (cc)
positive-is_positive (some (pos (suc n))) price h = ground (arith, h)
positive-is_positive (some (negsuc n)) price h = absurd (cc)

usable_price-is_positive :
    (sid price : ℕ) (ps : List (ℕ × Option ℤ)) → usable_price sid ps ≡ some price → 0 < price
unfolding usable_price
usable_price-is_positive sid price [] h = absurd (cc)
usable_price-is_positive sid price ((s, o) ∷ ps) h = elim (Bool-cases (sid == s)) [
  | inl e ↦ positive-is_positive o price (rw e at h)
  | inr e ↦ usable_price-is_positive sid price ps (rw e at h)
]

abbrev pub HasDenominator : ProposedPosition → Type 0
HasDenominator p = 0 < p.target_weight.den

book_weight-den :
    (sid : ℕ) (ps : List ProposedPosition)
    → All HasDenominator ps
    → 0 < (or_nothing (book_weight sid ps)).den
unfolding book_weight
book_weight-den sid [] h = ground arith
book_weight-den sid (p ∷ ps) h = go (book_weight sid ps) (book_weight-den sid ps h.1)
  where
    go :
        (o : Option Weight)
        → 0 < (or_nothing o).den
        → 0
          < (or_nothing (elim o [
            | some w ↦ some w
            | none ↦ if p.security_id == sid then some p.target_weight else none
          ])).den
    go (some w) k = k
    go none k = elim (Bool-cases (p.security_id == sid)) [
      | inl e ↦ rw e h.0
      | inr e ↦ rw e (ground arith)
    ]

-- A number of whole shares is the share of a weight: it costs no more, and one share more would.
abbrev pub Share : ℕ → Weight → Option ℕ → ℕ → Type 0
Share equity w none n = (n ≡ 0) × (w.num ≡ 0)
Share equity w (some price) n =
    (n * (w.den * price) ≤ w.num * equity * 100)
    × (w.num * equity * 100 < (n + 1) * (w.den * price))

below_next_multiple : (x y : ℕ) → 0 < y → x < (x / y + 1) * y
below_next_multiple x y p = grind (arith, lt-div-mul-add {a = x} p)

below_one_share :
    (w : Weight) (equity price : ℕ)
    → ltb 0 w.num ≡ false
    → 0 < w.den * price
    → w.num * equity * 100 < (0 + 1) * (w.den * price)
below_one_share w equity price e p =
    let nothing : w.num ≡ 0 = ground (arith, e, lt→ltb 0 w.num) in rw nothing (ground (arith, p))

desired_qty-Share :
    (w : Weight) (equity price : ℕ)
    → 0 < w.den
    → 0 < price
    → (n : ℕ) × (desired_qty w equity price ≡ 1000000 * n) × Share equity w (some price) n
unfolding desired_qty
desired_qty-Share w equity price d p = elim (Bool-cases (ltb 0 w.num)) [
  | inl e ↦ rw e (
    w.num * equity * 100 / (w.den * price),
    refl,
    (div-mul-le_self _ _, below_next_multiple _ _ (mul-pos d p)),
  )
  | inr e ↦ rw e (0, refl, (ground arith, below_one_share w equity price e (mul-pos d p)))
]

module _ (run_id : ℕ) (book : List ProposedPosition) (view : MarketView)
    (positions : List (String × ℤ)) where
  abbrev pub weight : ℕ → Weight
  weight sid = or_nothing (book_weight sid book)

  -- With these targets filled the position in a security is the whole-share part of its weight;
  -- a security without a usable price has no weight, and nothing of it is held.
  abbrev pub Reached : ℕ → List ExecutionTarget → ℕ × String → Type 0
  Reached equity ts e =
      (n : ℕ) × (filled e.0 ts (held_of e.1 positions) ≡ pos (1000000 * n))
      × Share equity (weight e.0) (usable_price e.0 view.decision_prices) n

  -- what a step of the loop does for its own security
  abbrev Closed : ℕ → ℕ → String → Option ℕ → Option ExecutionTarget → Type 0
  Closed equity sid symbol price t =
      (n : ℕ) × ((ts : List ExecutionTarget)
        → filled sid (with_target t ts) (held_of symbol positions)
          ≡ filled sid ts (pos (1000000 * n)))
      × Share equity (weight sid) price n

  nothing_held :
      (held : ℤ) (w : Weight) → ltb 0 w.num || nonzero held ≡ false → (held ≡ pos 0) × (w.num ≡ 0)
  nothing_held (pos zero) w h = (refl, ground (arith, h, lt→ltb 0 w.num))
  nothing_held (pos (suc n)) w h = absurd (ground (arith, h))
  nothing_held (negsuc n) w h = absurd (ground (arith, h))

  ordered-Closed :
      (equity sid : ℕ) (symbol : String) (price : ℕ) (wanted : ℕ)
      → (n : ℕ) × (wanted ≡ 1000000 * n) × Share equity (weight sid) (some price) n
      → Closed equity sid symbol
          (some price)
          (order_for run_id sid symbol price (pos wanted -ℤ held_of symbol positions))
  ordered-Closed equity sid symbol price wanted (n, e, share) =
      let held = held_of symbol positions in
      (
        n,
        (λ ts.
            order_for-closes run_id sid symbol price wanted held (pos wanted -ℤ held) ts
              (omega (arith, -ℤ_parts (pos wanted) held))
            ∙ ap (λ q. filled sid ts (pos q)) e),
        share,
      )

  nothing-Closed :
      (equity sid : ℕ) (symbol : String) (t : Option ExecutionTarget)
      → t ≡ none
      → (held_of symbol positions ≡ pos 0) × ((weight sid).num ≡ 0)
      → Closed equity sid symbol none t
  nothing-Closed equity sid symbol t e (held, no_weight) =
      rw (e, held) (0, (λ ts. refl), (refl, no_weight))

  priced-Closed :
      (equity sid : ℕ) (symbol : String) (price : Option ℕ) (t : Option ExecutionTarget)
      → 0 < (weight sid).den
      → ((p : ℕ) → price ≡ some p → 0 < p)
      → priced run_id book view positions equity sid symbol price ≡ ok t
      → Closed equity sid symbol price t
  priced-Closed equity sid symbol none t d p h =
      elim (Bool-cases (ltb 0 (weight sid).num || nonzero (held_of symbol positions))) [
        | inl e ↦ absurd (cc (rw e at h))
        | inr e ↦
            nothing-Closed equity sid symbol t (cc (rw e at h))
              (nothing_held (held_of symbol positions) (weight sid) e)
      ]
  priced-Closed equity sid symbol (some price) t d p h =
      subst (Closed equity sid symbol (some price)) (cc (h)) (
        ordered-Closed equity sid symbol price _
          (desired_qty-Share (weight sid) equity price d (p price refl)))

  priced-skips :
      (equity sid other : ℕ) (symbol : String) (price : Option ℕ) (t : Option ExecutionTarget)
      (ts : List ExecutionTarget) (held : ℤ)
      → sid ≢ other
      → priced run_id book view positions equity sid symbol price ≡ ok t
      → filled other (with_target t ts) held ≡ filled other ts held
  priced-skips equity sid other symbol none t ts held ne h =
      elim (Bool-cases (ltb 0 (weight sid).num || nonzero (held_of symbol positions))) [
        | inl e ↦ absurd (cc (rw e at h))
        | inr e ↦ let nothing : t ≡ none = cc (rw e at h) in rw nothing refl
      ]
  priced-skips equity sid other symbol (some price) t ts held ne h =
      subst (λ o. filled other (with_target o ts) held ≡ filled other ts held) (cc (h))
        (order_for-skips run_id sid other symbol price held
          (pos (desired_qty (weight sid) equity price) -ℤ held_of symbol positions) ts ne)

  -- the first step of the loop and the others
  targets_for-split :
      (equity sid : ℕ) (symbol : String) (es : List (ℕ × String)) (ts : List ExecutionTarget)
      → targets_for run_id book view positions equity ((sid, symbol) ∷ es) ≡ ok ts
      → (t : Option ExecutionTarget) × (us : List ExecutionTarget) × (priced run_id book view
            positions equity sid symbol
            (usable_price sid view.decision_prices)
          ≡ ok t)
        × (targets_for run_id book view positions equity es ≡ ok us)
        × (with_target t us ≡ ts)
  unfolding targets_for target_for
  targets_for-split equity sid symbol es ts h =
      let step =
        priced run_id book view positions equity sid symbol
          (usable_price sid view.decision_prices) in
      let rest = targets_for run_id book view positions equity es in
      let (t, first, h') =
        and_then-ok step (λ t. and_then rest (λ us. ok (with_target t us))) ts h in
      let (us, others, last) = and_then-ok rest (λ us. ok (with_target t us)) ts h' in
      (t, us, first, others, cc (last))

  targets_for-skips :
      (equity other : ℕ) (es : List (ℕ × String)) (ts : List ExecutionTarget) (held : ℤ)
      → All (λ e. other ≢ e.0) es
      → targets_for run_id book view positions equity es ≡ ok ts
      → filled other ts held ≡ held
  unfolding targets_for target_for
  targets_for-skips equity other [] ts held ne h =
      let none_left : ◌≡◌ {A = List ExecutionTarget} [] ts = cc (h) in
      subst (λ us. filled other us held ≡ held) none_left refl
  targets_for-skips equity other ((sid, symbol) ∷ es) ts held ne h =
      let (t, us, first, others, all_of) = targets_for-split equity sid symbol es ts h in
      subst (λ vs. filled other vs held ≡ held) all_of
        (priced-skips equity sid other symbol (usable_price sid view.decision_prices) t us held
            (λ q. ne.0 (sym q)) first
          ∙ targets_for-skips equity other es us held ne.1 others)

  targets_for-Reached :
      (equity : ℕ) (es : List (ℕ × String)) (ts : List ExecutionTarget) (e : ℕ × String)
      → All HasDenominator book
      → DistinctKeys es
      → targets_for run_id book view positions equity es ≡ ok ts
      → Elem e es
      → Reached equity ts e
  unfolding targets_for target_for
  targets_for-Reached equity [] ts e den d h inside = elim inside [ ]
  targets_for-Reached equity ((sid, symbol) ∷ es) ts e den d h (inl same) =
      let (t, us, first, others, all_of) = targets_for-split equity sid symbol es ts h in
      let (n, closes, share) =
        priced-Closed equity sid symbol (usable_price sid view.decision_prices) t
          (book_weight-den sid book den)
          (λ p q. usable_price-is_positive sid p view.decision_prices q) first in
      subst (Reached equity ts) (sym same) (
        subst (λ vs. Reached equity vs (sid, symbol)) all_of
          (n, closes us ∙ targets_for-skips equity sid es us _ d.0 others, share))
  targets_for-Reached equity ((sid, symbol) ∷ es) ts e den d h (inr later) =
      let (t, us, first, others, all_of) = targets_for-split equity sid symbol es ts h in
      let (n, closes, share) = targets_for-Reached equity es us e den d.1 others later in
      subst (λ vs. Reached equity vs e) all_of
        (
          n,
          priced-skips equity sid e.0 symbol (usable_price sid view.decision_prices) t us _
                (Elem-All (λ f. sid ≢ f.0) e es d.0 later) first
              ∙ closes,
          share,
        )

  -- When plan_targets answers, the equity was finite and positive, each name of the book has a
  -- symbol, and with its targets filled the position in each security with a symbol is a whole
  -- number of shares: of a priced one the most that its weight of the equity buys, and of one
  -- without a usable price, which then has no weight, none. Symbols have one entry for each
  -- security, and weights a positive denominator.
  pub plan_targets-Reached :
      (figure : Option ℤ) (ts : List ExecutionTarget)
      → All HasDenominator book
      → DistinctKeys view.symbols
      → plan_targets run_id book view positions figure ≡ ok ts
      → (equity : ℕ) × (positive figure ≡ some equity)
        × (any (is_unknown run_id book view positions) book ≡ false)
        × ((e : ℕ × String) → Elem e view.symbols → Reached equity ts e)
  unfolding plan_targets
  plan_targets-Reached figure ts den d h = go (positive figure) refl h
    where
      go :
          (o : Option ℕ)
          → positive figure ≡ o
          → with_equity run_id book view positions o ≡ ok ts
          → (equity : ℕ) × (positive figure ≡ some equity)
            × (any (is_unknown run_id book view positions) book ≡ false)
            × ((e : ℕ × String) → Elem e view.symbols → Reached equity ts e)
      go none p k = absurd (cc)
      go (some equity) p k = elim (Bool-cases (any (is_unknown run_id book view positions) book)) [
        | inl u ↦ absurd (cc (rw u at k))
        | inr u ↦ (
          equity,
          p,
          u,
          λ e inside.
              targets_for-Reached equity (sort_by by_id view.symbols) ts e den
                (DistinctKeys-sort_by by_id view.symbols d) (rw u at k)
                (Elem-sort_by by_id e view.symbols inside),
        )
      ]
