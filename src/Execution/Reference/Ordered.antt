-- ===== src/Execution/Reference/Ordered.antt =====
-- The verdicts on a sequence of trades are one for each trade, in the order of time, and their
-- groups are those of one instant each, also in that order.
use asymmetric_committee.Base.{
  ℕ, ◌<◌, ◌≡◌, refl, sym, subst, ap, ◌∙◌, inl, inr, Bool, true, false, List, [], ◌∷◌, ◌++◌, arith,
  map, leb, ◌==◌, ==→eq, eq→==, leb→le, All, All-weaken, Elem, Bool-cases, sort_by, InOrder,
  sort_by-InOrder,
}
use asymmetric_committee.Execution.Conditions.{
  ProviderEntry, ConditionEligibility, eligible, ineligible, conditional, unknown, Eligibility,
  evaluate_conditions,
}
use asymmetric_committee.Execution.Reference.{
  SipTrade, Verdict, judge, conditional_verdict, judge_group, sequence_from, sequence_verdicts,
  group_by_time, join_group, groups,
}

abbrev pub concat : {A : Type 0} → List (List A) → List A
concat [] = []
concat (g ∷ gs) = g ++ concat gs

module _ {A : Type 0} where
  pub append-All : (P : A → Type 0) (xs ys : List A) → All P xs → All P ys → All P (xs ++ ys)
  append-All P [] ys first second = second
  append-All P (x ∷ xs) ys first second = (first.0, append-All P xs ys first.1 second)

  pub concat-All : (P : A → Type 0) (gs : List (List A)) → All (All P) gs → All P (concat gs)
  concat-All P [] h = tt
  concat-All P (g ∷ gs) h = append-All P g (concat gs) h.0 (concat-All P gs h.1)

  module _ (P : A → Type 0) (time_of : A → ℕ) where
    join_group-All :
        (x : A) (gs : List (List A)) → P x → All (All P) gs → All (All P) (join_group time_of x gs)
    join_group-All x [] p h = ((p, tt), tt)
    join_group-All x ([] ∷ gs) p h = ((p, tt), h.1)
    join_group-All x ((y ∷ ys) ∷ gs) p h = elim (Bool-cases (time_of x == time_of y)) [
      | inl e ↦ rw e ((p, h.0), h.1)
      | inr e ↦ rw e ((p, tt), h)
    ]

    pub group_by_time-All : (xs : List A) → All P xs → All (All P) (group_by_time time_of xs)
    group_by_time-All [] h = tt
    group_by_time-All (x ∷ xs) h =
        join_group-All x (group_by_time time_of xs) h.0 (group_by_time-All xs h.1)

module _ {A : Type 0} (time_of : A → ℕ) where
  concat-join_group :
      (x : A) (gs : List (List A)) → concat (join_group time_of x gs) ≡ x ∷ concat gs
  concat-join_group x [] = refl
  concat-join_group x ([] ∷ gs) = refl
  concat-join_group x ((y ∷ ys) ∷ gs) = elim (Bool-cases (time_of x == time_of y)) [
    | inl e ↦ rw e refl
    | inr e ↦ rw e refl
  ]

  pub concat-group_by_time : (xs : List A) → concat (group_by_time time_of xs) ≡ xs
  concat-group_by_time [] = refl
  concat-group_by_time (x ∷ xs) =
      concat-join_group x (group_by_time time_of xs) ∙ ap (λ ys. x ∷ ys) (concat-group_by_time xs)

  -- Each group is of one instant, before those of the groups after it.
  abbrev pub Separated : List (List A) → Type 0
  Separated [] = Unit
  Separated ([] ∷ gs) = ⊥
  Separated ((y ∷ ys) ∷ gs) =
      All (λ v. time_of v ≡ time_of y) ys × All (All (λ w. time_of y < time_of w)) gs × Separated gs

  abbrev pub earlier : A → A → Bool
  earlier x y = leb (time_of x) (time_of y)

  join_group-Separated :
      (x : A) (gs : List (List A))
      → All (All (λ w. earlier x w ≡ true)) gs
      → Separated gs
      → Separated (join_group time_of x gs)
  join_group-Separated x [] h s = (tt, tt, tt)
  join_group-Separated x ([] ∷ gs) h s = elim s [ ]
  join_group-Separated x ((y ∷ ys) ∷ gs) h s = elim (Bool-cases (time_of x == time_of y)) [
    | inl e ↦
        let same : time_of x ≡ time_of y = ==→eq _ _ e in
        rw e (
          (sym same, All-weaken _ (λ v. time_of v ≡ time_of x) ys (λ v k. k ∙ sym same) s.0),
          All-weaken _ (All (λ w. time_of x < time_of w)) gs
              (λ g. All-weaken _ (λ w. time_of x < time_of w) g (λ w k. omega (arith, k, same)))
              s.1,
          s.2,
        )
    | inr e ↦
        let before : time_of x < time_of y =
          ground (arith, e, eq→== (time_of x) (time_of y), leb→le _ _ h.0.0) in
        rw e (
          tt,
          (
            (
              before,
              All-weaken _ (λ w. time_of x < time_of w) ys (λ w k. omega (arith, k, before)) s.0,
            ),
            All-weaken _ (All (λ w. time_of x < time_of w)) gs
                (λ g. All-weaken _ (λ w. time_of x < time_of w) g (λ w k. omega (arith, k, before)))
                s.1,
          ),
          s,
        )
  ]

  pub group_by_time-Separated :
      (xs : List A) → InOrder earlier xs → Separated (group_by_time time_of xs)
  group_by_time-Separated [] h = tt
  group_by_time-Separated (x ∷ xs) h =
      join_group-Separated x (group_by_time time_of xs)
        (group_by_time-All (λ w. earlier x w ≡ true) time_of xs h.0)
        (group_by_time-Separated xs h.1)

map-append : {A B : Type 0} (f : A → B) (xs ys : List A) → map f (xs ++ ys) ≡ map f xs ++ map f ys
map-append f [] ys = refl
map-append f (x ∷ xs) ys = ap (λ zs. f x ∷ zs) (map-append f xs ys)

abbrev pub judged : List Verdict → List SipTrade
judged vs = map (λ v. v.trade) vs

conditional_verdict-trade :
    (sq su tied : Bool) (t : SipTrade) (b : Eligibility)
    → (conditional_verdict sq su tied t b).trade ≡ t
conditional_verdict-trade sq su tied t b = ground arith

judge-trade :
    (sq su tied : Bool) (t : SipTrade) (k : ConditionEligibility) (b : Eligibility)
    → (judge sq su tied t k b).trade ≡ t
judge-trade sq su tied t eligible b = refl
judge-trade sq su tied t ineligible b = refl
judge-trade sq su tied t unknown b = refl
judge-trade sq su tied t conditional b = conditional_verdict-trade sq su tied t b

module _ (pmap : List ProviderEntry) where
  judge_group-judged :
      (sq su : Bool) (others : List Eligibility) (ts : List SipTrade)
      → judged (judge_group pmap sq su others ts) ≡ ts
  unfolding judge_group
  judge_group-judged sq su others [] = refl
  judge_group-judged sq su others (t ∷ ts) =
      let b = evaluate_conditions t.tape t.conditions pmap in
      rw (judge-trade sq su _ t b.status b, judge_group-judged sq su (others ++ b ∷ []) ts) refl

  sequence_from-judged :
      (gs : List (List SipTrade)) (sq su : Bool) → judged (sequence_from pmap sq su gs) ≡ concat gs
  unfolding sequence_from
  sequence_from-judged [] sq su = refl
  sequence_from-judged (g ∷ gs) sq su =
      rw (map-append, judge_group-judged sq su [] g, sequence_from-judged gs) refl

  -- The verdicts are on the trades in the order of time.
  pub sequence_verdicts-judged :
      (ts : List SipTrade)
      → judged (sequence_verdicts pmap ts) ≡ sort_by (λ t u. leb t.time u.time) ts
  unfolding sequence_verdicts
  sequence_verdicts-judged ts =
      let ordered = sort_by (λ t u. leb t.time u.time) ts in
      sequence_from-judged (group_by_time (λ t. t.time) ordered) false false
      ∙ concat-group_by_time (λ t. t.time) ordered

  pub All-judged :
      (P : SipTrade → Type 0) (vs : List Verdict) → All P (judged vs) → All (λ v. P v.trade) vs
  All-judged P [] h = tt
  All-judged P (v ∷ vs) h = (h.0, All-judged P vs h.1)

  InOrder-judged :
      (vs : List Verdict)
      → InOrder (λ t u. leb t.time u.time) (judged vs)
      → InOrder (λ v w. leb v.trade.time w.trade.time) vs
  InOrder-judged [] h = tt
  InOrder-judged (v ∷ vs) h =
      (All-judged (λ u. leb v.trade.time u.time ≡ true) vs h.0, InOrder-judged vs h.1)

  pub groups-Separated :
      (ts : List SipTrade) → Separated (λ v. v.trade.time) (groups (sequence_verdicts pmap ts))
  groups-Separated ts =
      group_by_time-Separated (λ v. v.trade.time) (sequence_verdicts pmap ts)
        (InOrder-judged (sequence_verdicts pmap ts) (
          subst (InOrder (λ t u. leb t.time u.time)) (sym (sequence_verdicts-judged ts)) (
            sort_by-InOrder (λ t u. leb t.time u.time) (λ t u h. ground (arith, h))
              (λ t u w h k. ground (arith, h, k)) ts)))

pub Elem-judged :
    (u : SipTrade) (vs : List Verdict)
    → Elem u (judged vs)
    → (w : Verdict) × Elem w vs × (w.trade ≡ u)
Elem-judged u [] h = absurd h
Elem-judged u (v ∷ vs) (inl e) = (v, inl refl, sym e)
Elem-judged u (v ∷ vs) (inr e) = let (w, i, q) = Elem-judged u vs e in (w, inr i, q)
