-- ===== src/Gate/Top.antt =====
-- The gate passes the highest scores.
use asymmetric_committee.Base.{
  ℕ, ◌≡◌, inl, inr, refl, sym, subst, ap, ◌∙◌, true, false, List, [], ◌∷◌, Elem, any-Elem, ◌==◌,
  ==→eq, Bool-cases, ◌||◌, sort_by, sort_by-InOrder, Elem-sort_by, sort_by-All, All-Elem, take,
  take-leads, Elem-take, arith, Elem-All,
}
use asymmetric_committee.Gate.{
  Row, GateDecision, put_score, score_of, stands_before, is_among, scores_onto, decisions_for,
  decide_gate,
}

stands_before-total : (a b : ℕ × ℕ) → stands_before a b ≡ false → stands_before b a ≡ true
stands_before-total a b h = ground arith

stands_before_trans :
    (a b c : ℕ × ℕ) → stands_before a b ≡ true → stands_before b c ≡ true → stands_before a c ≡ true
stands_before_trans a b c h k = ground arith

-- Each security has one entry.
abbrev OnePerId : List (ℕ × ℕ) → Type 0
OnePerId [] = Unit
OnePerId ((j, s) ∷ rest) = (is_among j rest ≡ false) × OnePerId rest

is_among-put_score :
    (k id s : ℕ) (xs : List (ℕ × ℕ)) → is_among k (put_score id s xs) ≡ ((id == k) || is_among k xs)
is_among-put_score k id s [] = ground arith
is_among-put_score k id s ((j, r) ∷ rest) = ground (arith, is_among-put_score k id s rest)

put_score-OnePerId : (id s : ℕ) (xs : List (ℕ × ℕ)) → OnePerId xs → OnePerId (put_score id s xs)
put_score-OnePerId id s [] u = (refl, tt)
put_score-OnePerId id s ((j, r) ∷ rest) u =
    ground (arith, u, is_among-put_score j id s rest, put_score-OnePerId id s rest u.1)

is_among-Elem : (p : ℕ × ℕ) (xs : List (ℕ × ℕ)) → Elem p xs → is_among p.0 xs ≡ true
is_among-Elem p [] e = absurd e
is_among-Elem p (x ∷ xs) (inl s) = subst (λ z. is_among z.0 (x ∷ xs) ≡ true) (sym s) (ground arith)
is_among-Elem p (x ∷ xs) (inr e) = ground (arith, is_among-Elem p xs e)

score_of-Elem : (p : ℕ × ℕ) (xs : List (ℕ × ℕ)) → OnePerId xs → Elem p xs → score_of p.0 xs ≡ p.1
score_of-Elem p [] u e = absurd e
score_of-Elem p (x ∷ xs) u (inl s) = subst (λ z. score_of z.0 (x ∷ xs) ≡ z.1) (sym s) (ground arith)
score_of-Elem p (x ∷ xs) u (inr e) =
    ground (arith, u, is_among-Elem p xs e, score_of-Elem p xs u.1 e)

Elem-is_among : (id : ℕ) (xs : List (ℕ × ℕ)) → is_among id xs ≡ true → Elem (id, score_of id xs) xs
Elem-is_among id [] h = absurd (cc)
Elem-is_among id (x ∷ xs) h = elim (Bool-cases (x.0 == id)) [
  | inl e ↦ rw e (inl (ap (λ i. (i, x.1)) (sym (==→eq x.0 id e))))
  | inr e ↦
      let later : score_of id (x ∷ xs) ≡ score_of id xs = rw e refl in
      inr (subst (λ s. Elem (id, s) xs) (sym later) (Elem-is_among id xs (rw e at h)))
]

module _ (score : ℕ → ℕ) where
  scores_onto-OnePerId :
      (xs : List (ℕ × ℕ)) (rows : List Row) → OnePerId xs → OnePerId (scores_onto score xs rows)
  unfolding scores_onto
  scores_onto-OnePerId xs [] u = u
  scores_onto-OnePerId xs (r ∷ rs) u =
      scores_onto-OnePerId (put_score r.security_id (score r.values) xs) rs
        (put_score-OnePerId r.security_id (score r.values) xs u)

  is_among-scores_onto :
      (id : ℕ) (xs : List (ℕ × ℕ)) (rows : List Row)
      → is_among id xs ≡ true
      → is_among id (scores_onto score xs rows) ≡ true
  unfolding scores_onto
  is_among-scores_onto id xs [] h = h
  is_among-scores_onto id xs (r ∷ rs) h =
      is_among-scores_onto id (put_score r.security_id (score r.values) xs) rs
        (ground (arith, h, is_among-put_score id r.security_id (score r.values) xs))

  rows-is_among :
      (r : Row) (rows : List Row) (xs : List (ℕ × ℕ))
      → Elem r rows
      → is_among r.security_id (scores_onto score xs rows) ≡ true
  unfolding scores_onto
  rows-is_among r [] xs e = absurd e
  rows-is_among r (x ∷ rs) xs (inl s) =
      subst (λ z. is_among z.security_id (scores_onto score xs (x ∷ rs)) ≡ true) (sym s)
        (is_among-scores_onto x.security_id _ rs
          (ground (arith, is_among-put_score x.security_id x.security_id (score x.values) xs)))
  rows-is_among r (x ∷ rs) xs (inr e) =
      rows-is_among r rs (put_score x.security_id (score x.values) xs) e

  -- A decision is on a scored security, with its score, and passes when it is among the best.
  abbrev Judged : List (ℕ × ℕ) → List (ℕ × ℕ) → GateDecision → Type 0
  Judged scores best d =
      (is_among d.security_id scores ≡ true)
      × (d.score ≡ score_of d.security_id scores)
      × (d.passed ≡ is_among d.security_id best)

  decisions_for-Judged :
      (scores best : List (ℕ × ℕ)) (rows : List Row) (d : GateDecision)
      → ((r : Row) → Elem r rows → is_among r.security_id scores ≡ true)
      → Elem d (decisions_for score scores best rows)
      → Judged scores best d
  unfolding decisions_for
  decisions_for-Judged scores best [] d k e = absurd e
  decisions_for-Judged scores best (r ∷ rs) d k (inl s) =
      subst (Judged scores best) (sym s) (k r (inl refl), refl, refl)
  decisions_for-Judged scores best (r ∷ rs) d k (inr e) =
      decisions_for-Judged scores best rs d (λ q m. k q (inr m)) e

  -- A security that passes the gate stands before each that does not, by the higher score and, for
  -- equal scores, the lower id.
  pub decide_gate-Leads :
      (rows : List Row) (top_k : ℕ) (d e : GateDecision)
      → Elem d (decide_gate score rows top_k)
      → Elem e (decide_gate score rows top_k)
      → d.passed ≡ true
      → e.passed ≡ false
      → stands_before (d.security_id, d.score) (e.security_id, e.score) ≡ true
  unfolding decide_gate
  decide_gate-Leads rows top_k d e m n pass fail =
      take-leads stands_before top_k ranked
        (sort_by-InOrder stands_before stands_before-total stands_before_trans scores)
        (d.security_id, d.score) (e.security_id, e.score) chosen listed left_out
    where
      scores : List (ℕ × ℕ)
      scores = scores_onto score [] rows

      ranked : List (ℕ × ℕ)
      ranked = sort_by stands_before scores

      once : OnePerId scores
      once = scores_onto-OnePerId [] rows tt

      judged :
          (x : GateDecision)
          → Elem x (decide_gate score rows top_k)
          → Judged scores (take top_k ranked) x
      judged x k =
          decisions_for-Judged scores (take top_k ranked) rows x (λ r q. rows-is_among r rows [] q)
            k

      chosen : Elem (d.security_id, d.score) (take top_k ranked)
      chosen =
          let (p, k, same) = any-Elem _ (take top_k ranked) (sym (judged d m).2 ∙ pass) in
          let in_scores =
            Elem-All (λ z. Elem z scores) p ranked
              (sort_by-All stands_before _ scores (All-Elem scores)) (Elem-take top_k p ranked k) in
          let id_eq : p.0 ≡ d.security_id = ==→eq _ _ same in
          let score_eq : p.1 ≡ d.score =
            sym (score_of-Elem p scores once in_scores)
            ∙ ap (λ i. score_of i scores) id_eq
            ∙ sym (judged d m).1 in
          subst (λ z. Elem z (take top_k ranked)) (λ i. (id_eq i, score_eq i)) k

      listed : Elem (e.security_id, e.score) ranked
      listed = Elem-sort_by stands_before _ scores (
          subst (λ s. Elem (e.security_id, s) scores) (sym (judged e n).1)
            (Elem-is_among e.security_id scores (judged e n).0))

      left_out : Elem (e.security_id, e.score) (take top_k ranked) → ⊥
      left_out k = cc (is_among-Elem _ (take top_k ranked) k, (judged e n).2, fail)
