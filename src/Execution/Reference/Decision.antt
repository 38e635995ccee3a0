-- ===== src/Execution/Reference/Decision.antt =====
-- Which trade becomes the reference.
use asymmetric_committee.Base.{
  ℕ, ◌≡◌, ◌≢◌, refl, ap, sym, subst, ◌∙◌, ◌⊎◌, inl, inr, true, false, Option, none, some, List, [],
  ◌∷◌, arith, ◌==◌, all, All, Elem, Bool-cases,
}
use asymmetric_committee.Execution.Conditions.{RefReason}
use asymmetric_committee.Execution.Reference.{
  SipTrade, Outcome, resolved_sip, Verdict, qualifies, not_eligible, undecided, qualified,
  first_reason, trades_of, settle, decide_group, or_else, decide,
}

abbrev pub Skipped : Verdict → Type 0
Skipped v = v.kind ≡ not_eligible

abbrev pub Plain : Verdict → Type 0
Plain v = v.kind ≢ undecided

-- In the group `t` is a trade that qualifies, at the price of every other that qualifies, and no
-- verdict of the group is undecided.
abbrev pub Decides : SipTrade → List Verdict → Type 0
Decides t g =
    All Plain g
    × ((v : Verdict) × Elem v g × (v.kind ≡ qualifies) × (v.trade ≡ t))
    × All (λ v. v.kind ≡ qualifies → v.trade.price ≡ t.price) g

-- `t` comes from the first of the groups that has more than trades that are not eligible.
abbrev pub FirstDecided : SipTrade → List (List Verdict) → Type 0
FirstDecided t [] = ⊥
FirstDecided t (g ∷ gs) = Decides t g ⊎ (All Skipped g × FirstDecided t gs)

first_reason-none : (g : List Verdict) → first_reason g ≡ none → All Plain g
first_reason-none [] h = tt
first_reason-none (v ∷ g) h = ground (arith, first_reason-none g)

trades_of-none : (g : List Verdict) → All Plain g → trades_of g ≡ [] → All Skipped g
trades_of-none [] p h = tt
trades_of-none (v ∷ g) p h = ground (arith, trades_of-none g)

qualified-kind : (v : Verdict) → qualified v ≡ true → v.kind ≡ qualifies
qualified-kind v h = ground arith

not-qualified : (v : Verdict) → qualified v ≡ false → v.kind ≢ qualifies
not-qualified v h e = ground arith

settle-none : (ts : List SipTrade) → settle ts ≡ none → ts ≡ []
settle-none ts h = ground arith

resolved-injective : (t u : SipTrade) → some (resolved_sip t) ≡ some (resolved_sip u) → t ≡ u
resolved-injective t u h = ap (λ o. elim o [ some (resolved_sip x) ↦ x | _ ↦ t ]) h

trades_of-Elem :
    (t : SipTrade) (g : List Verdict)
    → Elem t (trades_of g)
    → (v : Verdict) × Elem v g × (v.kind ≡ qualifies) × (v.trade ≡ t)
trades_of-Elem t [] h = absurd h
trades_of-Elem t (v ∷ g) h = elim (Bool-cases (qualified v)) [
  | inl fit ↦
      elim (rw fit at h)
        as (λ _. (w : Verdict) × Elem w (v ∷ g) × (w.kind ≡ qualifies) × (w.trade ≡ t)) [
          | inl e ↦ (v, inl refl, qualified-kind v fit, sym e)
          | inr e ↦ let (w, i, k, q) = trades_of-Elem t g e in (w, inr i, k, q)
        ]
  | inr unfit ↦ let (w, i, k, q) = trades_of-Elem t g (rw unfit at h) in (w, inr i, k, q)
]

trades_of-All :
    (P : SipTrade → Type 0) (g : List Verdict)
    → All P (trades_of g)
    → All (λ v. v.kind ≡ qualifies → P v.trade) g
trades_of-All P [] h = tt
trades_of-All P (v ∷ g) h = elim (Bool-cases (qualified v)) [
  | inl fit ↦
      let k : All P (v.trade ∷ trades_of g) = rw fit at h in (λ _. k.0, trades_of-All P g k.1)
  | inr unfit ↦ (λ e. absurd (not-qualified v unfit e), trades_of-All P g (rw unfit at h))
]

all-All :
    (price : ℕ) (ts : List SipTrade)
    → all (λ u. u.price == price) ts ≡ true
    → All (λ u. u.price ≡ price) ts
all-All price [] h = tt
all-All price (t ∷ ts) h = ground (arith, all-All price ts)

settle-resolved :
    (t : SipTrade) (ts : List SipTrade)
    → settle ts ≡ some (resolved_sip t)
    → Elem t ts × All (λ u. u.price ≡ t.price) ts
settle-resolved t [] h = absurd (cc)
settle-resolved t (u ∷ us) h = elim (Bool-cases (all (λ w. w.price == u.price) us)) [
  | inl agree ↦
      let e : u ≡ t = resolved-injective u t (rw agree at h) in
      subst (λ z. Elem z (u ∷ us) × All (λ w. w.price ≡ z.price) (u ∷ us)) e
        (inl refl, (refl, all-All u.price us agree))
  | inr differ ↦ absurd (cc (rw differ at h))
]

decide_group-none :
    (r : Option RefReason) (g : List Verdict)
    → first_reason g ≡ r
    → decide_group r (trades_of g) ≡ none
    → All Skipped g
decide_group-none (some x) g e h = absurd (cc)
decide_group-none none g e h =
    trades_of-none g (first_reason-none g e) (settle-none (trades_of g) h)

decide_group-resolved :
    (t : SipTrade) (r : Option RefReason) (g : List Verdict)
    → first_reason g ≡ r
    → decide_group r (trades_of g) ≡ some (resolved_sip t)
    → Decides t g
decide_group-resolved t (some x) g e h = absurd (ground arith)
decide_group-resolved t none g e h =
    let (i, same) = settle-resolved t (trades_of g) h in
    (first_reason-none g e, trades_of-Elem t g i, trades_of-All (λ u. u.price ≡ t.price) g same)

pub decide-FirstDecided :
    (t : SipTrade) (gs : List (List Verdict)) → decide gs ≡ resolved_sip t → FirstDecided t gs
unfolding decide
decide-FirstDecided t [] h = absurd (cc)
decide-FirstDecided t (g ∷ gs) h =
    go (decide_group (first_reason g) (trades_of g)) refl h (decide-FirstDecided t gs)
  where
    go :
        (o : Option Outcome)
        → decide_group (first_reason g) (trades_of g) ≡ o
        → or_else o (decide gs) ≡ resolved_sip t
        → (decide gs ≡ resolved_sip t → FirstDecided t gs)
        → FirstDecided t (g ∷ gs)
    go none e k further = inr (decide_group-none (first_reason g) g refl e, further k)
    go (some o) e k further = inl (decide_group-resolved t (first_reason g) g refl (e ∙ ap some k))
