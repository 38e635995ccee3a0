-- ===== src/Execution/Conditions/Combined.antt =====
-- Every condition of a trade must qualify, in whatever order they come.
use asymmetric_committee.Base.{
  ◌≡◌, ◌≢◌, ◌↔◌, refl, ap, ◌∙◌, inl, inr, String, Bool, true, false, Option, none, some, List, [],
  ◌∷◌, Elem, All, arith,
}
use asymmetric_committee.Execution.Conditions.{
  Tape, RefReason, always, never, first_only, note3, tbd, ProviderEntry, eligible, ineligible,
  Meaning, decided, unreadable, meanings, evaluate_from, evaluate_conditions, worse,
  unknown_condition, meaning,
}

evaluate_from-ineligible :
    (ms : List Meaning) (u : Option RefReason) (cond n3 : Bool)
    → ((evaluate_from ms u cond n3).status ≡ ineligible) ↔ Elem (decided never) ms
unfolding evaluate_from
evaluate_from-ineligible [] (some r) cond n3 = (λ h. absurd (cc), λ h. absurd h)
evaluate_from-ineligible [] none true n3 = (λ h. absurd (cc), λ h. absurd h)
evaluate_from-ineligible [] none false n3 = (λ h. absurd (cc), λ h. absurd h)
evaluate_from-ineligible (unreadable r ∷ ms) u cond n3 =
    let (to, from) = evaluate_from-ineligible ms (worse u r) cond n3 in
    (λ h. inr (to h), λ h. elim h [ inl e ↦ absurd (cc) | inr e ↦ from e ])
evaluate_from-ineligible (decided never ∷ ms) u cond n3 = (λ h. inl refl, λ h. refl)
evaluate_from-ineligible (decided first_only ∷ ms) u cond n3 =
    let (to, from) = evaluate_from-ineligible ms u true n3 in
    (λ h. inr (to h), λ h. elim h [ inl e ↦ absurd (cc) | inr e ↦ from e ])
evaluate_from-ineligible (decided note3 ∷ ms) u cond n3 =
    let (to, from) = evaluate_from-ineligible ms u true true in
    (λ h. inr (to h), λ h. elim h [ inl e ↦ absurd (cc) | inr e ↦ from e ])
evaluate_from-ineligible (decided always ∷ ms) u cond n3 =
    let (to, from) = evaluate_from-ineligible ms u cond n3 in
    (λ h. inr (to h), λ h. elim h [ inl e ↦ absurd (cc) | inr e ↦ from e ])
evaluate_from-ineligible (decided tbd ∷ ms) u cond n3 =
    let (to, from) = evaluate_from-ineligible ms (worse u unknown_condition) cond n3 in
    (λ h. inr (to h), λ h. elim h [ inl e ↦ absurd (cc) | inr e ↦ from e ])

worse-some : (u : Option RefReason) (r : RefReason) → worse u r ≢ none
worse-some u r h = ground arith

evaluate_from-eligible :
    (ms : List Meaning) (u : Option RefReason) (cond n3 : Bool)
    → ((evaluate_from ms u cond n3).status ≡ eligible)
      ↔ ((u ≡ none) × (cond ≡ false) × All (λ m. m ≡ decided always) ms)
unfolding evaluate_from
evaluate_from-eligible [] (some r) cond n3 = (λ h. absurd (cc), λ h. absurd (cc (h.0)))
evaluate_from-eligible [] none true n3 = (λ h. absurd (cc), λ h. absurd (cc (h.1)))
evaluate_from-eligible [] none false n3 = (λ h. (refl, refl, tt), λ h. refl)
evaluate_from-eligible (unreadable r ∷ ms) u cond n3 =
    let (to, from) = evaluate_from-eligible ms (worse u r) cond n3 in
    (λ h. absurd (worse-some u r ((to h).0)), λ (a, b, (c, d)). absurd (cc))
evaluate_from-eligible (decided never ∷ ms) u cond n3 =
    (λ h. absurd (cc), λ (a, b, (c, d)). absurd (cc))
evaluate_from-eligible (decided first_only ∷ ms) u cond n3 =
    let (to, from) = evaluate_from-eligible ms u true n3 in
    (λ h. absurd (cc ((to h).1)), λ (a, b, (c, d)). absurd (cc))
evaluate_from-eligible (decided note3 ∷ ms) u cond n3 =
    let (to, from) = evaluate_from-eligible ms u true true in
    (λ h. absurd (cc ((to h).1)), λ (a, b, (c, d)). absurd (cc))
evaluate_from-eligible (decided always ∷ ms) u cond n3 =
    let (to, from) = evaluate_from-eligible ms u cond n3 in
    (λ h. let (a, b, c) = to h in (a, b, (refl, c)), λ (a, b, (c, d)). from (a, b, d))
evaluate_from-eligible (decided tbd ∷ ms) u cond n3 =
    let (to, from) = evaluate_from-eligible ms (worse u unknown_condition) cond n3 in
    (λ h. absurd (worse-some u unknown_condition ((to h).0)), λ (a, b, (c, d)). absurd (cc))

meanings-Elem :
    (pmap : List ProviderEntry) (tape : Tape) (m : Meaning) (cs : List String)
    → Elem m (meanings pmap tape cs) ↔ ((c : String) × Elem c cs × (m ≡ meaning pmap tape c))
unfolding meanings
meanings-Elem pmap tape m [] = (λ h. absurd h, λ h. absurd h.1)
meanings-Elem pmap tape m (c ∷ cs) =
    let (to, from) = meanings-Elem pmap tape m cs in
    (
      λ h. elim h [ inl e ↦ (c, inl refl, e) | inr e ↦ let (d, i, q) = to e in (d, inr i, q) ],
      λ (d, i, q). elim i [
        | inl e ↦ inl (q ∙ ap (meaning pmap tape) e)
        | inr j ↦ inr (from (d, j, q))
      ],
    )

meanings-All :
    (pmap : List ProviderEntry) (tape : Tape) (cs : List String)
    → All (λ m. m ≡ decided always) (meanings pmap tape cs)
      ↔ All (λ c. meaning pmap tape c ≡ decided always) cs
unfolding meanings
meanings-All pmap tape [] = (λ h. tt, λ h. tt)
meanings-All pmap tape (c ∷ cs) =
    let (to, from) = meanings-All pmap tape cs in (λ (h, hs). (h, to hs), λ (h, hs). (h, from hs))

-- A trade is disqualified exactly when one of its codes translates to one that never qualifies,
-- whatever its other codes are. It is eligible exactly when it has a code and each of its codes
-- translates, by a validated entry, to one that always qualifies.
pub evaluate_conditions-verdicts :
    (tape : Tape) (codes : List String) (pmap : List ProviderEntry)
    → let status = (evaluate_conditions tape codes pmap).status in
      ((status ≡ ineligible)
        ↔ ((c : String) × Elem c codes × (decided never ≡ meaning pmap tape c)))
      × ((status ≡ eligible)
          ↔ ((codes ≢ []) × All (λ c. meaning pmap tape c ≡ decided always) codes))
unfolding evaluate_conditions
evaluate_conditions-verdicts tape [] pmap =
    ((λ h. absurd (cc), λ h. absurd h.1), (λ h. absurd (cc), λ h. absurd (h.0 refl)))
evaluate_conditions-verdicts tape (c ∷ cs) pmap =
    let (to, from) = evaluate_from-ineligible (meanings pmap tape (c ∷ cs)) none false false in
    let (to', from') = meanings-Elem pmap tape (decided never) (c ∷ cs) in
    let (up, down) = evaluate_from-eligible (meanings pmap tape (c ∷ cs)) none false false in
    let (up', down') = meanings-All pmap tape (c ∷ cs) in
    (
      (λ h. to' (to h), λ h. from (from' h)),
      (λ h. (λ e. cc e, up' ((up h).2)), λ h. down (refl, refl, down' h.1)),
    )
