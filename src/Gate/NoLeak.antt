-- ===== src/Gate/NoLeak.antt =====
-- No example of a training set has a label that ends at or after the instant of the run.
use asymmetric_committee.Base.{
  ℕ, ◌≡◌, ◌<◌, inl, inr, refl, sym, subst, true, some, List, [], ◌∷◌, Elem, ltb, ltb→lt, Bool-cases,
  Option-cases, ◌∙◌, some-injective,
}
use asymmetric_committee.Gate.{
  Row, GateLabel, TrainingExample, keyed, row_of, example_of, eligible_training_set,
}

row_of-Elem :
    (l : GateLabel) (rows : List Row) (r : Row)
    → row_of l rows ≡ some r
    → Elem r rows × (keyed l r ≡ true)
row_of-Elem l [] r h = absurd (cc)
row_of-Elem l (x ∷ rows) r h = elim (Option-cases (row_of l rows)) [
  | inr (last, e) ↦ let (m, k) = row_of-Elem l rows r (e ∙ (rw e at h)) in (inr m, k)
  | inl e ↦ elim (Bool-cases (keyed l x)) [
    | inl k ↦
        let s : x ≡ r = some-injective x r (rw (e, k) at h) in
        (inl (sym s), subst (λ z. keyed l z ≡ true) s k)
    | inr k ↦ absurd (cc (rw (e, k) at h))
  ]
]

-- Where an example comes from, and that its label had ended
abbrev pub Eligible : List Row → List GateLabel → ℕ → TrainingExample → Type 0
Eligible features labels as_of x =
    (l : GateLabel) × (r : Row) × Elem l labels
    × Elem r features
    × (keyed l r ≡ true)
    × (l.label_end < as_of)
    × (x ≡ example_of l r)

Eligible-cons :
    (features : List Row) (l : GateLabel) (ls : List GateLabel) (as_of : ℕ) (x : TrainingExample)
    → Eligible features ls as_of x
    → Eligible features (l ∷ ls) as_of x
Eligible-cons features l ls as_of x (k, r, m, n, q, early, s) = (k, r, inr m, n, q, early, s)

-- Each example of a training set joins a given label to a given row of its security and instant, and
-- the label had ended before the instant of the run.
pub eligible_training_set-Eligible :
    (features : List Row) (labels : List GateLabel) (as_of : ℕ) (x : TrainingExample)
    → Elem x (eligible_training_set features labels as_of)
    → Eligible features labels as_of x
unfolding eligible_training_set
eligible_training_set-Eligible features [] as_of x e = absurd e
eligible_training_set-Eligible features (l ∷ ls) as_of x e =
    elim (Bool-cases (ltb l.label_end as_of)) [
      | inr late ↦
          Eligible-cons features l ls as_of x
            (eligible_training_set-Eligible features ls as_of x (rw late at e))
      | inl early ↦ elim (Option-cases (row_of l features)) [
        | inl missing ↦
            Eligible-cons features l ls as_of x
              (eligible_training_set-Eligible features ls as_of x (rw (early, missing) at e))
        | inr (r, found) ↦
            elim (rw (early, found) at e) as (λ _. Eligible features (l ∷ ls) as_of x) [
              | inl s ↦
                  let (m, k) = row_of-Elem l features r found in
                  (l, r, inl refl, m, k, ltb→lt _ _ early, s)
              | inr e' ↦
                  Eligible-cons features l ls as_of x
                    (eligible_training_set-Eligible features ls as_of x e')
            ]
      ]
    ]
