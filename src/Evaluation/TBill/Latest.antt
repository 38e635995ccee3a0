-- ===== src/Evaluation/TBill/Latest.antt =====
-- The dictionary of `select_rate`: for each observation date the latest vintage.
use asymmetric_committee.Base.{
  some-injective, eq_or_lt, ℕ, ◌≤◌, ◌<◌, ◌≡◌, refl, ap, sym, subst, ◌∙◌, ◌⊎◌, inl, inr, Option,
  none, some, List, [], ◌∷◌, arith, if◌then◌else◌, ltb, ◌==◌, Bool-cases, ==→eq, eq→==, All,
}
use asymmetric_committee.Base.Int.{ℤ}
use asymmetric_committee.Evaluation.Calendar.{lookup}
use asymmetric_committee.Evaluation.TBill.{
  TBillObservation, rate, put_rate, rate_of, max_key, choose,
}

-- `r` is of a later observation than `t`, or of the same in no earlier vintage.
abbrev pub IsLater : TBillObservation → TBillObservation → Type 0
IsLater r t =
    (t.observation_date < r.observation_date)
    ⊎ ((t.observation_date ≡ r.observation_date) × (t.vintage_date ≤ r.vintage_date))

-- The entry has the property `P` and stands under its own date.
abbrev pub Entry : (TBillObservation → Type 0) → ℕ × TBillObservation → Type 0
Entry P (k, c) = P c × (c.observation_date ≡ k)

-- The entry for the row's date is of its vintage or a later one.
abbrev pub Dominated : List (ℕ × TBillObservation) → TBillObservation → Type 0
Dominated es t =
    (c : TBillObservation) × (lookup t.observation_date es ≡ some c)
    × (t.vintage_date ≤ c.vintage_date)

lookup-Entry :
    (P : TBillObservation → Type 0) (o : ℕ) (c : TBillObservation)
    (es : List (ℕ × TBillObservation))
    → All (Entry P) es
    → lookup o es ≡ some c
    → P c × (c.observation_date ≡ o)
lookup-Entry P o c [] h e = absurd (cc)
lookup-Entry P o c ((k, kept) ∷ es) (here, further) e = elim (Bool-cases (o == k)) [
  | inl same ↦
      let s : kept ≡ c = some-injective kept c (rw same at e) in
      subst (λ z. P z × (z.observation_date ≡ o)) s (here.0, here.1 ∙ sym (==→eq o k same))
  | inr other ↦ lookup-Entry P o c es further (rw other at e)
]

pub put_rate-Entry :
    (P : TBillObservation → Type 0) (r : TBillObservation) (es : List (ℕ × TBillObservation))
    → P r
    → All (Entry P) es
    → All (Entry P) (put_rate r es)
unfolding put_rate
put_rate-Entry P r [] p h = ((p, refl), tt)
put_rate-Entry P r ((k, kept) ∷ es) p (here, further) =
    elim (Bool-cases (r.observation_date == k)) [
      | inl same ↦ rw same (elim (Bool-cases (ltb kept.vintage_date r.vintage_date)) [
        | inl later ↦ rw later ((p, ==→eq r.observation_date k same), further)
        | inr earlier ↦ rw earlier (here, further)
      ])
      | inr other ↦ rw other (here, put_rate-Entry P r es p further)
    ]

pub put_rate-Dominated-new :
    (r : TBillObservation) (es : List (ℕ × TBillObservation)) → Dominated (put_rate r es) r
unfolding put_rate
put_rate-Dominated-new r [] =
    (r, rw (eq→== r.observation_date r.observation_date refl) refl, omega arith)
put_rate-Dominated-new r ((k, kept) ∷ es) = elim (Bool-cases (r.observation_date == k)) [
  | inl same ↦ elim (Bool-cases (ltb kept.vintage_date r.vintage_date)) [
    | inl later ↦ (r, rw same (rw (same, later) refl), omega arith)
    | inr earlier ↦ (kept, rw same (rw (same, earlier) refl), ground arith)
  ]
  | inr other ↦
      let (c, found, le) = put_rate-Dominated-new r es in (c, rw other (rw other found), le)
]

pub put_rate-Dominated :
    (r t : TBillObservation) (es : List (ℕ × TBillObservation))
    → Dominated es t
    → Dominated (put_rate r es) t
unfolding put_rate
put_rate-Dominated r t [] (c, found, le) = absurd (cc)
put_rate-Dominated r t ((k, kept) ∷ es) (c, found, le) =
    elim (Bool-cases (r.observation_date == k)) [
      | inl same ↦ elim (Bool-cases (t.observation_date == k)) [
        | inl here ↦
            let e : kept ≡ c = some-injective kept c (rw here at found) in
            elim (Bool-cases (ltb kept.vintage_date r.vintage_date)) [
              | inl later ↦ (r, rw same (rw (here, later) refl), grind (arith, e, later))
              | inr earlier ↦ (kept, rw same (rw (here, earlier) refl), grind (arith, e))
            ]
        | inr further ↦ (c, rw same (rw further (rw further at found)), le)
      ]
      | inr other ↦ elim (Bool-cases (t.observation_date == k)) [
        | inl here ↦ (c, rw other (rw here (rw here at found)), le)
        | inr further ↦
            let (d, found', le') = put_rate-Dominated r t es (c, rw further at found, le) in
            (d, rw other (rw further found'), le')
      ]
    ]

max_key-ge : (best : ℕ) (es : List (ℕ × TBillObservation)) → best ≤ max_key best es
unfolding max_key
max_key-ge best [] = omega arith
max_key-ge best ((k, r) ∷ es) = ground (arith, max_key-ge k es, max_key-ge best es)

lookup-le-max_key :
    (o best : ℕ) (c : TBillObservation) (es : List (ℕ × TBillObservation))
    → lookup o es ≡ some c
    → o ≤ max_key best es
unfolding max_key
lookup-le-max_key o best c [] h = absurd (cc)
lookup-le-max_key o best c ((k, r) ∷ es) h = elim (Bool-cases (o == k)) [
  | inl same ↦ ground (arith, max_key-ge k es, max_key-ge best es, ==→eq o k same)
  | inr other ↦ lookup-le-max_key o (if ltb best k then k else best) c es (rw other at h)
]

first-le :
    (k o : ℕ) (c kept : TBillObservation) (es : List (ℕ × TBillObservation))
    → lookup o ((k, kept) ∷ es) ≡ some c
    → o ≤ max_key k es
first-le k o c kept es h = elim (Bool-cases (o == k)) [
  | inl same ↦ omega (arith, max_key-ge k es, ==→eq o k same)
  | inr other ↦ lookup-le-max_key o k c es (rw other at h)
]

pub choose-greatest :
    (P : TBillObservation → Type 0) (es : List (ℕ × TBillObservation)) (o v : ℕ) (y : ℤ)
    → All (Entry P) es
    → choose es ≡ rate o v y
    → (r : TBillObservation) × P r
      × (rate o v y ≡ rate r.observation_date r.vintage_date r.yield_pct)
      × ((t : TBillObservation) → Dominated es t → IsLater r t)
unfolding choose
choose-greatest P [] o v y h e = absurd (cc)
choose-greatest P ((k, kept) ∷ es) o v y h e = go (lookup (max_key k es) ((k, kept) ∷ es)) refl e
  where
    go :
        (found : Option TBillObservation)
        → lookup (max_key k es) ((k, kept) ∷ es) ≡ found
        → rate_of found ≡ rate o v y
        → (r : TBillObservation) × P r
          × (rate o v y ≡ rate r.observation_date r.vintage_date r.yield_pct)
          × ((t : TBillObservation) → Dominated ((k, kept) ∷ es) t → IsLater r t)
    go none f q = absurd (cc)
    go (some r) f q =
        let (p, dated) = lookup-Entry P (max_key k es) r ((k, kept) ∷ es) h f in
        (r, p, sym q, λ t (c, found, le). later t c found le dated)
      where
        later :
            (t c : TBillObservation)
            → lookup t.observation_date ((k, kept) ∷ es) ≡ some c
            → t.vintage_date ≤ c.vintage_date
            → r.observation_date ≡ max_key k es
            → IsLater r t
        later t c found le dated =
            elim (eq_or_lt t.observation_date (max_key k es)
              (first-le k (t.observation_date) c kept es found)) [
                | inr less ↦ inl (omega (arith, dated))
                | inl same ↦
                    let e : c ≡ r =
                      some-injective c r
                        (sym found ∙ ap (λ z. lookup z ((k, kept) ∷ es)) same ∙ f) in
                    inr (same ∙ sym dated, subst (λ z. t.vintage_date ≤ z.vintage_date) e le)
              ]
