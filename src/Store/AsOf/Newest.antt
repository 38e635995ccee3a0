-- ===== src/Store/AsOf/Newest.antt =====
-- `_latest` answers for each key the newest version that is known, and one row.
use asymmetric_committee.Base.{
  ℕ, ◌≡◌, ◌≤◌, ◌<◌, ◌⊎◌, ◌≢◌, refl, ap, sym, subst, ◌∙◌, Bool, true, false, List, [], ◌∷◌, leb,
  arith, leb→le, le→leb, All-Elem, Elem, Elem-All, Elem-filter, filter-Elem, Bool-cases, inl, inr,
  InOrder, sort_by, sort_by-InOrder, sort_by-All, Elem-sort_by, filter,
}
use asymmetric_committee.Store.AsOf.{
  Facts, known, latest_versions, lex_leq, same_key, newest_first, distinct_on, distinct_after,
}

lex_leq-total : (xs ys : List ℕ) → lex_leq xs ys ≡ false → lex_leq ys xs ≡ true
lex_leq-total [] ys h = absurd (cc)
lex_leq-total (x ∷ xs) [] h = refl
lex_leq-total (x ∷ xs) (y ∷ ys) h = ground (arith, h, lex_leq-total xs ys)

lex_leq_trans :
    (xs ys zs : List ℕ) → lex_leq xs ys ≡ true → lex_leq ys zs ≡ true → lex_leq xs zs ≡ true
lex_leq_trans [] ys zs h k = refl
lex_leq_trans (x ∷ xs) [] zs h k = absurd (cc)
lex_leq_trans (x ∷ xs) (y ∷ ys) [] h k = absurd (cc)
lex_leq_trans (x ∷ xs) (y ∷ ys) (z ∷ zs) h k = ground (arith, h, k, lex_leq_trans xs ys zs)

lex_leq-antisym : (xs ys : List ℕ) → lex_leq xs ys ≡ true → lex_leq ys xs ≡ true → xs ≡ ys
lex_leq-antisym [] [] h k = refl
lex_leq-antisym [] (y ∷ ys) h k = absurd (cc)
lex_leq-antisym (x ∷ xs) [] h k = absurd (cc)
lex_leq-antisym (x ∷ xs) (y ∷ ys) h k = ground (arith, h, k, lex_leq-antisym xs ys)

lex_leq_self : (xs : List ℕ) → lex_leq xs xs ≡ true
lex_leq_self [] = refl
lex_leq_self (x ∷ xs) = ground (arith, lex_leq_self xs)

module _ {Row : Type 0} (facts : Facts Row) where
  same_key→eq : (a b : Row) → same_key facts a b ≡ true → facts.key a ≡ facts.key b
  same_key→eq a b h = lex_leq-antisym (facts.key a) (facts.key b) (ground arith) (ground arith)

  eq→same_key : (a b : Row) → facts.key a ≡ facts.key b → same_key facts a b ≡ true
  eq→same_key a b h = rw (h, lex_leq_self (facts.key b)) refl

  newest_first-total : (a b : Row) → newest_first facts a b ≡ false → newest_first facts b a ≡ true
  newest_first-total a b h = ground (arith, h, lex_leq-total (facts.key a) (facts.key b))

  newest_first_trans :
      (a b c : Row)
      → newest_first facts a b ≡ true
      → newest_first facts b c ≡ true
      → newest_first facts a c ≡ true
  newest_first_trans a b c h k = ground (
    arith,
    h,
    k,
    lex_leq_trans (facts.key a) (facts.key b) (facts.key c),
    lex_leq_trans (facts.key b) (facts.key c) (facts.key a),
    lex_leq_trans (facts.key c) (facts.key a) (facts.key b),
    lex_leq_trans (facts.key c) (facts.key b) (facts.key a),
    lex_leq_trans (facts.key b) (facts.key a) (facts.key c),
  )

  newest_first_self : (a : Row) → newest_first facts a a ≡ true
  newest_first_self a = ground (arith, newest_first-total a a)

  -- between rows of two keys that stand in order there is no row of the first key
  newest_first-gap :
      (p x r : Row)
      → newest_first facts p x ≡ true
      → newest_first facts x r ≡ true
      → same_key facts p x ≡ false
      → same_key facts p r ≡ false
  newest_first-gap p x r h k apart = ground (
    arith,
    h,
    k,
    apart,
    lex_leq_trans (facts.key x) (facts.key r) (facts.key p),
    lex_leq_trans (facts.key p) (facts.key x) (facts.key r),
  )

  same_key_trans :
      (p x r : Row)
      → same_key facts p x ≡ true
      → facts.key x ≡ facts.key r
      → same_key facts p r ≡ true
  same_key_trans p x r h k = eq→same_key p r (same_key→eq p x h ∙ k)

  -- a row that stands for its key among the rows after `p`
  abbrev Chosen : Row → List Row → Row → Type 0
  Chosen p xs r =
      Elem r xs
      × (same_key facts p r ≡ false)
      × ((q : Row) → Elem q xs → facts.key q ≡ facts.key r → newest_first facts r q ≡ true)

  distinct_after-Chosen :
      (p : Row) (xs : List Row)
      → InOrder (newest_first facts) (p ∷ xs)
      → (r : Row) → Elem r (distinct_after facts p xs)
      → Chosen p xs r
  distinct_after-Chosen p [] o r e = absurd e
  distinct_after-Chosen p (x ∷ xs) ((px, ps), (xs_after, o)) r e =
      elim (Bool-cases (same_key facts p x)) as (λ _. Chosen p (x ∷ xs) r) [
        | inl same ↦
            let (m, apart, newest) = distinct_after-Chosen p xs (ps, o) r (rw same at e) in
            (
              inr m,
              apart,
              λ q c k. elim c [
                | inl s ↦ absurd (cc (apart, same_key_trans p x r same (ap facts.key (sym s) ∙ k)))
                | inr c' ↦ newest q c' k
              ],
            )
        | inr differ ↦ elim (rw differ at e) as (λ _. Chosen p (x ∷ xs) r) [
          | inl s ↦ subst (Chosen p (x ∷ xs)) (sym s) (
            inl refl,
            differ,
            λ q c k. elim c [
              | inl u ↦ subst (λ z. newest_first facts x z ≡ true) (sym u) (newest_first_self x)
              | inr c' ↦ Elem-All (λ z. newest_first facts x z ≡ true) q xs xs_after c'
            ],
          )
          | inr e' ↦
              let (m, apart, newest) = distinct_after-Chosen x xs (xs_after, o) r e' in
              (
                inr m,
                newest_first-gap p x r px (Elem-All _ r xs xs_after m) differ,
                λ q c k. elim c [
                  | inl s ↦ absurd (cc (apart, eq→same_key x r (ap facts.key (sym s) ∙ k)))
                  | inr c' ↦ newest q c' k
                ],
              )
        ]
      ]

  distinct_after-covers :
      (p : Row) (xs : List Row) (q : Row)
      → Elem q xs
      → (same_key facts p q ≡ true)
        ⊎ ((r : Row) × Elem r (distinct_after facts p xs) × (facts.key r ≡ facts.key q))
  distinct_after-covers p [] q e = absurd e
  distinct_after-covers p (x ∷ xs) q e = elim (Bool-cases (same_key facts p x)) [
    | inl same ↦ elim e [
      | inl s ↦ inl (subst (λ z. same_key facts p z ≡ true) (sym s) same)
      | inr e' ↦ rw same (distinct_after-covers p xs q e')
    ]
    | inr differ ↦ elim e [
      | inl s ↦ inr (x, rw differ (inl refl), ap facts.key (sym s))
      | inr e' ↦ elim (distinct_after-covers x xs q e') [
        | inl k ↦ inr (x, rw differ (inl refl), same_key→eq x q k)
        | inr (r, m, k) ↦ inr (r, rw differ (inr m), k)
      ]
    ]
  ]

  -- No two rows of a list have one key.
  abbrev pub OneRowPerKey : List Row → Type 0
  OneRowPerKey [] = Unit
  OneRowPerKey (x ∷ xs) = ((r : Row) → Elem r xs → facts.key x ≢ facts.key r) × OneRowPerKey xs

  distinct_after-OneRowPerKey :
      (p : Row) (xs : List Row)
      → InOrder (newest_first facts) (p ∷ xs)
      → OneRowPerKey (distinct_after facts p xs)
  distinct_after-OneRowPerKey p [] o = tt
  distinct_after-OneRowPerKey p (x ∷ xs) ((px, ps), (xs_after, o)) =
      elim (Bool-cases (same_key facts p x)) [
        | inl same ↦ rw same (distinct_after-OneRowPerKey p xs (ps, o))
        | inr differ ↦ rw differ (
          (λ r e k.
              let (m, apart, newest) = distinct_after-Chosen x xs (xs_after, o) r e in
              absurd (cc (apart, eq→same_key x r k))),
          distinct_after-OneRowPerKey x xs (xs_after, o),
        )
      ]

  distinct_on-OneRowPerKey :
      (xs : List Row) → InOrder (newest_first facts) xs → OneRowPerKey (distinct_on facts xs)
  distinct_on-OneRowPerKey [] o = tt
  distinct_on-OneRowPerKey (x ∷ xs) o = (
    λ r e k.
        let (m, apart, newest) = distinct_after-Chosen x xs o r e in
        absurd (cc (apart, eq→same_key x r k)),
    distinct_after-OneRowPerKey x xs o,
  )

  abbrev First : List Row → Row → Type 0
  First xs r =
      Elem r xs
      × ((q : Row) → Elem q xs → facts.key q ≡ facts.key r → newest_first facts r q ≡ true)

  distinct_on-First :
      (xs : List Row)
      → InOrder (newest_first facts) xs
      → (r : Row) → Elem r (distinct_on facts xs)
      → First xs r
  distinct_on-First [] o r e = absurd e
  distinct_on-First (x ∷ xs) o r (inl s) = subst (First (x ∷ xs)) (sym s) (
    inl refl,
    λ q c k. elim c [
      | inl u ↦ subst (λ z. newest_first facts x z ≡ true) (sym u) (newest_first_self x)
      | inr c' ↦ Elem-All (λ z. newest_first facts x z ≡ true) q xs o.0 c'
    ],
  )
  distinct_on-First (x ∷ xs) o r (inr e) =
      let (m, apart, newest) = distinct_after-Chosen x xs o r e in
      (
        inr m,
        λ q c k. elim c [
          | inl s ↦ absurd (cc (apart, eq→same_key x r (ap facts.key (sym s) ∙ k)))
          | inr c' ↦ newest q c' k
        ],
      )

  distinct_on-covers :
      (xs : List Row) (q : Row)
      → Elem q xs
      → (r : Row) × Elem r (distinct_on facts xs) × (facts.key r ≡ facts.key q)
  distinct_on-covers [] q e = absurd e
  distinct_on-covers (x ∷ xs) q (inl s) = (x, inl refl, ap facts.key (sym s))
  distinct_on-covers (x ∷ xs) q (inr e) = elim (distinct_after-covers x xs q e) [
    | inl k ↦ (x, inl refl, same_key→eq x q k)
    | inr (r, m, k) ↦ (r, inr m, k)
  ]

  -- The row can be selected at the instant.
  abbrev pub Selectable : ℕ → (Row → Bool) → List Row → Row → Type 0
  Selectable now where_ table r = Elem r table × (facts.available_at r ≤ now) × (where_ r ≡ true)

  abbrev pub AtMostAsNew : Row → Row → Type 0
  AtMostAsNew q r =
      (facts.available_at q < facts.available_at r)
      ⊎ ((facts.available_at q ≡ facts.available_at r)
          × (facts.source_version q ≤ facts.source_version r))

  Selectable-rows :
      (now : ℕ) (where_ : Row → Bool) (table : List Row) (r : Row)
      → Elem r (filter where_ (known facts now table))
      → Selectable now where_ table r
  Selectable-rows now where_ table r e =
      let (k, w) = Elem-filter where_ r (known facts now table) e in
      let (m, a) = Elem-filter (λ x. leb (facts.available_at x) now) r table k in
      (m, leb→le _ _ a, w)

  not_older→AtMostAsNew :
      (r q : Row) → facts.key q ≡ facts.key r → newest_first facts r q ≡ true → AtMostAsNew q r
  not_older→AtMostAsNew r q k h = ground (arith, h, eq→same_key r q (sym k))

  -- What `_latest` selects, at an instant and under a condition, has for each key one row at most;
  -- each of its rows is in the table, known by the instant and under the condition, and of all such
  -- rows of its key the one with the greatest instant and version; and each such row has its key in
  -- the selection.
  pub latest_versions-Newest :
      (now : ℕ) (where_ : Row → Bool) (table : List Row)
      → OneRowPerKey (latest_versions facts now where_ table)
        × ((r : Row)
            → Elem r (latest_versions facts now where_ table)
            → Selectable now where_ table r
              × ((q : Row)
                  → Selectable now where_ table q
                  → facts.key q ≡ facts.key r
                  → AtMostAsNew q r))
        × ((q : Row)
            → Selectable now where_ table q
            → (r : Row) × Elem r (latest_versions facts now where_ table)
              × (facts.key r ≡ facts.key q))
  unfolding latest_versions
  latest_versions-Newest now where_ table = (
    distinct_on-OneRowPerKey rows ordered,
    λ r e.
        let (m, newest) = distinct_on-First rows ordered r e in
        (
          Selectable-rows now where_ table r (selected r m),
          λ q s k. not_older→AtMostAsNew r q k (newest q (listed q s) k),
        ),
    λ q s. distinct_on-covers rows q (listed q s),
  )
    where
      rows : List Row
      rows = sort_by (newest_first facts) (filter where_ (known facts now table))

      ordered : InOrder (newest_first facts) rows
      ordered =
          sort_by-InOrder (newest_first facts) newest_first-total newest_first_trans
            (filter where_ (known facts now table))

      selected : (r : Row) → Elem r rows → Elem r (filter where_ (known facts now table))
      selected r e =
          Elem-All _ r rows
            (sort_by-All (newest_first facts) _ (filter where_ (known facts now table))
              (All-Elem (filter where_ (known facts now table))))
            e

      listed : (q : Row) → Selectable now where_ table q → Elem q rows
      listed q (m, a, w) =
          Elem-sort_by (newest_first facts) q (filter where_ (known facts now table)) (
            filter-Elem where_ q (known facts now table)
              (filter-Elem (λ x. leb (facts.available_at x) now) q table m (le→leb _ _ a)) w)
