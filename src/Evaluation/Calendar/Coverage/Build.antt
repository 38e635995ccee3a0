-- ===== src/Evaluation/Calendar/Coverage/Build.antt =====
-- What `build_calendar` guarantees of each session that it exposes.
use asymmetric_committee.Base.{
  and_left, and_right, not-false, some-injective, ℕ, ◌≤◌, ◌<◌, ◌≡◌, refl, ap, sym, subst, ◌∙◌, ◌⊎◌,
  inl, inr, String, Bool, true, false, not, ◌&&◌, Option, none, some, List, [], ◌∷◌, arith, ok, err,
  and_then-ok, leb, ◌==◌, Bool-cases, any, Elem, All, All-Elem, Elem-All, any-Elem, not-any,
  Elem-filter, All-filter, leb→le, ==→eq,
}
use asymmetric_committee.Evaluation.Calendar.{TradingSession, TradingCalendar, lookup}
use asymmetric_committee.Evaluation.Calendar.Coverage.{
  CalendarCoverage, newer, newer_of, effective_for, latest_from, latest, put_newest, by_range,
  dates_from, versions, covers, matches, effective_at, effective, add_entry, build_calendar,
  same_range,
}

-- `t` is no later version than `s`.
abbrev pub NotNewer : TradingSession → TradingSession → Type 0
NotNewer s t =
    (t.available_at < s.available_at)
    ⊎ ((t.available_at ≡ s.available_at) × (t.source_version ≤ s.source_version))

NotNewer-refl : (s : TradingSession) → NotNewer s s
NotNewer-refl s = inr (refl, omega arith)

NotNewer-trans : (a b c : TradingSession) → NotNewer a b → NotNewer b c → NotNewer a c
NotNewer-trans a b c h k = ground arith

newer_of-NotNewer :
    (s best : TradingSession) → NotNewer (newer_of s best) s × NotNewer (newer_of s best) best
unfolding newer_of
newer_of-NotNewer s best = ground arith

newer_of-either : (s best : TradingSession) → (newer_of s best ≡ s) ⊎ (newer_of s best ≡ best)
unfolding newer_of
newer_of-either s best =
    elim (Bool-cases
      (newer s.available_at s.source_version best.available_at best.source_version)) [
        | inl later ↦ rw later (inl refl)
        | inr earlier ↦ rw earlier (inr refl)
      ]

latest_from-NotNewer :
    (best : TradingSession) (ss : List TradingSession)
    → All (NotNewer (latest_from best ss)) (best ∷ ss)
unfolding latest_from
latest_from-NotNewer best [] = (NotNewer-refl best, tt)
latest_from-NotNewer best (s ∷ ss) =
    let (a, b) = latest_from-NotNewer (newer_of s best) ss in
    let (c, d) = newer_of-NotNewer s best in
    let chosen = newer_of s best in
    let last = latest_from chosen ss in
    (NotNewer-trans last chosen best a d, (NotNewer-trans last chosen s a c, b))

latest_from-Elem :
    (best : TradingSession) (ss : List TradingSession) → Elem (latest_from best ss) (best ∷ ss)
unfolding latest_from
latest_from-Elem best [] = inl refl
latest_from-Elem best (s ∷ ss) = elim (latest_from-Elem (newer_of s best) ss) [
  | inr among ↦ inr (inr among)
  | inl same ↦ elim (newer_of-either s best) [
    | inl first ↦ inr (inl (same ∙ first))
    | inr second ↦ inl (same ∙ second)
  ]
]

latest-Elem :
    (ss : List TradingSession) (s : TradingSession)
    → latest ss ≡ some s
    → Elem s ss × All (NotNewer s) ss
unfolding latest
latest-Elem [] s h = absurd (cc)
latest-Elem (x ∷ xs) s h =
    let e : latest_from x xs ≡ s = ground arith in
    subst (λ z. Elem z (x ∷ xs) × All (NotNewer z) (x ∷ xs)) e
      (latest_from-Elem x xs, latest_from-NotNewer x xs)

put_newest-All :
    (P : CalendarCoverage → Type 0) (c : CalendarCoverage) (rows : List CalendarCoverage)
    → P c
    → All P rows
    → All P (put_newest c rows)
unfolding put_newest
put_newest-All P c [] p ps = (p, tt)
put_newest-All P c (k ∷ ks) p ps = elim (Bool-cases (same_range c k)) [
  | inl same ↦
      rw same
        (elim (Bool-cases (newer c.available_at c.source_version k.available_at k.source_version)) [
          | inl later ↦ rw later (p, ps.1)
          | inr earlier ↦ rw earlier ps
        ])
  | inr other ↦ rw other (ps.0, put_newest-All P c ks p ps.1)
]

by_range-All :
    (P : CalendarCoverage → Type 0) (rows cs : List CalendarCoverage)
    → All P rows
    → All P cs
    → All P (by_range rows cs)
unfolding by_range
by_range-All P rows [] ps qs = ps
by_range-All P rows (c ∷ cs) ps qs =
    by_range-All P (put_newest c rows) cs (put_newest-All P c rows qs.0 ps) qs.1

module _ (same_text : String → String → Bool) (calendar_hash : List TradingSession → String) where
  -- The session `s` of the date `d` is the latest version among all, and a coverage row of the
  -- input backs it: the row covers the date, is not older than `s`, and matched its sessions.
  pub record Backed (sessions : List TradingSession) (coverage : List CalendarCoverage) (d : ℕ)
      (s : TradingSession) : Type 0 where
    pub given : Elem s sessions
    pub dated : s.session_date ≡ d
    pub newest : All (λ t. (t.session_date == d) ≡ true → NotNewer s t) sessions
    pub row : CalendarCoverage
    pub row_given : Elem row coverage
    pub row_covers : covers row d ≡ true
    pub row_newer : s.available_at ≤ row.available_at
    pub row_matches : matches same_text calendar_hash sessions (dates_from [] sessions) row ≡ true

  module _ (sessions : List TradingSession) (coverage rows : List CalendarCoverage)
      (from : All (λ c. Elem c coverage) rows)
      (fits : All
        (λ c. not (matches same_text calendar_hash sessions (dates_from [] sessions) c) ≡ false)
        rows) where
    effective_for-Backed :
        (d : ℕ) (newest s : TradingSession)
        → latest (versions sessions d) ≡ some newest
        → effective_for same_text calendar_hash rows d (some newest) ≡ ok (some s)
        → Backed sessions coverage d s
    unfolding effective_for
    effective_for-Backed d newest s e h =
        let p = λ (c : CalendarCoverage). covers c d && leb newest.available_at c.available_at in
        let (backed, same) : (any p rows ≡ true) × (newest ≡ s) = ground arith in
        let (c, c_in, c_fits) = any-Elem p rows backed in
        let (among, latest_one) = latest-Elem (versions sessions d) newest e in
        let (s_in, dated) = Elem-filter (λ t. t.session_date == d) newest sessions among in
        subst (Backed sessions coverage d) same (record {
          given = s_in;
          dated = ==→eq newest.session_date d dated;
          newest = All-filter (λ t. t.session_date == d) (NotNewer newest) sessions latest_one;
          row = c;
          row_given = Elem-All (λ x. Elem x coverage) c rows from c_in;
          row_covers = and_left _ _ c_fits;
          row_newer = leb→le newest.available_at c.available_at (and_right (covers c d) _ c_fits);
          row_matches = not-false _ (
              Elem-All
                (λ x.
                  not (matches same_text calendar_hash sessions (dates_from [] sessions) x) ≡ false)
                c rows fits c_in);
        })

    effective_at-Backed :
        (d : ℕ) (s : TradingSession)
        → effective_at same_text calendar_hash rows sessions d ≡ ok (some s)
        → Backed sessions coverage d s
    unfolding effective_at
    effective_at-Backed d s h = go (latest (versions sessions d)) refl h
      where
        go :
            (o : Option TradingSession)
            → latest (versions sessions d) ≡ o
            → effective_for same_text calendar_hash rows d o ≡ ok (some s)
            → Backed sessions coverage d s
        go none e k = absurd (ground arith)
        go (some newest) e k = effective_for-Backed d newest s e k

    add_entry-Backed :
        (d : ℕ) (o : Option TradingSession) (es : List (ℕ × TradingSession))
        → effective_at same_text calendar_hash rows sessions d ≡ ok o
        → All (λ e. Backed sessions coverage e.0 e.1) es
        → All (λ e. Backed sessions coverage e.0 e.1) (add_entry same_text calendar_hash d o es)
    add_entry-Backed d none es h rest = rest
    add_entry-Backed d (some s) es h rest = (effective_at-Backed d s h, rest)

    effective-Backed :
        (ds : List ℕ) (es : List (ℕ × TradingSession))
        → effective same_text calendar_hash rows sessions ds ≡ ok es
        → All (λ e. Backed sessions coverage e.0 e.1) es
    unfolding effective
    effective-Backed [] es h =
        let e : [] ≡ es = ground arith in subst (All (λ e. Backed sessions coverage e.0 e.1)) e tt
    effective-Backed (d ∷ ds) es h =
        let (o, here, h') = and_then-ok _ _ es h in
        let (rest, others, last) = and_then-ok _ _ es h' in
        let e : add_entry same_text calendar_hash d o rest ≡ es = ground arith in
        subst (All (λ e. Backed sessions coverage e.0 e.1)) e
          (add_entry-Backed d o rest here (effective-Backed ds rest others))

  lookup-All :
      (P : ℕ → TradingSession → Type 0) (d : ℕ) (s : TradingSession)
      (es : List (ℕ × TradingSession))
      → All (λ e. P e.0 e.1) es
      → lookup d es ≡ some s
      → P d s
  lookup-All P d s [] h e = absurd (cc)
  lookup-All P d s ((k, t) ∷ es) h e = elim (Bool-cases (d == k)) [
    | inl here ↦
        subst (λ z. P z s) (sym (==→eq d k here))
          (subst (P k) (some-injective t s (rw here at e)) h.0)
    | inr further ↦ lookup-All P d s es h.1 (rw further at e)
  ]

  -- Each session that a built calendar exposes is the newest version of its date among all that
  -- were given, and a given coverage row backs it: it covers the date, is at least as new as that
  -- version, and its count and hash match the versions that were current when it was written.
  pub build_calendar-Backed :
      (sessions : List TradingSession) (coverage : List CalendarCoverage) (cal : TradingCalendar)
      (d : ℕ) (s : TradingSession)
      → build_calendar same_text calendar_hash sessions coverage ≡ ok cal
      → lookup d cal.sessions ≡ some s
      → Backed sessions coverage d s
  unfolding build_calendar
  build_calendar-Backed sessions coverage cal d s h l =
      let rows = by_range [] coverage in
      let dates = dates_from [] sessions in
      let misfit =
        λ (c : CalendarCoverage). not (matches same_text calendar_hash sessions dates c) in
      elim (Bool-cases (any misfit rows)) [
        | inl bad ↦ absurd (cc (rw bad at h))
        | inr fine ↦
            let (es, built, last) = and_then-ok _ _ cal (rw fine at h) in
            let e : es ≡ cal.sessions = ap (λ r. elim r [ ok c ↦ c.sessions | err _ ↦ es ]) last in
            lookup-All (Backed sessions coverage) d s cal.sessions
              (subst (All (λ e. Backed sessions coverage e.0 e.1)) e (
                effective-Backed sessions coverage rows
                  (by_range-All (λ c. Elem c coverage) [] coverage tt (All-Elem coverage))
                  (not-any misfit rows fine) dates es built))
              l
      ]
