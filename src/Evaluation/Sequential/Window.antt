-- ===== src/Evaluation/Sequential/Window.antt =====
-- When the sequential test decides, and that a decision is final.
use asymmetric_committee.Base.{
  ℕ, ◌+◌, ◌≤◌, ◌<◌, ◌≡◌, ◌≢◌, refl, ap, subst, ◌∙◌, true, false, ◌&&◌, Option, none, some, List, [],
  ◌∷◌, ◌++◌, length, arith, Result, ok, err, and_then-ok, IfOk, IfOk-and_then,
}
use asymmetric_committee.Evaluation.Sequential.{
  Floats, SequentialTest, SequentialStatus, running, pass, fail, inconclusive, TerminalReason,
  no_crossing, SequentialError, BettingState, clipped_y, bet, crossed, verdict_at, frozen,
  observe_running, observe, observe_all, fresh_test, min_week, max_week,
}

module _ (F : Floats) where
  -- What holds of every state of the test.
  pub record Sound (s : SequentialTest F) : Type 0 where
    pub open_window : s.status ≡ running → (s.week < max_week) × (s.terminal_week ≡ none)
    pub decided :
        s.status ≢ running
        → (s.terminal_week ≡ some s.week) × (min_week ≤ s.week) × (s.week ≤ max_week)
    pub passed :
        s.status ≡ pass
        → (crossed F s.spy ≡ true) × (crossed F s.quant ≡ true) × (crossed F s.mirror ≡ false)
    pub failed :
        s.status ≡ fail
        → (crossed F s.mirror ≡ true) × (crossed F s.spy && crossed F s.quant ≡ false)
    pub exhausted : s.terminal_reason ≡ some no_crossing → s.week ≡ max_week

  verdict_at-Sound :
      (week : ℕ) (spy quant mirror : BettingState F) (raw : List F.Float)
      → week ≤ max_week
      → Sound (verdict_at F week spy quant mirror raw)
  unfolding verdict_at
  verdict_at-Sound week spy quant mirror raw h = record {
    open_window = ground arith;
    decided = ground arith;
    passed = ground arith;
    failed = ground arith;
    exhausted = ground arith;
  }

  verdict_at-week :
      (week : ℕ) (spy quant mirror : BettingState F) (raw : List F.Float)
      → (verdict_at F week spy quant mirror raw).week ≡ week
  unfolding verdict_at
  verdict_at-week week spy quant mirror raw = ground arith

  ok-injective :
      (s s' : SequentialTest F)
      → let r : Result SequentialError (SequentialTest F) = ok s in r ≡ ok s' → s ≡ s'
  ok-injective s s' h = ap (λ r. elim r [ ok x ↦ x | err _ ↦ s ]) h

  -- One observation of a running test: the next week, and a sound state.
  observe_running-Sound :
      (s s' : SequentialTest F) (a b : F.Float)
      → s.week < max_week
      → observe_running F s a b ≡ ok s'
      → Sound s' × (s'.week ≡ s.week + 1)
  unfolding observe_running
  observe_running-Sound s s' a b h e = subst (IfOk Q) e (
      IfOk-and_then Q (clipped_y F a) _ (λ y _. IfOk-and_then Q (clipped_y F b) _ (λ z _.
        IfOk-and_then Q (bet F s.spy y) _ (λ spy _. IfOk-and_then Q (bet F s.quant z) _ (λ quant _.
          IfOk-and_then Q (bet F s.mirror (F.negate z)) _ (λ mirror _. last spy quant mirror))))))
    where
      Q : SequentialTest F → Type 0
      Q x = Sound x × (x.week ≡ s.week + 1)

      last :
          (spy quant mirror : BettingState F)
          → Q (verdict_at F (s.week + 1) spy quant mirror (s.quant_excess ++ b ∷ []))
      last spy quant mirror = (
        verdict_at-Sound (s.week + 1) spy quant mirror (s.quant_excess ++ b ∷ []) (omega arith),
        verdict_at-week (s.week + 1) spy quant mirror (s.quant_excess ++ b ∷ []),
      )

  frozen-same :
      (s s' : SequentialTest F) (r : Option TerminalReason) → frozen F s r ≡ ok s' → s ≡ s'
  frozen-same s s' (some no_crossing) h = absurd (cc)
  frozen-same s s' (some TerminalReason.both_e_processes) h = ok-injective s s' h
  frozen-same s s' (some TerminalReason.mirrored_e_process) h = ok-injective s s' h
  frozen-same s s' (some TerminalReason.conflicting_evidence) h = ok-injective s s' h
  frozen-same s s' none h = ok-injective s s' h

  -- A test that has decided stays as it is: an observation returns it unchanged or is refused.
  observe-frozen :
      (s s' : SequentialTest F) (a b : F.Float)
      → s.status ≢ running
      → observe F s a b ≡ ok s'
      → s ≡ s'
  unfolding observe
  observe-frozen s s' a b h e = go s.status refl e
    where
      go :
          (st : SequentialStatus)
          → s.status ≡ st
          → (elim st [ running ↦ observe_running F s a b | _ ↦ frozen F s s.terminal_reason ])
            ≡ ok s'
          → s ≡ s'
      go running q k = absurd (h q)
      go pass q k = frozen-same s s' s.terminal_reason k
      go fail q k = frozen-same s s' s.terminal_reason k
      go inconclusive q k = frozen-same s s' s.terminal_reason k

  -- A running test has seen `n` weeks; a sound one.
  abbrev At : ℕ → SequentialTest F → Type 0
  At n s = Sound s × (s.status ≡ running → s.week ≡ n)

  observe-At :
      (n : ℕ) (s s' : SequentialTest F) (a b : F.Float)
      → At n s
      → observe F s a b ≡ ok s'
      → At (n + 1) s'
  unfolding observe
  observe-At n s s' a b (sound, at) e = go s.status refl e
    where
      stay : s.status ≢ running → s ≡ s' → At (n + 1) s'
      stay h q = subst (At (n + 1)) q (sound, λ r. absurd (h r))

      go :
          (st : SequentialStatus)
          → s.status ≡ st
          → (elim st [ running ↦ observe_running F s a b | _ ↦ frozen F s s.terminal_reason ])
            ≡ ok s'
          → At (n + 1) s'
      go running q k =
          let (sound', next) = observe_running-Sound s s' a b ((sound.open_window q).0) k in
          (sound', λ _. next ∙ ap (λ m. m + 1) (at q))
      go pass q k = stay (λ r. cc) (frozen-same s s' s.terminal_reason k)
      go fail q k = stay (λ r. cc) (frozen-same s s' s.terminal_reason k)
      go inconclusive q k = stay (λ r. cc) (frozen-same s s' s.terminal_reason k)

  observe_all-At :
      (n : ℕ) (s s' : SequentialTest F) (xs : List (F.Float × F.Float))
      → At n s
      → observe_all F s xs ≡ ok s'
      → At (n + length xs) s'
  unfolding observe_all
  observe_all-At n s s' [] h e =
      subst (At (n + 0)) (ok-injective s s' e) (h.0, λ r. omega (arith, h.1 r))
  observe_all-At n s s' ((a, b) ∷ xs) h e =
      let (s₁, e₁, e₂) = and_then-ok _ _ s' e in
      let (sound, at) = observe_all-At (n + 1) s₁ s' xs (observe-At n s s₁ a b h e₁) e₂ in
      (sound, λ r. omega (arith, at r))

  fresh-Sound : Sound (fresh_test F)
  fresh-Sound = record {
    open_window = λ h. (omega arith, refl);
    decided = λ h. absurd (h refl);
    passed = λ h. absurd (cc);
    failed = λ h. absurd (cc);
    exhausted = λ h. absurd (cc);
  }

  -- After observations that were all accepted the test is sound: it decides only in the weeks 26 to
  -- 104, on the evidence of that week, and a test that still runs has seen fewer than 104.
  pub observe_all-Sound :
      (s : SequentialTest F) (xs : List (F.Float × F.Float))
      → observe_all F (fresh_test F) xs ≡ ok s
      → Sound s × (s.status ≡ running → (s.week ≡ length xs) × (length xs < max_week))
  observe_all-Sound s xs e =
      let (sound, at) = observe_all-At 0 (fresh_test F) s xs (fresh-Sound, λ _. refl) e in
      (sound, λ r. (omega (arith, at r), omega (arith, at r, sound.open_window r)))

  -- A decision is final: observations after it that are accepted leave the test as it was.
  pub observe_all-frozen :
      (s s' : SequentialTest F) (xs : List (F.Float × F.Float))
      → s.status ≢ running
      → observe_all F s xs ≡ ok s'
      → s ≡ s'
  unfolding observe_all
  observe_all-frozen s s' [] h e = ok-injective s s' e
  observe_all-frozen s s' ((a, b) ∷ xs) h e =
      let (s₁, e₁, e₂) = and_then-ok _ _ s' e in
      let q = observe-frozen s s₁ a b h e₁ in
      q ∙ observe_all-frozen s₁ s' xs (subst (λ x. x.status ≢ running) q h) e₂
