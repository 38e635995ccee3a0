-- ===== src/Execution/Reference/Tests.antt =====
-- A short session of trades, and instances of the theorems on references.
use asymmetric_committee.Base.{
  ℕ, ◌≤◌, ◌≡◌, ◌≢◌, ◌↔◌, refl, String, Bool, true, ◌&&◌, none, List, [], ◌∷◌, leb, filter, Elem,
  All,
}
use asymmetric_committee.Evaluation.Calendar.{TradingSession}
use asymmetric_committee.Execution.Conditions.{
  Tape, tape_c, tape_a, ProviderEntry, evaluate_conditions, evaluate_from, meanings, meaning,
  translate, spec_table, cts_last, utp_last, eligible, ineligible, never, always, decided,
}
use asymmetric_committee.Execution.Conditions.Combined.{evaluate_conditions-verdicts}
use asymmetric_committee.Execution.Reference.{
  SipTrade, resolved_sip, Verdict, qualifies, sequence_verdicts, sequence_from, judge_group, decide,
  resolve_backtest,
}
use asymmetric_committee.Execution.Reference.Backtest.{Agrees, resolve_backtest-decided}

abbrev entry : Tape → String → Bool → ProviderEntry
entry tape code validated = record {
  tape = tape;
  provider_code = code;
  spec_code = code;
  validated = validated;
}

abbrev pmap : List ProviderEntry
pmap =
    entry tape_c "@" true
    ∷ entry tape_c "I" true
    ∷ entry tape_c "Z" true
    ∷ entry tape_a "B" true
    ∷ []

abbrev trade : ℕ → ℕ → List String → SipTrade
trade time price conditions = record {
  symbol = "ACME";
  time = time;
  price = price;
  tape = tape_c;
  conditions = conditions;
  trade_id = none;
}

abbrev regular : SipTrade
regular = trade 20 1000000 ("@" ∷ [])

-- The odd lot after the regular trade, and the trade after the reference time, do not count.
abbrev trades : List SipTrade
trades =
    trade 25 990000 ("@" ∷ "I" ∷ [])
    ∷ trade 40 1100000 ("@" ∷ [])
    ∷ regular
    ∷ trade 15 980000 ("Z" ∷ [])
    ∷ []

abbrev session : TradingSession
session = record {
  session_date = 1;
  open_at = 10;
  close_at = 90;
  available_at = 1;
  source_version = 1;
}

picks_regular : (resolve_backtest "ACME" trades session 30 pmap).outcome ≡ resolved_sip regular
unfolding resolve_backtest sequence_verdicts sequence_from judge_group decide evaluate_conditions
    evaluate_from meanings meaning translate spec_table cts_last utp_last
picks_regular = refl

resolve_backtest-decided_example :
    let vs : List Verdict =
      sequence_verdicts pmap (filter (λ u. leb 10 u.time && leb u.time 30) trades) in
    Elem regular trades
    × (10 ≤ 20)
    × (20 ≤ 30)
    × ((v : Verdict) × Elem v vs × (v.kind ≡ qualifies) × (v.trade ≡ regular))
    × All (Agrees regular) vs
    × ((u : SipTrade)
        → Elem u trades
        → 10 ≤ u.time
        → u.time ≤ 30
        → (w : Verdict) × Elem w vs × (w.trade ≡ u))
resolve_backtest-decided_example =
    resolve_backtest-decided "ACME" trades session 30 pmap regular picks_regular

evaluate_conditions-verdicts_example :
    let codes : List String = "@" ∷ "I" ∷ [] in
    (((evaluate_conditions tape_c codes pmap).status ≡ ineligible)
      ↔ ((c : String) × Elem c codes × (decided never ≡ meaning pmap tape_c c)))
    × (((evaluate_conditions tape_c codes pmap).status ≡ eligible)
        ↔ ((codes ≢ []) × All (λ c. meaning pmap tape_c c ≡ decided always) codes))
evaluate_conditions-verdicts_example = evaluate_conditions-verdicts tape_c ("@" ∷ "I" ∷ []) pmap
