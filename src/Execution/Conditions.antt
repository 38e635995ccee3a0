-- ===== src/Execution/Conditions.antt =====
-- execution/trade_conditions.py: which trades may set the consolidated last sale price.
pub mod Combined
use asymmetric_committee.Base.{
  String, Bool, true, false, ◌||◌, ◌&&◌, Option, none, some, List, [], ◌∷◌, if◌then◌else◌,
  same_text,
}

-- `Tape`
pub data Tape : Type 0 where
  tape_a tape_b tape_c : Tape

-- `RefReason`
pub data RefReason : Type 0 where
  no_reference_price no_eligible_trade unknown_condition provider_mapping_unvalidated
        sip_entitlement :
      RefReason
  incomplete_trades calendar_uncovered ambiguous_order : RefReason

-- `ConditionEligibility`
pub data ConditionEligibility : Type 0 where
  eligible ineligible conditional unknown : ConditionEligibility

-- `Effect`
pub data Effect : Type 0 where
  always never first_only note3 tbd : Effect

-- `CTS_LAST`, for the tapes A and B
unfoldable pub cts_last : List (String × Effect)
cts_last =
    (" ", always)
    ∷ ("B", never)
    ∷ ("C", never)
    ∷ ("E", always)
    ∷ ("F", always)
    ∷ ("H", never)
    ∷ ("I", never)
    ∷ ("K", always)
    ∷ ("L", note3)
    ∷ ("M", never)
    ∷ ("N", never)
    ∷ ("O", always)
    ∷ ("P", first_only)
    ∷ ("Q", never)
    ∷ ("R", never)
    ∷ ("T", never)
    ∷ ("U", never)
    ∷ ("V", never)
    ∷ ("X", always)
    ∷ ("Z", first_only)
    ∷ ("4", first_only)
    ∷ ("5", always)
    ∷ ("6", always)
    ∷ ("7", never)
    ∷ ("8", never)
    ∷ ("9", always)
    ∷ []

-- `UTP_LAST`, for tape C
unfoldable pub utp_last : List (String × Effect)
utp_last =
    ("@", always)
    ∷ ("A", always)
    ∷ ("B", always)
    ∷ ("C", never)
    ∷ ("D", always)
    ∷ ("E", tbd)
    ∷ ("F", always)
    ∷ ("G", first_only)
    ∷ ("H", never)
    ∷ ("I", never)
    ∷ ("K", always)
    ∷ ("L", always)
    ∷ ("M", never)
    ∷ ("N", never)
    ∷ ("O", always)
    ∷ ("P", first_only)
    ∷ ("Q", never)
    ∷ ("R", never)
    ∷ ("S", always)
    ∷ ("T", never)
    ∷ ("U", never)
    ∷ ("V", never)
    ∷ ("W", never)
    ∷ ("X", always)
    ∷ ("Y", always)
    ∷ ("Z", first_only)
    ∷ ("1", always)
    ∷ ("4", first_only)
    ∷ ("5", always)
    ∷ ("6", always)
    ∷ ("7", never)
    ∷ ("8", tbd)
    ∷ ("9", always)
    ∷ []

-- `spec_table`
unfoldable pub spec_table : Tape → List (String × Effect)
unfolding cts_last utp_last
spec_table tape_c = utp_last
spec_table _ = cts_last

abbrev pub find_effect : String → List (String × Effect) → Option Effect
find_effect code [] = none
find_effect code ((c, e) ∷ es) = if same_text code c then some e else find_effect code es

abbrev same_tape : Tape → Tape → Bool
same_tape tape_a tape_a = true
same_tape tape_b tape_b = true
same_tape tape_c tape_c = true
same_tape _ _ = false

-- `ProviderEntry`, the fields that are read
pub record ProviderEntry : Type 0 where
  pub tape : Tape
  pub provider_code : String
  pub spec_code : String
  pub validated : Bool

-- `ProviderCodeMap`: a later entry for a tape and a code replaces an earlier one
abbrev pub find_entry : Tape → String → List ProviderEntry → Option ProviderEntry
find_entry tape code [] = none
find_entry tape code (e ∷ es) =
    let rest = find_entry tape code es in
    elim rest [
      | some later ↦ some later
      | none ↦ if same_tape e.tape tape && same_text e.provider_code code then some e else none
    ]

-- `Translation`: a code of the specification, or why there is none
pub data Translation : Type 0 where
  code : String → Translation
  no_code : RefReason → Translation

abbrev pub translate_entry : Option ProviderEntry → Translation
translate_entry none = no_code unknown_condition
translate_entry (some e) =
    if e.validated then code e.spec_code else no_code provider_mapping_unvalidated

-- `ProviderCodeMap.translate`
unfoldable pub translate : List ProviderEntry → Tape → String → Translation
translate pmap tape provider_code = translate_entry (find_entry tape provider_code pmap)

-- `Eligibility`
pub record Eligibility : Type 0 where
  pub status : ConditionEligibility
  pub reason : Option RefReason
  pub needs_note3 : Bool

-- `_worse`
abbrev pub worse : Option RefReason → RefReason → Option RefReason
worse (some provider_mapping_unvalidated) new = some provider_mapping_unvalidated
worse current provider_mapping_unvalidated = some provider_mapping_unvalidated
worse none new = some new
worse (some r) new = some r

-- What one code says: an effect that the tables decide, or why there is none.
pub data Meaning : Type 0 where
  decided : Effect → Meaning
  unreadable : RefReason → Meaning

abbrev pub meaning_of : Option Effect → Meaning
meaning_of none = unreadable unknown_condition
meaning_of (some e) = decided e

abbrev pub meaning_in : List (String × Effect) → Translation → Meaning
meaning_in table (no_code r) = unreadable r
meaning_in table (code c) = meaning_of (find_effect c table)

unfoldable pub meaning : List ProviderEntry → Tape → String → Meaning
unfolding translate spec_table
meaning pmap tape c = meaning_in (spec_table tape) (translate pmap tape c)

-- the three returns after the loop
abbrev pub conclude_conditions : Option RefReason → Bool → Bool → Eligibility
conclude_conditions (some r) cond n3 = record {
  status = unknown;
  reason = some r;
  needs_note3 = false;
}
conclude_conditions none true n3 = record { status = conditional; reason = none; needs_note3 = n3 }
conclude_conditions none false n3 = record { status = eligible; reason = none; needs_note3 = false }

-- the loop of `evaluate_conditions`, with its three variables
unfoldable pub evaluate_from : List Meaning → Option RefReason → Bool → Bool → Eligibility
evaluate_from [] u cond n3 = conclude_conditions u cond n3
evaluate_from (unreadable r ∷ ms) u cond n3 = evaluate_from ms (worse u r) cond n3
evaluate_from (decided never ∷ ms) u cond n3 = record {
  status = ineligible;
  reason = none;
  needs_note3 = false;
}
evaluate_from (decided first_only ∷ ms) u cond n3 = evaluate_from ms u true n3
evaluate_from (decided note3 ∷ ms) u cond n3 = evaluate_from ms u true true
evaluate_from (decided always ∷ ms) u cond n3 = evaluate_from ms u cond n3
evaluate_from (decided tbd ∷ ms) u cond n3 = evaluate_from ms (worse u unknown_condition) cond n3

unfoldable pub meanings : List ProviderEntry → Tape → List String → List Meaning
unfolding meaning
meanings pmap tape [] = []
meanings pmap tape (c ∷ cs) = meaning pmap tape c ∷ meanings pmap tape cs

-- `evaluate_conditions`
unfoldable pub evaluate_conditions : Tape → List String → List ProviderEntry → Eligibility
unfolding meanings evaluate_from
evaluate_conditions tape [] pmap = record {
  status = unknown;
  reason = some unknown_condition;
  needs_note3 = false;
}
evaluate_conditions tape (c ∷ cs) pmap =
    evaluate_from (meanings pmap tape (c ∷ cs)) none false false
