-- ===== src/Risk/KillSwitch/Latch.antt =====
-- The latch: once engaged it stays engaged by its first trigger, also when it is rebuilt.
use asymmetric_committee.Base.{
  ◌≤◌, ◌≡◌, refl, true, false, Option, none, some, List, [], ◌∷◌, ◌++◌, All, arith, head?, least_by,
  head?-sort_by, sort_by, err, ap, if◌then◌else◌, sym, ◌∙◌,
}
use asymmetric_committee.Contracts.Enums.{KillTrigger, buy, sell}
use asymmetric_committee.Risk.KillSwitch.{
  KillSwitch, KillSwitchEvent, halt, halt_all, allows, require, from_events, fresh, not_later,
  halted_error,
}

halt-engaged : (s t : KillTrigger) (ks : KillSwitch) → ks.trigger ≡ some t → halt s ks ≡ (false, ks)
unfolding halt
halt-engaged s t ks h = ground arith

-- After a halt, whatever the switch was before, sells are allowed and buys are not; a further halt
-- changes nothing and says so.
halt-latches :
    (s t : KillTrigger) (ks : KillSwitch)
    → let after = (halt t ks).1 in
      (allows after sell ≡ true)
      × (allows after buy ≡ false)
      × (require after buy ≡ err halted_error)
      × (halt s after ≡ (false, after))
unfolding halt allows require
halt-latches s t ks = ground arith

halt_all_engaged :
    (t : KillTrigger) (ks : KillSwitch) (es : List KillSwitchEvent)
    → ks.trigger ≡ some t
    → halt_all ks es ≡ ks
unfolding halt_all
halt_all_engaged t ks [] h = refl
halt_all_engaged t ks (e ∷ es) h = rw (halt-engaged e.trigger t ks h) (halt_all_engaged t ks es h)

abbrev trigger_of : Option KillSwitchEvent → Option KillTrigger
trigger_of none = none
trigger_of (some e) = some e.trigger

halt_all_fresh : (es : List KillSwitchEvent) → (halt_all fresh es).trigger ≡ trigger_of (head? es)
unfolding halt_all
halt_all_fresh [] = refl
halt_all_fresh (e ∷ es) =
    ap (λ k. k.trigger) (halt_all_engaged e.trigger (record { trigger = some e.trigger }) es refl)

-- A rebuilt switch has the trigger of the earliest stored event, the first of them in the given
-- order if several have that instant, and none without events.
pub from_events-earliest :
    (es : List KillSwitchEvent) → (from_events es).trigger ≡ trigger_of (least_by not_later es)
unfolding from_events
from_events-earliest es = rw (halt_all_fresh (sort_by not_later es), head?-sort_by not_later es)

earlier_of : Option KillSwitchEvent → Option KillSwitchEvent → Option KillSwitchEvent
earlier_of none p = p
earlier_of (some e) none = some e
earlier_of (some e) (some f) = if not_later e f then some e else some f

earlier_of_assoc :
    (e : KillSwitchEvent) (o p : Option KillSwitchEvent)
    → earlier_of (some e) (earlier_of o p) ≡ earlier_of (earlier_of (some e) o) p
unfolding earlier_of
earlier_of_assoc e none p = refl
earlier_of_assoc e (some f) none = ground arith
earlier_of_assoc e (some f) (some g) = ground arith

least_by-cons :
    (e : KillSwitchEvent) (es : List KillSwitchEvent)
    → least_by not_later (e ∷ es) ≡ earlier_of (some e) (least_by not_later es)
unfolding earlier_of
least_by-cons e es = ground arith

least_by-append :
    (es more : List KillSwitchEvent)
    → least_by not_later (es ++ more) ≡ earlier_of (least_by not_later es) (least_by not_later more)
least_by-append [] more = unfold earlier_of in refl
least_by-append (e ∷ es) more =
    least_by-cons e (es ++ more)
    ∙ ap (earlier_of (some e)) (least_by-append es more)
    ∙ earlier_of_assoc e (least_by not_later es) (least_by not_later more)
    ∙ ap (λ o. earlier_of o (least_by not_later more)) (sym (least_by-cons e es))

least_by-later :
    (e : KillSwitchEvent) (more : List KillSwitchEvent)
    → All (λ f. e.triggered_at ≤ f.triggered_at) more
    → earlier_of (some e) (least_by not_later more) ≡ some e
unfolding earlier_of
least_by-later e [] k = refl
least_by-later e (f ∷ fs) k = ground (arith, least_by-later e fs k.1)

-- Replayed or later events change nothing: with events whose earliest is `e`, further events that
-- are not earlier than `e` leave the rebuilt switch as it was.
pub from_events-append :
    (es more : List KillSwitchEvent) (e : KillSwitchEvent)
    → least_by not_later es ≡ some e
    → All (λ f. e.triggered_at ≤ f.triggered_at) more
    → (from_events (es ++ more)).trigger ≡ (from_events es).trigger
from_events-append es more e h k =
    from_events-earliest (es ++ more)
    ∙ ap trigger_of (least_by-append es more)
    ∙ ap trigger_of {y = some e} (rw h (least_by-later e more k))
    ∙ sym (from_events-earliest es ∙ ap trigger_of h)
