-- ===== src/Contracts/Commitment/Canonical/Fixed.antt =====
-- A canonical value is a fixed point of the canonical form, and it can be printed.
use Prim.Native.String.{String}
use asymmetric_committee.Base.{◌≡◌, refl, List, ok, and_then-defined, IfOk, IfOk-and_then}
use asymmetric_committee.Contracts.Commitment.Canonical.{
  Value, Items, Values, Printer, canon, canon_items, canon_values, dumps, dumps_items, dumps_values,
  enum, aware_datetime, uuid, integer, text, finite_float, boolean, naive_datetime, nothing,
  non_finite_float, other, mapping, sequence, end_items, item, end_values, value,
}

module _ (print : Printer) where
  abbrev pub Printable : Value → Type 0
  Printable w = (canon print w ≡ ok w) × ((t : String) × (dumps print w ≡ ok t))

  abbrev pub PrintableItems : Items → Type 0
  PrintableItems w =
      (canon_items print w ≡ ok w) × ((ts : List (String × String)) × (dumps_items print w ≡ ok ts))

  abbrev pub PrintableValues : Values → Type 0
  PrintableValues w =
      (canon_values print w ≡ ok w) × ((ts : List String) × (dumps_values print w ≡ ok ts))

  mutual
    unfolding canon dumps

    pub canon-Printable : (v : Value) → IfOk Printable (canon print v)
    canon-Printable (enum v) = canon-Printable v
    canon-Printable naive_datetime = tt
    canon-Printable (aware_datetime t) = (refl, (_, refl))
    canon-Printable (uuid u) = (refl, (_, refl))
    canon-Printable (boolean b) = (refl, (_, refl))
    canon-Printable nothing = (refl, (_, refl))
    canon-Printable (integer n) = (refl, (_, refl))
    canon-Printable (text s) = (refl, (_, refl))
    canon-Printable non_finite_float = tt
    canon-Printable (finite_float x) = (refl, (_, refl))
    canon-Printable (mapping items) = IfOk-and_then _ (canon_items print items) _ (λ r e.
        let (fixed, (ts, printed)) : PrintableItems r = rw e at (canon_items-Printable items) in
        (rw (fixed) refl, and_then-defined _ _ ts printed (_, refl)))
    canon-Printable (sequence vs) = IfOk-and_then _ (canon_values print vs) _ (λ r e.
        let (fixed, (ts, printed)) : PrintableValues r = rw e at (canon_values-Printable vs) in
        (rw (fixed) refl, and_then-defined _ _ ts printed (_, refl)))
    canon-Printable other = tt

    pub canon_items-Printable : (items : Items) → IfOk PrintableItems (canon_items print items)
    canon_items-Printable end_items = (refl, (_, refl))
    canon_items-Printable (item k v rest) = IfOk-and_then _ (canon print v) _ (λ w e.
        IfOk-and_then _ (canon_items print rest) _ (λ r e'.
          let (fixed, (t, printed)) : Printable w = rw e at (canon-Printable v) in
          let (fixed', (ts, printed')) : PrintableItems r = rw e' at (canon_items-Printable rest) in
          (
            rw (fixed, fixed') refl,
            and_then-defined _ _ t printed (and_then-defined _ _ ts printed' (_, refl)),
          )))

    pub canon_values-Printable : (vs : Values) → IfOk PrintableValues (canon_values print vs)
    canon_values-Printable end_values = (refl, (_, refl))
    canon_values-Printable (value v rest) = IfOk-and_then _ (canon print v) _ (λ w e.
        IfOk-and_then _ (canon_values print rest) _ (λ r e'.
          let (fixed, (t, printed)) : Printable w = rw e at (canon-Printable v) in
          let (fixed', (ts, printed')) : PrintableValues r =
            rw e' at (canon_values-Printable rest) in
          (
            rw (fixed, fixed') refl,
            and_then-defined _ _ t printed (and_then-defined _ _ ts printed' (_, refl)),
          )))
