-- ===== src/Contracts/Commitment/Canonical.antt =====
-- contracts/commitment.py: the canonical form of a value and its bytes.
pub mod Fixed
use Prim.Native.String.{String, ◌++◌ as ◌<>◌}
use asymmetric_committee.Base.{
  ℕ, Bool, true, false, List, [], ◌∷◌, Result, ok, err, and_then, sort_by, text_leq,
}

-- A Python value as `_canon` tells it apart. A UUID is its integer; an aware datetime is its
-- instant in microseconds; a finite float is its repr; a key of a mapping is its text.
mutual
  pub data Value : Type 0 where
    enum : Value → Value
    aware_datetime uuid integer : ℕ → Value
    text finite_float : String → Value
    boolean : Bool → Value
    naive_datetime nothing non_finite_float other : Value
    mapping : Items → Value
    sequence : Values → Value

  pub data Items : Type 0 where
    end_items : Items
    item : String → Value → Items → Items

  pub data Values : Type 0 where
    end_values : Values
    value : Value → Values → Values

-- `ValueError` and `TypeError`, with where they are raised
pub data CommitmentError : Type 0 where
  naive_datetime_error non_finite_error not_canonical not_serializable : CommitmentError
  other_snapshot other_decision : CommitmentError

-- The texts that the standard library prints: of an integer, a string in ASCII quotes, a UUID and an
-- instant in UTC with microseconds.
pub record Printer : Type 0 where
  pub integer_text : ℕ → String
  pub quoted : String → String
  pub uuid_text : ℕ → String
  pub utc_text : ℕ → String

module _ (print : Printer) where
  -- `_canon`
  unfoldable mutual
    pub canon : Value → Result CommitmentError Value
    canon (enum v) = canon v
    canon naive_datetime = err naive_datetime_error
    canon (aware_datetime t) = ok (text (print.utc_text t))
    canon (uuid u) = ok (text (print.uuid_text u))
    canon (boolean b) = ok (boolean b)
    canon nothing = ok nothing
    canon (integer n) = ok (integer n)
    canon (text s) = ok (text s)
    canon non_finite_float = err non_finite_error
    canon (finite_float x) = ok (finite_float x)
    canon (mapping items) = and_then (canon_items items) (λ r. ok (mapping r))
    canon (sequence vs) = and_then (canon_values vs) (λ r. ok (sequence r))
    canon other = err not_canonical

    pub canon_items : Items → Result CommitmentError Items
    canon_items end_items = ok end_items
    canon_items (item k v rest) =
        and_then (canon v) (λ w. and_then (canon_items rest) (λ r. ok (item k w r)))

    pub canon_values : Values → Result CommitmentError Values
    canon_values end_values = ok end_values
    canon_values (value v rest) =
        and_then (canon v) (λ w. and_then (canon_values rest) (λ r. ok (value w r)))

  abbrev comma : List String → String
  comma [] = ""
  comma (s ∷ []) = s
  comma (s ∷ t ∷ rest) = s <> ("," <> comma (t ∷ rest))

  abbrev key_before : (String × String) → (String × String) → Bool
  key_before a b = text_leq a.0 b.0

  abbrev member_text : (String × String) → String
  member_text (k, v) = print.quoted k <> (":" <> v)

  abbrev member_texts : List (String × String) → List String
  member_texts [] = []
  member_texts (p ∷ ps) = member_text p ∷ member_texts ps

  abbrev boolean_text : Bool → String
  boolean_text true = "true"
  boolean_text false = "false"

  -- `json.dumps(…, sort_keys=True, separators=(",", ":"), ensure_ascii=True, allow_nan=False)`; of
  -- enums, which are strings here, the value is printed
  unfoldable mutual
    pub dumps : Value → Result CommitmentError String
    dumps (enum v) = dumps v
    dumps (boolean b) = ok (boolean_text b)
    dumps nothing = ok "null"
    dumps (integer n) = ok (print.integer_text n)
    dumps (text s) = ok (print.quoted s)
    dumps (finite_float x) = ok x
    dumps (mapping items) =
        and_then (dumps_items items)
          (λ ps. ok ("{" <> (comma (member_texts (sort_by key_before ps)) <> "}")))
    dumps (sequence vs) = and_then (dumps_values vs) (λ ts. ok ("[" <> (comma ts <> "]")))
    dumps _ = err not_serializable

    pub dumps_items : Items → Result CommitmentError (List (String × String))
    dumps_items end_items = ok []
    dumps_items (item k v rest) =
        and_then (dumps v) (λ t. and_then (dumps_items rest) (λ ts. ok ((k, t) ∷ ts)))

    pub dumps_values : Values → Result CommitmentError (List String)
    dumps_values end_values = ok []
    dumps_values (value v rest) =
        and_then (dumps v) (λ t. and_then (dumps_values rest) (λ ts. ok (t ∷ ts)))

  -- `canonical_bytes`
  unfoldable pub canonical_bytes : Value → Result CommitmentError String
  unfolding canon dumps
  canonical_bytes payload = and_then (canon payload) dumps
