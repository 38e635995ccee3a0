-- ===== src/Store/AsOf.antt =====
-- store/as_of.py: `_latest`, the point-in-time selection that the reads of the fact tables share. An
-- instant is a number of microseconds, none without a zone; a text that is only compared is its rank.
pub mod Newest
pub mod Reads
pub mod Market
pub mod Reference
pub mod Horizon
mod Tests
use asymmetric_committee.Base.{
  ℕ, zero, suc, ◌+◌, ◌≡◌, Bool, true, false, ◌&&◌, ◌||◌, Option, none, some, List, [], ◌∷◌, Result,
  ok, err, and_then, if◌then◌else◌, ltb, leb, ◌==◌, filter, sort_by,
}
use asymmetric_committee.Evaluation.Calendar.{CalendarError}

-- The exceptions of the reads
pub data StoreError : Type 0 where
  naive_instant : StoreError
  calendar_error : CalendarError → StoreError

-- `_check_ts`
abbrev pub check_ts : Option ℕ → Result StoreError ℕ
check_ts none = err naive_instant
check_ts (some t) = ok t

-- The order of tuples, as SQL and Python have it, on the numbers of a key
abbrev pub lex_leq : List ℕ → List ℕ → Bool
lex_leq [] ys = true
lex_leq (x ∷ xs) [] = false
lex_leq (x ∷ xs) (y ∷ ys) = ltb x y || ((x == y) && lex_leq xs ys)

-- What a fact table has for `_latest`: the natural key, the instant from which the row is known, and
-- its version.
pub record Facts (Row : Type 0) : Type 0 where
  pub key : Row → List ℕ
  pub available_at : Row → ℕ
  pub source_version : Row → ℕ

module _ {Row : Type 0} (facts : Facts Row) where
  abbrev pub same_key : Row → Row → Bool
  same_key a b = lex_leq (facts.key a) (facts.key b) && lex_leq (facts.key b) (facts.key a)

  -- of two rows of a key, whether the second is not newer
  abbrev pub not_older : Row → Row → Bool
  not_older a b =
      ltb (facts.available_at b) (facts.available_at a)
      || ((facts.available_at b == facts.available_at a)
          && leb (facts.source_version b) (facts.source_version a))

  -- `ORDER BY key, available_at DESC, source_version DESC`
  abbrev pub newest_first : Row → Row → Bool
  newest_first a b = if same_key a b then not_older a b else lex_leq (facts.key a) (facts.key b)

  abbrev pub distinct_after : Row → List Row → List Row
  distinct_after p [] = []
  distinct_after p (x ∷ xs) =
      let rest = distinct_after x xs in
      let same_rest = distinct_after p xs in if same_key p x then same_rest else x ∷ rest

  -- `DISTINCT ON (key)`: of each run of rows with one key the first
  abbrev pub distinct_on : List Row → List Row
  distinct_on [] = []
  distinct_on (x ∷ xs) = x ∷ distinct_after x xs

  abbrev pub known : ℕ → List Row → List Row
  known as_of table = filter (λ r. leb (facts.available_at r) as_of) table

  -- `_latest`, at an instant that was checked
  unfoldable pub latest_versions : ℕ → (Row → Bool) → List Row → List Row
  latest_versions as_of where_ table =
      distinct_on (sort_by newest_first (filter where_ (known as_of table)))
