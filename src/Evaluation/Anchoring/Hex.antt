-- ===== src/Evaluation/Anchoring/Hex.antt =====
-- `bytes.fromhex`, of a text without white space.
use Prim.Native.Char.{code}
use Prim.Native.String.{String, [], ◌∷◌}
use mathlib.Core.Option.{Option, none, some}
use mathlib.Core.Bool.{◌&&◌}
use mathlib.Core.List.{List}
use asymmetric_committee.Base.{ℕ, ◌+◌, ◌-◌, ◌*◌, if◌then◌else◌, leb}

abbrev pub Bytes : Type 0
Bytes = List ℕ

-- The value of a hexadecimal digit
abbrev digit : ℕ → Option ℕ
digit c =
    if leb 48 c && leb c 57
    then some (c - 48)
    else if leb 97 c && leb c 102
    then some (c - 87)
    else if leb 65 c && leb c 70
    then some (c - 55)
    else none

abbrev prefixed : Option ℕ → Option ℕ → Option Bytes → Option Bytes
prefixed (some h) (some l) (some bs) = some (List.◌∷◌ (16 * h + l) bs)
prefixed _ _ _ = none

unfoldable pub fromhex : String → Option Bytes
fromhex [] = some List.[]
fromhex (h ∷ []) = none
fromhex (h ∷ l ∷ rest) = prefixed (digit (code h)) (digit (code l)) (fromhex rest)
