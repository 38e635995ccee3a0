-- ===== src/Evaluation/Anchoring.antt =====
-- evaluation/anchoring.py: the binding of an OpenTimestamps proof to a digest, and its confirmation.
-- The library `opentimestamps` is a parameter (`Library`): what it reads out of bytes, and whether a
-- block header confirms an attestation. Bytes are lists of numbers.
pub mod Hex
pub mod Lowest
mod Tests
use asymmetric_committee.Base.{
  ℕ, ◌+◌, ◌-◌, ◌*◌, String, Bool, true, false, not, ◌&&◌, ◌||◌, Option, none, some, List, [], ◌∷◌,
  ◌++◌, Result, ok, err, and_then, if◌then◌else◌, ltb, leb, ◌==◌, any, length, sort_by, text_leq,
}
use asymmetric_committee.Evaluation.Anchoring.Hex.{Bytes, fromhex}

-- `AnchorBindingError` (a `ValueError` too), the `ValueError` of a text that is not hexadecimal, and
-- what a source of headers or a calendar raises
pub data AnchorError : Type 0 where
  binding not_hexadecimal unavailable : AnchorError

abbrev pub max_proof_bytes : ℕ
max_proof_bytes = 256 * 1024

abbrev pub max_fragment_bytes : ℕ
max_fragment_bytes = 64 * 1024

-- An attestation, as the code tells its class
pub data Attestation : Type 0 where
  pending : String → Attestation
  bitcoin : ℕ → Attestation
  unknown : Attestation

-- What the code reads of a `Timestamp`: its message and all its attestations, with their messages
pub record Timestamp : Type 0 where
  pub msg : Bytes
  pub all_attestations : List (Bytes × Attestation)

-- `DetachedTimestampFile`
pub record TimestampFile : Type 0 where
  pub is_sha256 : Bool
  pub file_digest : Bytes
  pub timestamp : Timestamp

-- What a check of an attestation against a header comes to: the time of the block, a
-- `VerificationError`, or that the header cannot be had
pub data Verified : Type 0 where
  block_time : ℕ → Verified
  refuted : Verified
  no_header : Verified

-- A reader answers nothing for malformed bytes; that of a fragment also reads to the end.
pub record Library : Type 0 where
  pub deserialize_file : Bytes → Option TimestampFile
  pub deserialize_fragment : Bytes → Bytes → Option Timestamp
  pub verify : ℕ → Bytes → Verified

-- `ProofStatus`
pub record ProofStatus : Type 0 where
  pub pending : List String
  pub bitcoin_heights : List ℕ

abbrev pub is_empty {ℓ} : {A : Type ℓ} → List A → Bool
is_empty [] = true
is_empty (x ∷ xs) = false

-- `ProofStatus.confirmed`
abbrev pub confirmed : ProofStatus → Bool
confirmed s = not (is_empty s.bitcoin_heights)

-- `BitcoinConfirmation`
pub record BitcoinConfirmation : Type 0 where
  pub height : ℕ
  pub block_time : ℕ

abbrev pub same_bytes : Bytes → Bytes → Bool
same_bytes [] [] = true
same_bytes (x ∷ xs) (y ∷ ys) = (x == y) && same_bytes xs ys
same_bytes _ _ = false

abbrev pub or_raise : {A : Type 0} → Option A → AnchorError → Result AnchorError A
or_raise none e = err e
or_raise (some a) e = ok a

-- `loads`
unfoldable pub loads : Library → Bytes → Result AnchorError TimestampFile
loads lib proof =
    if is_empty proof || ltb max_proof_bytes (length proof)
    then err AnchorError.binding
    else or_raise (lib.deserialize_file proof) AnchorError.binding

-- `parse_fragment`
unfoldable pub parse_fragment : Library → Bytes → Bytes → Result AnchorError Timestamp
parse_fragment lib data_ msg =
    if is_empty data_ || ltb max_fragment_bytes (length data_)
    then err AnchorError.binding
    else and_then (or_raise (lib.deserialize_fragment data_ msg) AnchorError.binding) (λ fragment.
      if is_empty fragment.all_attestations then err AnchorError.binding else ok fragment)

abbrev pub pending_uris : List (Bytes × Attestation) → List String
pending_uris [] = []
pending_uris ((_, pending uri) ∷ rest) = uri ∷ pending_uris rest
pending_uris ((_, bitcoin h) ∷ rest) = pending_uris rest
pending_uris ((_, unknown) ∷ rest) = pending_uris rest

abbrev pub heights : List (Bytes × Attestation) → List ℕ
heights [] = []
heights ((_, pending uri) ∷ rest) = heights rest
heights ((_, bitcoin h) ∷ rest) = h ∷ heights rest
heights ((_, unknown) ∷ rest) = heights rest

-- `check_binding`, from the file and the digest on
unfoldable pub check_file : TimestampFile → Bytes → Result AnchorError ProofStatus
check_file file digest =
    let found = file.timestamp.all_attestations in
    if not file.is_sha256
    then err AnchorError.binding
    else if not (same_bytes file.file_digest digest) || not (same_bytes file.timestamp.msg digest)
    then err AnchorError.binding
    else if is_empty (pending_uris found) && is_empty (heights found)
    then err AnchorError.binding
    else ok (record {
      pending = sort_by text_leq (pending_uris found);
      bitcoin_heights = sort_by leb (heights found);
    })

-- `check_binding`
unfoldable pub check_binding : Library → Bytes → String → Result AnchorError ProofStatus
unfolding loads check_file
check_binding lib proof sha256_hex =
    and_then (loads lib proof) (λ file.
      and_then (or_raise (fromhex sha256_hex) AnchorError.not_hexadecimal) (check_file file))

-- `found` replaces `best` when it is lower.
abbrev pub lower : BitcoinConfirmation → Option BitcoinConfirmation → Option BitcoinConfirmation
lower found none = some found
lower found (some best) = if ltb found.height best.height then some found else some best

abbrev pub with_answer :
    ℕ → Verified → Option BitcoinConfirmation → Result AnchorError (Option BitcoinConfirmation)
with_answer h (block_time t) best = ok (lower (record { height = h; block_time = t }) best)
with_answer h refuted best = ok best
with_answer h no_header best = err AnchorError.unavailable

-- the loop of `confirm_bitcoin`
unfoldable pub best_confirmation :
    Library
    → List (Bytes × Attestation)
    → Option BitcoinConfirmation
    → Result AnchorError (Option BitcoinConfirmation)
best_confirmation lib [] best = ok best
best_confirmation lib ((msg, bitcoin h) ∷ rest) best =
    and_then (with_answer h (lib.verify h msg) best) (best_confirmation lib rest)
best_confirmation lib ((_, pending _) ∷ rest) best = best_confirmation lib rest best
best_confirmation lib ((_, unknown) ∷ rest) best = best_confirmation lib rest best

-- `confirm_bitcoin`
unfoldable pub confirm_bitcoin : Library → Bytes → String → Result AnchorError BitcoinConfirmation
unfolding check_binding loads best_confirmation
confirm_bitcoin lib proof sha256_hex = and_then (check_binding lib proof sha256_hex) (λ _.
    and_then (loads lib proof) (λ file.
      and_then (best_confirmation lib file.timestamp.all_attestations none)
        (λ best. or_raise best AnchorError.binding)))
