-- ===== src/Evaluation/Anchoring/Tests.antt =====
-- A proof with two confirmed attestations, and an instance of the theorem on confirmations.
use asymmetric_committee.Base.{
  ◌+◌, ◌≡◌, refl, true, ◌==◌, if◌then◌else◌, none, some, [], ◌∷◌, ok, err, All,
}
use asymmetric_committee.Evaluation.Anchoring.Hex.{fromhex}
use asymmetric_committee.Evaluation.Anchoring.{
  AnchorError, pending, bitcoin, TimestampFile, Library, block_time, refuted, BitcoinConfirmation,
  loads, check_file, check_binding, best_confirmation, confirm_bitcoin,
}
use asymmetric_committee.Evaluation.Anchoring.Lowest.{
  BoundProof, Confirmed, NotLower, confirm_bitcoin-Lowest,
}

hex : fromhex "0aF1" ≡ some (10 ∷ 241 ∷ [])
unfolding fromhex
hex = refl

odd : fromhex "0aF" ≡ none
unfolding fromhex
odd = refl

abbrev file : TimestampFile
file = record {
  is_sha256 = true;
  file_digest = 10 ∷ 241 ∷ [];
  timestamp = record {
    msg = 10 ∷ 241 ∷ [];
    all_attestations =
        (1 ∷ [], pending "a")
        ∷ (2 ∷ [], bitcoin 900)
        ∷ (3 ∷ [], bitcoin 700)
        ∷ (4 ∷ [], bitcoin 800)
        ∷ [];
  };
}

-- the header at 700 does not confirm
abbrev lib : Library
lib = record {
  deserialize_file = λ bytes. some file;
  deserialize_fragment = λ bytes msg. none;
  verify = λ h msg. if h == 700 then refuted else block_time (h + 1);
}

abbrev confirmation : BitcoinConfirmation
confirmation = record { height = 800; block_time = 801 }

confirms : confirm_bitcoin lib (7 ∷ []) "0af1" ≡ ok confirmation
unfolding confirm_bitcoin check_binding loads check_file fromhex best_confirmation
confirms = refl

other_digest : confirm_bitcoin lib (7 ∷ []) "0af2" ≡ err AnchorError.binding
unfolding confirm_bitcoin check_binding loads check_file fromhex best_confirmation
other_digest = refl

confirm_bitcoin-Lowest_example :
    (file : TimestampFile) × BoundProof lib (7 ∷ []) "0af1" file
    × Confirmed lib file.timestamp.all_attestations confirmation
    × All (NotLower lib confirmation) file.timestamp.all_attestations
confirm_bitcoin-Lowest_example = confirm_bitcoin-Lowest lib (7 ∷ []) "0af1" confirmation confirms
