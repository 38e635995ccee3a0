-- ===== src/Evaluation/Anchoring/Lowest.antt =====
-- What a bound proof is, and that a confirmation is the lowest one.
use asymmetric_committee.Base.{
  ℕ, ◌≡◌, ◌≤◌, ◌⊎◌, inl, inr, refl, sym, ap, subst, ◌∙◌, String, Bool, true, false, not, ◌&&◌, ◌||◌,
  Option, none, some, List, [], ◌∷◌, Result, ok, err, and_then, and_then-ok, Elem, All, ltb, ltb→lt,
  arith, Bool-cases, if◌then◌else◌, some-injective,
}
use asymmetric_committee.Evaluation.Anchoring.Hex.{Bytes, fromhex}
use asymmetric_committee.Evaluation.Anchoring.{
  AnchorError, Attestation, pending, bitcoin, unknown, TimestampFile, Library, Verified, block_time,
  refuted, no_header, BitcoinConfirmation, ProofStatus, loads, check_file, check_binding, lower,
  with_answer, best_confirmation, confirm_bitcoin, same_bytes, or_raise, is_empty, pending_uris,
  heights,
}

module _ (lib : Library) where
  -- A header confirms a Bitcoin attestation of this height, with this block time.
  abbrev pub Confirmed : List (Bytes × Attestation) → BitcoinConfirmation → Type 0
  Confirmed found c =
      (msg : Bytes) × Elem (msg, bitcoin c.height) found
      × (lib.verify c.height msg ≡ block_time c.block_time)

  -- A header that confirms the attestation is not of a lower block.
  abbrev pub NotLower : BitcoinConfirmation → Bytes × Attestation → Type 0
  NotLower c (msg, bitcoin h) = (t : ℕ) → lib.verify h msg ≡ block_time t → c.height ≤ h
  NotLower c (msg, pending uri) = Unit
  NotLower c (msg, unknown) = Unit

  abbrev Best :
      List (Bytes × Attestation) → Option BitcoinConfirmation → BitcoinConfirmation → Type 0
  Best found best c =
      ((best ≡ some c) ⊎ Confirmed found c)
      × All (NotLower c) found
      × ((b : BitcoinConfirmation) → best ≡ some b → c.height ≤ b.height)

  Confirmed-later :
      (a : Bytes × Attestation) (found : List (Bytes × Attestation)) (c : BitcoinConfirmation)
      → Confirmed found c
      → Confirmed (a ∷ found) c
  Confirmed-later a found c (msg, m, v) = (msg, inr m, v)

  from_later :
      (a : Bytes × Attestation) (found : List (Bytes × Attestation))
      (best : Option BitcoinConfirmation) (c : BitcoinConfirmation)
      → (best ≡ some c) ⊎ Confirmed found c
      → (best ≡ some c) ⊎ Confirmed (a ∷ found) c
  from_later a found best c (inl q) = inl q
  from_later a found best c (inr q) = inr (Confirmed-later a found c q)

  lower-cases :
      (f : BitcoinConfirmation) (best : Option BitcoinConfirmation)
      → (b : BitcoinConfirmation) × (lower f best ≡ some b)
        × ((b ≡ f) ⊎ (best ≡ some b))
        × (b.height ≤ f.height)
        × ((o : BitcoinConfirmation) → best ≡ some o → b.height ≤ o.height)
  lower-cases f none = (f, refl, inl refl, omega arith, λ o e. absurd (cc))
  lower-cases f (some o) = elim (Bool-cases (ltb f.height o.height)) [
    | inl e ↦ (
      f,
      rw e refl,
      inl refl,
      omega arith,
      λ p q. omega (arith, ltb→lt f.height o.height e, ap (λ z. z.height) (some-injective o p q)),
    )
    | inr e ↦ (
      o,
      rw e refl,
      inr refl,
      ground (arith, e),
      λ p q. omega (arith, ap (λ z. z.height) (some-injective o p q)),
    )
  ]

  best_confirmation-Best :
      (found : List (Bytes × Attestation)) (best : Option BitcoinConfirmation)
      (c : BitcoinConfirmation)
      → best_confirmation lib found best ≡ ok (some c)
      → Best found best c
  unfolding best_confirmation
  best_confirmation-Best [] best c h =
      (inl (cc), tt, λ b e. omega (arith, ap (λ z. z.height) (some-injective b c (sym e ∙ cc))))
  best_confirmation-Best ((msg, pending uri) ∷ rest) best c h =
      let (s, l, b) = best_confirmation-Best rest best c h in
      (from_later (msg, pending uri) rest best c s, (tt, l), b)
  best_confirmation-Best ((msg, unknown) ∷ rest) best c h =
      let (s, l, b) = best_confirmation-Best rest best c h in
      (from_later (msg, unknown) rest best c s, (tt, l), b)
  best_confirmation-Best ((msg, bitcoin h) ∷ rest) best c e =
      go (lib.verify h msg) refl (λ best' k. best_confirmation-Best rest best' c k) e
    where
      go :
          (v : Verified)
          → lib.verify h msg ≡ v
          → ((best' : Option BitcoinConfirmation)
              → best_confirmation lib rest best' ≡ ok (some c)
              → Best rest best' c)
          → and_then (with_answer h v best) (best_confirmation lib rest) ≡ ok (some c)
          → Best ((msg, bitcoin h) ∷ rest) best c
      go (block_time t) ev later k =
          let (s, l, below) = later (lower (record { height = h; block_time = t }) best) k in
          let (b, is_b, from, le, under) =
            lower-cases (record { height = h; block_time = t }) best in
          (
            taken t ev b is_b from s,
            (λ t' _. omega (arith, le, below b is_b), l),
            λ o q. omega (arith, under o q, below b is_b),
          )
        where
          taken :
              (t : ℕ)
              → lib.verify h msg ≡ block_time t
              → (b : BitcoinConfirmation)
              → lower (record { height = h; block_time = t }) best ≡ some b
              → (b ≡ record { height = h; block_time = t }) ⊎ (best ≡ some b)
              → (lower (record { height = h; block_time = t }) best ≡ some c) ⊎ Confirmed rest c
              → (best ≡ some c) ⊎ Confirmed ((msg, bitcoin h) ∷ rest) c
          taken t ev b is_b from (inr q) = inr (Confirmed-later (msg, bitcoin h) rest c q)
          taken t ev b is_b (inr q) (inl r) = inl (q ∙ sym is_b ∙ r)
          taken t ev b is_b (inl q) (inl r) = inr (
              subst (Confirmed ((msg, bitcoin h) ∷ rest))
                (sym q ∙ some-injective b c (sym is_b ∙ r)) (msg, inl refl, ev))
      go refuted ev later k =
          let (s, l, b) = later best k in
          (from_later (msg, bitcoin h) rest best c s, (λ t q. absurd (cc (ev, q)), l), b)
      go no_header ev later k = absurd (cc)

same_bytes→eq : (xs ys : Bytes) → same_bytes xs ys ≡ true → xs ≡ ys
same_bytes→eq [] [] h = refl
same_bytes→eq [] (y ∷ ys) h = absurd (cc)
same_bytes→eq (x ∷ xs) [] h = absurd (cc)
same_bytes→eq (x ∷ xs) (y ∷ ys) h = ground (arith, h, same_bytes→eq xs ys)

-- The file is by SHA-256 and of the digest, and has an attestation.
abbrev pub BoundTo : Bytes → TimestampFile → Type 0
BoundTo digest file =
    (file.is_sha256 ≡ true)
    × (file.file_digest ≡ digest)
    × (file.timestamp.msg ≡ digest)
    × (is_empty (pending_uris file.timestamp.all_attestations)
          && is_empty (heights file.timestamp.all_attestations)
        ≡ false)

passed_checks :
    (a b c d : Bool) (s s' : ProofStatus)
    → (if not a
        then err AnchorError.binding
        else if not b || not c
        then err AnchorError.binding
        else if d
        then err AnchorError.binding
        else ok s)
      ≡ ok s'
    → (a ≡ true) × (b ≡ true) × (c ≡ true) × (d ≡ false)
passed_checks true true true false s s' h = (refl, refl, refl, refl)
passed_checks true true true true s s' h = absurd (cc)
passed_checks true true false d s s' h = absurd (cc)
passed_checks true false c d s s' h = absurd (cc)
passed_checks false b c d s s' h = absurd (cc)

pub check_file-BoundTo :
    (file : TimestampFile) (digest : Bytes) (s : ProofStatus)
    → check_file file digest ≡ ok s
    → BoundTo digest file
unfolding check_file
check_file-BoundTo file digest s h =
    let (a, b, c, d) =
      passed_checks file.is_sha256 (same_bytes file.file_digest digest)
        (same_bytes file.timestamp.msg digest) _ _ s h in
    (a, same_bytes→eq file.file_digest digest b, same_bytes→eq file.timestamp.msg digest c, d)

ok-injective :
    (a b : TimestampFile) → ◌≡◌ {A = Result AnchorError TimestampFile} (ok a) (ok b) → a ≡ b
ok-injective a b h = ap (λ r. elim r [ ok x ↦ x | err _ ↦ a ]) h

or_raise-ok :
    {A : Type 0} (o : Option A) (e : AnchorError) (a : A) → or_raise o e ≡ ok a → o ≡ some a
or_raise-ok none e a h = absurd (cc)
or_raise-ok (some b) e a h = cc

-- What a bound proof is: it reads as a file that is bound to the digest of the text.
abbrev pub BoundProof : Library → Bytes → String → TimestampFile → Type 0
BoundProof lib proof sha256_hex file =
    (loads lib proof ≡ ok file)
    × (digest : Bytes) × (fromhex sha256_hex ≡ some digest)
    × BoundTo digest file

pub check_binding-BoundProof :
    (lib : Library) (proof : Bytes) (sha256_hex : String) (s : ProofStatus)
    → check_binding lib proof sha256_hex ≡ ok s
    → (file : TimestampFile) × BoundProof lib proof sha256_hex file
unfolding check_binding
check_binding-BoundProof lib proof sha256_hex s h =
    let (file, l, k) = and_then-ok (loads lib proof) _ s h in
    let (digest, d, c) =
      and_then-ok (or_raise (fromhex sha256_hex) AnchorError.not_hexadecimal) _ s k in
    (
      file,
      (
        l,
        digest,
        or_raise-ok _ AnchorError.not_hexadecimal digest d,
        check_file-BoundTo file digest s c,
      ),
    )

-- A confirmation is of a proof that reads as a file by SHA-256 bound to the digest; it is of one of
-- its Bitcoin attestations, which the header at that height confirms with that block time; and no
-- attestation of the file that a header confirms is of a lower block.
pub confirm_bitcoin-Lowest :
    (lib : Library) (proof : Bytes) (sha256_hex : String) (c : BitcoinConfirmation)
    → confirm_bitcoin lib proof sha256_hex ≡ ok c
    → (file : TimestampFile) × BoundProof lib proof sha256_hex file
      × Confirmed lib file.timestamp.all_attestations c
      × All (NotLower lib c) file.timestamp.all_attestations
unfolding confirm_bitcoin
confirm_bitcoin-Lowest lib proof sha256_hex c h =
    let (s, b, k) = and_then-ok (check_binding lib proof sha256_hex) _ c h in
    let (file, l, m) = and_then-ok (loads lib proof) _ c k in
    let (best, e, o) =
      and_then-ok (best_confirmation lib file.timestamp.all_attestations none) _ c m in
    let (file', bound) = check_binding-BoundProof lib proof sha256_hex s b in
    let (source, least, _) =
      best_confirmation-Best lib file.timestamp.all_attestations none c
        (e ∙ ap ok (or_raise-ok best AnchorError.binding c o)) in
    (
      file,
      subst (BoundProof lib proof sha256_hex) (ok-injective file' file (sym bound.0 ∙ l)) bound,
      only file.timestamp.all_attestations source,
      least,
    )
  where
    only :
        (found : List (Bytes × Attestation))
        → (none ≡ some c) ⊎ Confirmed lib found c
        → Confirmed lib found c
    only found (inl q) = absurd (cc)
    only found (inr q) = q
