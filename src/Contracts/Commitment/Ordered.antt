-- ===== src/Contracts/Commitment/Ordered.antt =====
-- A commitment does not depend on the order in which the decisions are read.
use Prim.Native.String.{String}
use asymmetric_committee.Base.{
  ◌≡◌, refl, List, true, false, arith, All-Elem, Elem, Reordered, sort_by-Reordered,
}
use asymmetric_committee.Contracts.Commitment.Canonical.{Printer}
use asymmetric_committee.Contracts.Commitment.{
  RunRecord, Decision, Snapshot, key_leq, commitment_payload, commitment_hash,
}

key_leq-total : (a b : Decision) → key_leq a b ≡ false → key_leq b a ≡ true
key_leq-total a b h = ground arith

key_leq_trans : (a b c : Decision) → key_leq a b ≡ true → key_leq b c ≡ true → key_leq a c ≡ true
key_leq_trans a b c h k = ground arith

key_leq-antisym :
    (a b : Decision)
    → key_leq a b ≡ true
    → key_leq b a ≡ true
    → (a.security_id ≡ b.security_id) × (a.horizon_days ≡ b.horizon_days)
key_leq-antisym a b h k = ground arith

-- Of one security and horizon there is one decision.
abbrev pub OnePerKey : List Decision → Type 0
OnePerKey ds =
    (a b : Decision)
    → Elem a ds
    → Elem b ds
    → a.security_id ≡ b.security_id
    → a.horizon_days ≡ b.horizon_days
    → a ≡ b

-- Two lists of the same decisions in different orders, with one decision for each security and
-- horizon, have one commitment, or one error.
pub commitment_hash-Reordered :
    (print : Printer) (sha256 : String → String) (run : RunRecord) (ds es : List Decision)
    (snapshot : Snapshot)
    → OnePerKey ds
    → Reordered ds es
    → commitment_hash print sha256 run ds snapshot ≡ commitment_hash print sha256 run es snapshot
unfolding commitment_hash commitment_payload
commitment_hash-Reordered print sha256 run ds es snapshot one r =
    rw
      (sort_by-Reordered key_leq key_leq-total key_leq_trans (λ d. Elem d ds)
        (λ a b p q h k. let (s, t) = key_leq-antisym a b h k in one a b p q s t) r (All-Elem ds))
      refl
