-- ===== src/Contracts/Commitment/Tests.antt =====
-- A run with two decisions, its bytes, and instances of the theorems on commitments.
use Prim.Native.String.{String, ◌++◌ as ◌<>◌}
use asymmetric_committee.Base.{
  ℕ, ◌≡◌, ◌↔◌, refl, true, sym, ap, ◌∙◌, some, [], ◌∷◌, ok, err, inl, inr, swap, arith,
}
use asymmetric_committee.Contracts.Commitment.Canonical.{
  Printer, canon, dumps, canonical_bytes, aware_datetime, finite_float, mapping, sequence, item,
  end_items, value, end_values, boolean,
}
use asymmetric_committee.Contracts.Commitment.{
  RunRecord, Decision, Snapshot, CommitmentMaterial, commitment_payload, commitment_hash,
  verify_commitment, verify_material, canon_dumps, recomputed_differs,
}
use asymmetric_committee.Contracts.Commitment.Ordered.{OnePerKey, commitment_hash-Reordered}
use asymmetric_committee.Contracts.Commitment.Verified.{verify_material_iff}

abbrev short : Printer
short = record {
  integer_text = λ n. "1";
  quoted = λ s. "'" <> (s <> "'");
  uuid_text = λ u. "u";
  utc_text = λ t. "t";
}

abbrev decision : ℕ → ℕ → Decision
decision security horizon = record {
  run_id = 7;
  security_id = security;
  horizon_days = horizon;
  dump = mapping (item "score" (finite_float "0.5") (item "asof" (aware_datetime 3) end_items));
}

abbrev weekly : RunRecord
weekly = record { run_id = 7; mode = "live"; as_of = 3; config_hash = "c" }

abbrev book : Snapshot
book = record { run_id = 7; dump = sequence (value (boolean true) end_values) }

abbrev digest : String → String
digest bytes = "#" <> bytes

abbrev book_bytes : String
book_bytes =
    "{'decisions':[{'asof':'t','score':0.5}],'run':{'as_of':'t','config_hash':'c','mode':'live',"
    <> "'run_id':'u'},'snapshot':[true],'v':'commitment_v1'}"

one_hash : commitment_hash short digest weekly (decision 1 5 ∷ []) book ≡ ok (digest book_bytes)
unfolding commitment_hash commitment_payload canon_dumps canonical_bytes canon dumps
one_hash = refl

abbrev material : String → CommitmentMaterial
material stored = record {
  run = weekly;
  decisions = decision 1 5 ∷ [];
  snapshot = book;
  stored_sha256 = stored;
  anchor_sha256 = some (digest book_bytes);
}

tampered : verify_material short digest (material "#") ≡ err recomputed_differs
unfolding verify_material verify_commitment commitment_hash commitment_payload canon_dumps
    canonical_bytes canon dumps
tampered = refl

verify_material_iff_example :
    (verify_material short digest (material (digest book_bytes)) ≡ ok (digest book_bytes)) ↔ (
      (commitment_hash short digest weekly (decision 1 5 ∷ []) book ≡ ok (digest book_bytes))
      × (digest book_bytes ≡ digest book_bytes)
      × (digest book_bytes ≡ digest book_bytes))
verify_material_iff_example =
    verify_material_iff short digest (material (digest book_bytes)) (digest book_bytes)

horizons_differ : ◌≡◌ {A = ℕ} 5 2 → ⊥
horizons_differ h = omega arith

one_per_key : OnePerKey (decision 1 5 ∷ decision 1 2 ∷ [])
one_per_key a b (inl p) (inl q) s h = cc
one_per_key a b (inl p) (inr (inl q)) s h =
    absurd (horizons_differ (sym (ap (λ d. d.horizon_days) p) ∙ h ∙ ap (λ d. d.horizon_days) q))
one_per_key a b (inr (inl p)) (inl q) s h =
    absurd (horizons_differ (sym (ap (λ d. d.horizon_days) q) ∙ sym h ∙ ap (λ d. d.horizon_days) p))
one_per_key a b (inr (inl p)) (inr (inl q)) s h = cc
one_per_key a b (inr (inr p)) q s h = absurd p
one_per_key a b (inl p) (inr (inr q)) s h = absurd q
one_per_key a b (inr (inl p)) (inr (inr q)) s h = absurd q

commitment_hash-Reordered_example :
    commitment_hash short digest weekly (decision 1 5 ∷ decision 1 2 ∷ []) book
    ≡ commitment_hash short digest weekly (decision 1 2 ∷ decision 1 5 ∷ []) book
commitment_hash-Reordered_example =
    commitment_hash-Reordered short digest weekly (decision 1 5 ∷ decision 1 2 ∷ [])
      (decision 1 2 ∷ decision 1 5 ∷ []) book one_per_key (swap (decision 1 5) (decision 1 2) [])
