-- ===== src/Contracts/Commitment/Verified.antt =====
-- What a verified commitment rests on, and when there is a hash to compare.
use Prim.Native.String.{String}
use asymmetric_committee.Base.{
  ◌≡◌, ◌↔◌, refl, sym, ap, ◌∙◌, List, [], ◌∷◌, not, Option, none, some, Result, ok, err, and_then,
  and_then-ok, and_then-defined, IfOk, IfOk-and_then, IfOk-unless, sort_by, any, same_text→eq,
  same_text_self, same_text, Bool-cases, if◌then◌else◌, ◌==◌, inl, inr,
}
use asymmetric_committee.Contracts.Commitment.Canonical.{
  Printer, CommitmentError, Value, other_snapshot, other_decision, Values, canonical_bytes, canon,
  dumps,
}
use asymmetric_committee.Contracts.Commitment.Canonical.Fixed.{
  Printable, PrintableValues, canon-Printable,
}
use asymmetric_committee.Contracts.Commitment.{
  RunRecord, Decision, Snapshot, CommitmentMaterial, recomputed_differs, anchor_differs, key_leq,
  canon_dumps, payload_of, commitment_payload, commitment_hash, verify_commitment, verify_material,
  compared, anchored_as,
}

-- An anchor that is there is of the digest.
abbrev pub AnchorOf : String → Option String → Type 0
AnchorOf h none = Unit
AnchorOf h (some a) = a ≡ h

unless_same_iff :
    {E : Type 0} (e : E) (a b r h : String)
    → ((if not (same_text a b) then err e else ok r) ≡ ok h) ↔ ((r ≡ h) × (a ≡ b))
unless_same_iff e a b r h = elim (Bool-cases (same_text a b)) [
  | inl same ↦ (
    λ k. let k' : ok r ≡ ok h = rw same at k in (cc, same_text→eq a b same),
    λ k. rw (same, k.0) refl,
  )
  | inr differ ↦
      (λ k. absurd (cc (rw differ at k)), λ k. absurd (cc (differ, same_text_self b, k.1)))
]

module _ (print : Printer) (sha256 : String → String) where
  compared_iff :
      (stored : String) (r : Result CommitmentError String) (h : String)
      → (compared print sha256 stored r ≡ ok h) ↔ ((r ≡ ok h) × (stored ≡ h))
  compared_iff stored (err e) h = (λ k. absurd (cc), λ k. absurd (cc))
  compared_iff stored (ok c) h =
      let (to, from) = unless_same_iff recomputed_differs c stored c h in
      (
        λ k. let (p, q) = to k in (ap ok p, sym q ∙ p),
        λ k. let p : c ≡ h = cc (k.0) in from (p, p ∙ sym k.1),
      )

  anchored_as_iff :
      (anchor : Option String) (r h : String)
      → (anchored_as print sha256 anchor r ≡ ok h) ↔ ((r ≡ h) × AnchorOf h anchor)
  anchored_as_iff none r h = (λ k. (cc, tt), λ k. ap ok k.0)
  anchored_as_iff (some a) r h =
      let (to, from) = unless_same_iff anchor_differs a r r h in
      (λ k. let (p, q) = to k in (p, q ∙ p), λ k. from (k.0, k.1 ∙ sym k.0))

  -- Material is verified, with a digest, exactly when the commitment of its rows has that digest,
  -- it is the stored one, and an anchor, if there is one, is of it.
  pub verify_material_iff :
      (m : CommitmentMaterial) (h : String)
      → (verify_material print sha256 m ≡ ok h) ↔ (
          (commitment_hash print sha256 m.run m.decisions m.snapshot ≡ ok h)
          × (m.stored_sha256 ≡ h)
          × AnchorOf h m.anchor_sha256)
  unfolding verify_material verify_commitment
  verify_material_iff m h = (
    λ k.
        let (c, q, r) =
          and_then-ok (verify_commitment print sha256 m.stored_sha256 m.run m.decisions m.snapshot)
            _ h k in
        let (p, a) = (anchored_as_iff m.anchor_sha256 c h).0 r in
        let (x, y) = (compared_iff m.stored_sha256 _ c).0 q in (x ∙ ap ok p, y ∙ p, a),
    λ k.
        rw ((compared_iff m.stored_sha256 _ h).1 (k.0, k.1))
          ((anchored_as_iff m.anchor_sha256 h h).1 (refl, k.2)),
  )

module _ (print : Printer) where
  canon_dumps-Printable : (ds : List Decision) → IfOk (PrintableValues print) (canon_dumps print ds)
  unfolding canon_dumps canon dumps
  canon_dumps-Printable [] = (refl, (_, refl))
  canon_dumps-Printable (d ∷ ds) = IfOk-and_then _ (canon print d.dump) _ (λ w e.
      IfOk-and_then _ (canon_dumps print ds) _ (λ r e'.
        let (fixed, (t, printed)) : Printable print w = rw e at (canon-Printable print d.dump) in
        let (fixed', (ts, printed')) : PrintableValues print r =
          rw e' at (canon_dumps-Printable ds) in
        (
          rw (fixed, fixed') refl,
          and_then-defined _ _ t printed (and_then-defined _ _ ts printed' (_, refl)),
        )))

  abbrev PrintedBytes : Value → Type 0
  PrintedBytes p = (t : String) × (canonical_bytes print p ≡ ok t)

  payload_of-PrintedBytes :
      (run : RunRecord) (vs : Values) (s : Value)
      → PrintableValues print vs
      → Printable print s
      → PrintedBytes (payload_of run vs s)
  unfolding canonical_bytes canon
  payload_of-PrintedBytes run vs s (fixed, _) (fixed', _) = go _ refl
    where
      go :
          (r : Result CommitmentError Value)
          → canon print (payload_of run vs s) ≡ r
          → PrintedBytes (payload_of run vs s)
      go (ok p) e =
          let h : Printable print p = rw e at (canon-Printable print (payload_of run vs s)) in
          and_then-defined (canon print (payload_of run vs s)) (dumps print) p e h.1
      go (err x) e = absurd (cc (rw (fixed, fixed') at e))

  commitment_payload-PrintedBytes :
      (run : RunRecord) (ds : List Decision) (snapshot : Snapshot)
      → IfOk PrintedBytes (commitment_payload print run ds snapshot)
  unfolding commitment_payload
  commitment_payload-PrintedBytes run ds snapshot =
      IfOk-unless PrintedBytes (not (snapshot.run_id == run.run_id)) other_snapshot _ (
        IfOk-unless PrintedBytes (any (λ d. not (d.run_id == run.run_id)) (sort_by key_leq ds))
          other_decision _
          (IfOk-and_then _ (canon_dumps print (sort_by key_leq ds)) _ (λ vs e.
            IfOk-and_then _ (canon print snapshot.dump) _ (λ s e'.
              payload_of-PrintedBytes run vs s
                (rw e at (canon_dumps-Printable (sort_by key_leq ds)))
                (rw e' at (canon-Printable print snapshot.dump))))))

  hash_step_err_iff :
      (sha256 : String → String) (r : Result CommitmentError Value) (e : CommitmentError)
      → IfOk PrintedBytes r
      → (and_then r (λ p. and_then (canonical_bytes print p) (λ bytes. ok (sha256 bytes))) ≡ err e)
        ↔ (r ≡ err e)
  hash_step_err_iff sha256 (ok p) e (t, printed) =
      (λ k. absurd (cc (rw printed at k)), λ k. absurd (cc))
  hash_step_err_iff sha256 (err x) e h = (λ k. cc, λ k. cc)

  -- The commitment of rows cannot be recomputed exactly when their payload is refused, for the same
  -- reason: once there is a payload, the second pass over it and the printing do not fail.
  commitment_hash-err_iff :
      (sha256 : String → String) (run : RunRecord) (ds : List Decision) (snapshot : Snapshot)
      (e : CommitmentError)
      → (commitment_hash print sha256 run ds snapshot ≡ err e)
        ↔ (commitment_payload print run ds snapshot ≡ err e)
  unfolding commitment_hash
  commitment_hash-err_iff sha256 run ds snapshot e =
      hash_step_err_iff sha256 _ e (commitment_payload-PrintedBytes run ds snapshot)
