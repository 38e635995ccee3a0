-- ===== src/Agents/RateLimit/Wait.antt =====
-- The wait that the script answers is long enough.
use asymmetric_committee.Base.{
  ℕ, zero, ap, some-injective, ◌+◌, ◌-◌, ◌*◌, ◌≤◌, ◌<◌, ◌≡◌, refl, true, false, Option, none, some,
  leb, if◌then◌else◌, arith, Bool-cases, inl, inr, suc, is_some,
}
use asymmetric_committee.Base.Options.{>>=-is_some}
use asymmetric_committee.Base.Int.{ℤ, pos_part, neg_part}
use asymmetric_committee.Agents.RateLimit.{
  Bucket, Surroundings, parts, tokens_found, script, cost_parts, affords, ceil_div, acquire,
  at_least_one, Limits, acquire_model,
}
use asymmetric_committee.Agents.RateLimit.Window.{LeftBefore, tokens_found-Filled, mul_mono}

ceil_div-covers : (d rate : ℕ) → 0 < rate → d ≤ ceil_div d rate * rate
unfolding ceil_div
ceil_div-covers d rate h = grind arith

mul_gap : (now w t k : ℕ) → now + w ≤ t → now * k + w * k ≤ t * k
mul_gap now w t k h = grind (arith, mul_mono (now + w) t k h)

module _ (per_minute : ℕ) (positive : 0 < per_minute) where
  tokens_found-affords :
      (now later c : ℕ) (tokens : ℤ)
      → neg_part tokens ≡ 0
      → c ≤ parts * per_minute
      → now + ceil_div (c + neg_part tokens - pos_part tokens) per_minute ≤ later
      → affords (tokens_found per_minute later (some (record { tokens = tokens; ts = now }))) c
        ≡ true
  unfolding tokens_found
  tokens_found-affords now later c tokens n fits enough = ground (
    arith,
    n,
    fits,
    ceil_div-covers (c + neg_part tokens - pos_part tokens) per_minute positive,
    mul_gap now _ later per_minute enough,
  )

  cost_parts-le : (cost : ℕ) → cost_parts per_minute cost ≤ parts * per_minute
  cost_parts-le cost = ground arith

  script-granted :
      (now cost : ℕ) (bucket : Option Bucket)
      → affords (tokens_found per_minute now bucket) (cost_parts per_minute cost) ≡ true
      → (script per_minute now cost bucket).0 ≡ 0
  unfolding script
  script-granted now cost bucket e = rw e refl

  script-refused :
      (now cost : ℕ) (bucket : Option Bucket)
      → affords (tokens_found per_minute now bucket) (cost_parts per_minute cost) ≡ false
      → script per_minute now cost bucket ≡ (
        ceil_div
            (cost_parts per_minute cost
              + neg_part (tokens_found per_minute now bucket)
              - pos_part (tokens_found per_minute now bucket))
            per_minute,
        record { tokens = tokens_found per_minute now bucket; ts = now },
      )
  unfolding script
  script-refused now cost bucket e = rw e refl

  acquire-granted :
      (env : Surroundings) (cost fuel now : ℕ) (bucket : Option Bucket)
      → (script per_minute now (at_least_one cost) bucket).0 ≡ 0
      → is_some (acquire env per_minute cost (suc fuel) now bucket) ≡ true
  unfolding acquire
  acquire-granted env cost fuel now bucket e = rw e refl

  acquire-refused :
      (env : Surroundings) (cost fuel now w : ℕ) (b : Bucket) (bucket : Option Bucket)
      → script per_minute now (at_least_one cost) bucket ≡ (w, b)
      → is_some (acquire env per_minute cost fuel (now + w + 1 + env.lag fuel) (env.others fuel b))
        ≡ true
      → is_some (acquire env per_minute cost (suc fuel) now bucket) ≡ true
  unfolding acquire
  acquire-refused env cost fuel now w b bucket e h = rw e (ground (arith, h))

  -- Where no other worker draws on the bucket, a worker that was refused is granted when it has
  -- slept as long as it was told: two scripts are enough.
  pub acquire-alone :
      (env : Surroundings) (cost now : ℕ) (bucket : Option Bucket)
      → ((n : ℕ) (b : Bucket) → env.others n b ≡ some b)
      → LeftBefore per_minute now bucket
      → is_some (acquire env per_minute cost 2 now bucket) ≡ true
  acquire-alone env cost now bucket alone h = elim (Bool-cases (affords tokens c)) [
    | inl e ↦
        acquire-granted env cost 1 now bucket (script-granted now (at_least_one cost) bucket e)
    | inr e ↦
        acquire-refused env cost 1 now _ _ bucket (script-refused now (at_least_one cost) bucket e)
          (rw (alone 1 (record { tokens = tokens; ts = now })) (
            acquire-granted env cost 0 _ _ (
              script-granted _ (at_least_one cost) _ (
                tokens_found-affords now _ c tokens (tokens_found-Filled per_minute now bucket h).0
                  (cost_parts-le (at_least_one cost)) (omega arith)))))
  ]
    where
      tokens : ℤ
      tokens = tokens_found per_minute now bucket

      c : ℕ
      c = cost_parts per_minute (at_least_one cost)

acquire-later :
    (per_minute : ℕ) (env : Surroundings) (cost fuel now : ℕ) (bucket : Option Bucket)
    (r : ℕ × Bucket)
    → acquire env per_minute cost fuel now bucket ≡ some r
    → now ≤ r.0
unfolding acquire
acquire-later per_minute env cost zero now bucket r h = absurd (cc)
acquire-later per_minute env cost (suc fuel) now bucket r h =
    go (script per_minute now (at_least_one cost) bucket)
      (λ at b e. acquire-later per_minute env cost fuel at b r e) h
  where
    go :
        (s : ℕ × Bucket)
        → ((at : ℕ) (b : Option Bucket) → acquire env per_minute cost fuel at b ≡ some r → at ≤ r.0)
        → (if leb s.0 0
            then some (now, s.1)
            else acquire env per_minute cost fuel
                (now + s.0 + 1 + env.lag fuel)
                (env.others fuel s.1))
          ≡ some r
        → now ≤ r.0
    go (w, b) later e = elim (Bool-cases (leb w 0)) [
      | inl granted ↦ omega (arith, ap (λ p. p.0) (some-injective _ r (rw granted at e)))
      | inr refused ↦ omega (arith, later _ _ (rw refused at e))
    ]

LeftBefore-later :
    (per_minute now t : ℕ) (bucket : Option Bucket)
    → now ≤ t
    → LeftBefore per_minute now bucket
    → LeftBefore per_minute t bucket
LeftBefore-later per_minute now t none h k = tt
LeftBefore-later per_minute now t (some b) h (f, k) = (f, omega arith)

-- A worker that no other worker draws against is granted both its request and its tokens, after at
-- most one sleep for each.
pub acquire_model-alone :
    (env_r env_t : Surroundings) (limits : Limits) (est_tokens now : ℕ)
    (requests tokens : Option Bucket)
    → 0 < limits.rpm
    → 0 < limits.tpm
    → ((n : ℕ) (b : Bucket) → env_r.others n b ≡ some b)
    → ((n : ℕ) (b : Bucket) → env_t.others n b ≡ some b)
    → LeftBefore limits.rpm now requests
    → LeftBefore limits.tpm now tokens
    → is_some (acquire_model env_r env_t limits est_tokens 2 now requests tokens) ≡ true
unfolding acquire_model
acquire_model-alone env_r env_t limits est_tokens now requests tokens p q alone_r alone_t h k =
    >>=-is_some (acquire env_r limits.rpm 1 2 now requests) _
      (acquire-alone limits.rpm p env_r 1 now requests alone_r h)
      (λ r e.
        >>=-is_some (acquire env_t limits.tpm est_tokens 2 r.0 tokens) _
          (acquire-alone limits.tpm q env_t est_tokens r.0 tokens alone_t (
            LeftBefore-later limits.tpm now r.0 tokens
              (acquire-later limits.rpm env_r 1 2 now requests r e) k))
          (λ t e'. refl))
