-- ===== src/Agents/RateLimit.antt =====
-- agents/llm/ratelimit.py: the token bucket in Redis, with its script. Floats are exact: an amount
-- of units is kept in parts of 1/60000, so that a millisecond refills `per_minute` parts. An instant
-- is Redis's own, in milliseconds.
pub mod Window
pub mod Wait
mod Tests
use asymmetric_committee.Base.{
  ℕ, zero, suc, ◌+◌, ◌-◌, ◌*◌, ◌/◌, Bool, Option, none, some, List, [], ◌∷◌, if◌then◌else◌, ltb,
  leb,
}
use asymmetric_committee.Base.Options.{◌>>=◌}
use asymmetric_committee.Base.Int.{ℤ, pos, negsuc, pos_part, neg_part, sub_ℕ, ltb_ℤ}

-- The hash at the key: `tokens` and `ts`
pub record Bucket : Type 0 where
  pub tokens : ℤ
  pub ts : ℕ

abbrev pub parts : ℕ
parts = 60000

abbrev pub expiry : ℕ
expiry = 120000

abbrev pub least_ℤ : ℤ → ℤ → ℤ
least_ℤ a b = if ltb_ℤ b a then b else a

abbrev pub least : ℕ → ℕ → ℕ
least a b = if ltb b a then b else a

-- `math.ceil(d / rate)`
unfoldable pub ceil_div : ℕ → ℕ → ℕ
ceil_div d rate = (d + (rate - 1)) / rate

-- The tokens that a script finds at an instant: a missing key, also one that expired, is full; a
-- clock that went back takes tokens away.
unfoldable pub tokens_found : ℕ → ℕ → Option Bucket → ℤ
tokens_found per_minute now none = pos (parts * per_minute)
tokens_found per_minute now (some b) =
    if leb (b.ts + expiry) now
    then pos (parts * per_minute)
    else least_ℤ (pos (parts * per_minute))
        (sub_ℕ (pos_part b.tokens + now * per_minute) (neg_part b.tokens + b.ts * per_minute))

abbrev pub cost_parts : ℕ → ℕ → ℕ
cost_parts per_minute cost = least (parts * cost) (parts * per_minute)

-- `tokens >= cost`
abbrev pub affords : ℤ → ℕ → Bool
affords tokens cost = leb (cost + neg_part tokens) (pos_part tokens)

-- `_BUCKET`: the milliseconds to wait, none when the cost is granted, and the bucket
unfoldable pub script : ℕ → ℕ → ℕ → Option Bucket → ℕ × Bucket
unfolding tokens_found ceil_div
script per_minute now cost bucket =
    let tokens = tokens_found per_minute now bucket in
    let c = cost_parts per_minute cost in
    if affords tokens c then (0, record { tokens = pos (pos_part tokens - c); ts = now }) else (
      ceil_div (c + neg_part tokens - pos_part tokens) per_minute,
      record { tokens = tokens; ts = now },
    )

-- `max(cost, 1)`
abbrev pub at_least_one : ℕ → ℕ
at_least_one cost = if ltb cost 1 then 1 else cost

-- What happens to one worker between its scripts: how long after its sleep the next one runs, and
-- what the other workers then have made of the bucket.
pub record Surroundings : Type 0 where
  pub lag : ℕ → ℕ
  pub others : ℕ → Bucket → Option Bucket

-- `RedisTokenBucket.acquire`, from an instant, with at most `fuel` scripts: the instant and the
-- bucket of the grant
unfoldable pub acquire : Surroundings → ℕ → ℕ → ℕ → ℕ → Option Bucket → Option (ℕ × Bucket)
unfolding script
acquire env per_minute cost zero now bucket = none
acquire env per_minute cost (suc fuel) now bucket =
    let (wait_ms, b) = script per_minute now (at_least_one cost) bucket in
    let rest =
      acquire env per_minute cost fuel (now + wait_ms + 1 + env.lag fuel) (env.others fuel b) in
    if leb wait_ms 0 then some (now, b) else rest

-- `RedisTokenBucket(…)`, which refuses a rate that is not positive
unfoldable pub token_bucket : ℤ → Option ℕ
token_bucket (pos per_minute) = if leb per_minute 0 then none else some per_minute
token_bucket (negsuc _) = none

-- `ModelRateLimiter`: the two rates, of requests and of tokens
pub record Limits : Type 0 where
  pub rpm : ℕ
  pub tpm : ℕ

-- `ModelRateLimiter(…)`
unfoldable pub model_rate_limiter : ℤ → ℤ → Option Limits
unfolding token_bucket
model_rate_limiter rpm tpm = do
  requests ← token_bucket rpm
  tokens ← token_bucket tpm
  some (record { rpm = requests; tpm = tokens })

-- `ModelRateLimiter.acquire`: a request, and then the tokens; each bucket with its `Surroundings`
unfoldable pub acquire_model :
    Surroundings
    → Surroundings
    → Limits
    → ℕ
    → ℕ
    → ℕ
    → Option Bucket
    → Option Bucket
    → Option (ℕ × Bucket × Bucket)
unfolding acquire
acquire_model env_r env_t limits est_tokens fuel now requests tokens = do
  (at, r) ← acquire env_r limits.rpm 1 fuel now requests
  (done, t) ← acquire env_t limits.tpm est_tokens fuel at tokens
  some (done, r, t)
