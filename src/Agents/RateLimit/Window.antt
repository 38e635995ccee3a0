-- ===== src/Agents/RateLimit/Window.antt =====
-- How much the bucket grants in a stretch of time.
use asymmetric_committee.Base.{
  ℕ, ◌+◌, ◌*◌, ◌≤◌, ◌≡◌, refl, ap, subst, sym, Option, none, some, List, [], ◌∷◌, if◌then◌else◌,
  leb, arith,
}
use asymmetric_committee.Base.Int.{pos_part, neg_part}
use asymmetric_committee.Agents.RateLimit.{Bucket, parts, expiry, tokens_found, script, cost_parts}

-- A call of the script: its instant and its cost
abbrev pub Call : Type 0
Call = ℕ × ℕ

-- What a sequence of calls, of any workers, is granted, in parts
unfoldable pub spent : ℕ → List Call → Option Bucket → ℕ
spent per_minute [] bucket = 0
spent per_minute ((now, cost) ∷ calls) bucket =
    let (wait_ms, b) = script per_minute now cost bucket in
    (if leb wait_ms 0 then cost_parts per_minute cost else 0) + spent per_minute calls (some b)

-- The instants lie between two, in order.
abbrev pub Within : ℕ → List Call → ℕ → Type 0
Within first [] last = first ≤ last
Within first ((now, _) ∷ calls) last = (first ≤ now) × Within now calls last

-- No tokens are owed, and there are no more than fit.
abbrev pub Filled : ℕ → Bucket → Type 0
Filled per_minute b = (neg_part b.tokens ≡ 0) × (pos_part b.tokens ≤ parts * per_minute)

pub mul_mono : (a b k : ℕ) → a ≤ b → a * k ≤ b * k
mul_mono a b k h = grind arith

mul_expired : (a now k : ℕ) → a + expiry ≤ now → a * k + expiry * k ≤ now * k
mul_expired a now k h = grind (arith, mul_mono (a + expiry) now k h)

module _ (per_minute : ℕ) where
  -- what the script finds at a later instant
  tokens_found-bound :
      (now : ℕ) (b : Bucket)
      → Filled per_minute b
      → b.ts ≤ now
      → (neg_part (tokens_found per_minute now (some b)) ≡ 0)
        × (pos_part (tokens_found per_minute now (some b)) ≤ parts * per_minute)
        × (pos_part (tokens_found per_minute now (some b)) + b.ts * per_minute
            ≤ pos_part b.tokens + now * per_minute)
  unfolding tokens_found
  tokens_found-bound now b f h =
      ground (arith, mul_mono b.ts now per_minute h, mul_expired b.ts now per_minute)

  script-bound :
      (now cost : ℕ) (bucket : Option Bucket)
      → neg_part (tokens_found per_minute now bucket) ≡ 0
      → pos_part (tokens_found per_minute now bucket) ≤ parts * per_minute
      → let (w, b) = script per_minute now cost bucket in
        Filled per_minute b
        × (b.ts ≡ now)
        × ((if leb w 0 then cost_parts per_minute cost else 0) + pos_part b.tokens
            ≤ pos_part (tokens_found per_minute now bucket))
  unfolding script
  script-bound now cost bucket n f = ground arith

  spent_from :
      (calls : List Call) (b : Bucket) (last : ℕ)
      → Filled per_minute b
      → Within b.ts calls last
      → spent per_minute calls (some b) + b.ts * per_minute ≤ pos_part b.tokens + last * per_minute
  unfolding spent
  spent_from [] b last f w = omega (arith, mul_mono b.ts last per_minute w)
  spent_from ((now, cost) ∷ calls) b last f (later, w) =
      let (n, m, k) = tokens_found-bound now b f later in
      let (f', at, q) = script-bound now cost (some b) n m in
      omega (
        arith,
        k,
        q,
        ap (λ t. t * per_minute) at,
        spent_from calls _ last f' (subst (λ t. Within t calls last) (sym at) w),
      )

  -- A bucket that such scripts left at an earlier instant, or none
  abbrev pub LeftBefore : ℕ → Option Bucket → Type 0
  LeftBefore now none = Unit
  LeftBefore now (some b) = Filled per_minute b × (b.ts ≤ now)

  pub tokens_found-Filled :
      (now : ℕ) (bucket : Option Bucket)
      → LeftBefore now bucket
      → (neg_part (tokens_found per_minute now bucket) ≡ 0)
        × (pos_part (tokens_found per_minute now bucket) ≤ parts * per_minute)
  unfolding tokens_found
  tokens_found-Filled now none h = (refl, omega arith)
  tokens_found-Filled now (some b) h = let (n, m, _) = tokens_found-bound now b h.0 h.1 in (n, m)

  -- However many workers share it, in a stretch of time that begins with a call and whose calls
  -- come in order, a bucket grants at most what it holds when full and what that time refills.
  pub spent-bound :
      (first last cost : ℕ) (calls : List Call) (bucket : Option Bucket)
      → LeftBefore first bucket
      → Within first calls last
      → spent per_minute ((first, cost) ∷ calls) bucket + first * per_minute
        ≤ parts * per_minute + last * per_minute
  unfolding spent
  spent-bound first last cost calls bucket h w =
      let (n, m) = tokens_found-Filled first bucket h in
      let (f, at, q) = script-bound first cost bucket n m in
      omega (
        arith,
        q,
        m,
        ap (λ t. t * per_minute) at,
        spent_from calls _ last f (subst (λ t. Within t calls last) (sym at) w),
      )
