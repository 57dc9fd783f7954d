-- ===== src/Redis/TokenBucket/Bounds.antt =====
-- What the calls on a bucket are granted together, over every sequence of calls in the order of
-- their times.
use gate_flow.Prelude.{ℕ, ◌+◌, ◌*◌, Option, some, List, [], ◌∷◌, if◌then◌else◌, length}
use gate_flow.Prelude.Int.{ℤ}
use gate_flow.Redis.Key.{Key, expire}
use gate_flow.Redis.Tostring.{tostring}
use gate_flow.Redis.TokenBucket.{token, Bucket, Verdict, Limit, ttl, load, refill, check_rate_limit}

-- The tokens that a verdict hands out.
abbrev pub granted : ℕ → Verdict → ℕ
granted cost v = if v.allowed then cost else 0

-- The time that the calls take together.
unfoldable pub elapsed : List (ℕ × ℕ) → ℕ
elapsed [] = 0
elapsed ((d, cost) ∷ calls) = d + elapsed calls

module _ (limit : Limit) where
  open limit use {capacity, refill_rate}

  -- The most that a bucket holds.
  abbrev full : ℕ
  full = capacity * token

  -- The amount that a call works on.
  abbrev amount : ℕ → Option Bucket → ℤ
  amount now b = refill limit now (load limit now b)

  -- A key that a call has written.
  abbrev written : ℕ → ℤ → Key Bucket
  written now z = expire now (ttl limit) (record { tokens = z; last_time = tostring now })

  -- Calls in the order of their times, each with the time since the last one and its cost: what
  -- they are granted together.
  unfoldable pub serve : ℕ → Option (Key Bucket) → List (ℕ × ℕ) → ℕ
  serve now k [] = 0
  serve now k ((d, cost) ∷ calls) =
      let (k', verdict) = check_rate_limit limit cost (now + d) k in
      granted cost verdict + serve (now + d) (some k') calls

  -- What comes in, and what the written numbers may be off by.
  abbrev gain : List (ℕ × ℕ) → ℕ
  gain calls = (elapsed calls + length calls * 50) * refill_rate + length calls * 50
