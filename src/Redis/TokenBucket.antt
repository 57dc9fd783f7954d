-- ===== src/Redis/TokenBucket.antt =====
-- TOKEN_BUCKET_LUA of gateflow/redis_client.py, and gateflow/rate_limiter.py. The script's arithmetic
-- is exact here, and what it stores is rounded as `tostring` does: times count microseconds, as TIME
-- does, `refill_rate` counts millionths of a token per second, and token amounts count 10^-12 of a
-- token, so that a time by a rate is an amount.
pub mod Refill
pub mod Bounds
use gate_flow.Prelude.{
  ℕ, ◌+◌, ◌-◌, ◌*◌, ◌/◌, Bool, true, false, Option, none, some, leb, ltb, ◌==◌, if◌then◌else◌,
}
use gate_flow.Prelude.Int.{ℤ, pos, pos_part, sub_ℕ, ◌+ℤ◌, ◌-ℤ◌, scale, min_ℤ, leb_ℤ}
use gate_flow.Redis.Key.{Key, read, expire}
use gate_flow.Redis.Tostring.{tostring, tostring_ℤ}

-- One token.
abbrev pub token : ℕ
token = 1000000000000

pub record Bucket : Type 0 where
  pub tokens : ℤ
  pub last_time : ℕ

-- Seconds as an exact fraction; `forever` is the float infinity of a division by zero.
pub data Wait : Type 0 where
  seconds : (num den : ℕ) → Wait
  forever : Wait

-- RateLimitResult
pub record Verdict : Type 0 where
  pub allowed : Bool
  pub remaining : ℤ
  pub retry_after : Wait

pub record Limit : Type 0 where
  pub capacity : ℕ
  pub refill_rate : ℕ

-- math.ceil(a / b)
unfoldable pub div_ceil : ℕ → ℕ → ℕ
div_ceil a b = (a + (b - 1)) / b

-- `(cost - new_tokens) / refill_rate`, for a positive numerator.
unfoldable pub wait_for : ℕ → ℕ → Wait
wait_for missing rate = if rate == 0 then forever else seconds missing (rate * 1000000)

module _ (limit : Limit) where
  open limit use {capacity, refill_rate}

  -- The bucket that the script works on: a missing one is full.
  unfoldable pub load : ℕ → Option Bucket → Bucket
  load now none = record { tokens = pos (capacity * token); last_time = now }
  load now (some b) = b

  -- `math.min(capacity, tokens + delta * refill_rate)`, where the clock may have gone back.
  unfoldable pub refill : ℕ → Bucket → ℤ
  refill now b =
      min_ℤ (pos (capacity * token)) (b.tokens +ℤ scale (sub_ℕ now b.last_time) refill_rate)

  unfoldable pub ttl : ℕ
  ttl = if ltb 0 refill_rate then div_ceil (capacity * 1000000) refill_rate + 60 else 86400

  -- The test of the script, on the refilled amount. The wait is the quotient itself, before it is written.
  unfoldable pub decide : ℕ → ℤ → Verdict
  decide cost new_tokens =
      if leb_ℤ (pos (cost * token)) new_tokens
      then record {
        allowed = true;
        remaining = tostring_ℤ (new_tokens -ℤ pos (cost * token));
        retry_after = seconds 0 1;
      }
      else record {
        allowed = false;
        remaining = tostring_ℤ new_tokens;
        retry_after = wait_for (pos_part (pos (cost * token) -ℤ new_tokens)) refill_rate;
      }

  -- The script: the stored bucket and what it returns.
  unfoldable pub token_bucket : ℕ → ℕ → Option Bucket → Bucket × Verdict
  token_bucket cost now stored =
      let verdict = decide cost (refill now (load now stored)) in
      (record { tokens = verdict.remaining; last_time = tostring now }, verdict)

  -- check_rate_limit: the script on the key, with its time to live.
  unfoldable pub check_rate_limit : ℕ → ℕ → Option (Key Bucket) → Key Bucket × Verdict
  check_rate_limit cost now key =
      let (bucket, verdict) = token_bucket cost now (read now key) in
      (expire now ttl bucket, verdict)
