-- ===== src/Models.antt =====
-- APIKeyRecord and TierConfig of gateflow/models.py, as far as requests use them, and
-- `resolve_rate_limits` and AuthError of gateflow/auth.py. Rates count millionths of a token per
-- second.
use gate_flow.Prelude.{ℕ, suc, ◌*◌, Bool, Option, none, some, ◌==◌, if◌then◌else◌}
use gate_flow.Prelude.Int.{ℤ, pos}
use gate_flow.Prelude.Text.{Text, codes}
use gate_flow.Redis.TokenBucket.{Limit}

-- `expires_at` counts seconds, as time.time() does.
pub record KeyRecord : Type 0 where
  pub user_id : Text
  pub tier : Text
  pub active : Bool
  pub expires_at : Option ℕ
  pub rate_limit_custom : ℤ
  pub rate_limit_custom_refill : Option ℕ
  pub request_count_lifetime : ℤ
  pub allowed_ips : Text

pub record Tier : Type 0 where
  pub capacity : ℕ
  pub refill_rate : ℕ
  pub monthly_quota : ℤ

-- The AuthErrors that `authenticate` raises.
pub data AuthError : Type 0 where
  invalid inactive expired wrong_address : AuthError

unfoldable pub status_code : AuthError → ℕ
status_code AuthError.wrong_address = 403
status_code _ = 401

unfoldable pub detail : AuthError → Text
detail AuthError.invalid = codes "Invalid or missing API key"
detail AuthError.inactive = codes "API key is inactive"
detail AuthError.expired = codes "API key has expired"
detail AuthError.wrong_address = codes "API key not allowed from this IP address"

-- `refill or custom`
abbrev pub refill_or : Option ℕ → ℕ → ℕ
refill_or none custom = custom
refill_or (some n) custom = if n == 0 then custom else n

unfoldable pub limits_of : ℤ → Option ℕ → Tier → Limit
limits_of (pos (suc n)) refill tier = record {
  capacity = suc n;
  refill_rate = refill_or refill (suc n) * 1000000;
}
limits_of _ refill tier = record { capacity = tier.capacity; refill_rate = tier.refill_rate }

unfoldable pub resolve_rate_limits : KeyRecord → Tier → Limit
unfolding limits_of
resolve_rate_limits r tier = limits_of r.rate_limit_custom r.rate_limit_custom_refill tier

-- What `authenticate` returns, or raises.
pub data Authed : Type 0 where
  refused : AuthError → Authed
  known : KeyRecord → Tier → (key_id : Text) → Authed
