-- ===== src/Redis/Quota.antt =====
-- MONTHLY_QUOTA_RESERVE_LUA and MONTHLY_QUOTA_REFUND_LUA of gateflow/redis_client.py, on the
-- counter of one user and month, and their callers in gateflow/governance.py.
pub mod Counting
pub mod Month
pub mod History
use gate_flow.Prelude.{
  ℕ, zero, suc, ◌+◌, ◌-◌, ◌*◌, ◌/◌, ◌%◌, Bool, true, false, ◌&&◌, ◌||◌, not, Option, none, some,
  leb, ltb, ◌==◌, if◌then◌else◌,
}
use gate_flow.Prelude.Int.{ℤ, pos, negsuc}
use gate_flow.Redis.Key.{Key, read, expire, second}

-- The reply `{allowed, count}`.
pub record Reply : Type 0 where
  pub allowed : Bool
  pub count : ℕ

-- The expiry of a key that is there at `now`.
abbrev pub expiry : Option (Key ℕ) → Option ℕ
expiry none = none
expiry (some k) = k.expires_at

-- `INCR`, which keeps the time to live, then `EXPIRE` on a new count of 1. The argument before the
-- key is what the key holds.
unfoldable pub incr : ℕ → ℕ → Option ℕ → Option (Key ℕ) → Key ℕ
incr now ttl none k = expire now ttl 1
incr now ttl (some n) k =
    if n + 1 == 1 then expire now ttl 1 else record { value = n + 1; expires_at = expiry k }

abbrev pub decr : Key ℕ → Key ℕ
decr k = record { value = k.value - 1; expires_at = k.expires_at }

-- The part of the reservation behind its first test.
unfoldable pub take_one : ℕ → ℕ → ℕ → Option ℕ → Option (Key ℕ) → Key ℕ × Reply
take_one now ttl quota held k =
    let k' = incr now ttl held k in
    if ltb quota k'.value
    then (decr k', record { allowed = false; count = k'.value - 1 })
    else (k', record { allowed = true; count = k'.value })

abbrev pub stored : Key ℕ × Reply → Option (Key ℕ) × Reply
stored (k, r) = (some k, r)

unfoldable pub reserve_held : ℕ → ℕ → ℕ → Option ℕ → Option (Key ℕ) → Option (Key ℕ) × Reply
reserve_held now ttl quota none k = stored (take_one now ttl quota none k)
reserve_held now ttl quota (some n) k =
    if leb quota n
    then (k, record { allowed = false; count = n })
    else stored (take_one now ttl quota (some n) k)

-- The reservation script.
unfoldable pub reserve : ℕ → ℕ → ℕ → Option (Key ℕ) → Option (Key ℕ) × Reply
reserve now ttl quota k = reserve_held now ttl quota (read now k) k

-- The refund script: `DECR` counts a missing key as 0; `SET` makes a key without a time to live.
unfoldable pub refund_held : Option ℕ → Option (Key ℕ) → Key ℕ
refund_held (some (suc n)) k = record { value = n; expires_at = expiry k }
refund_held _ k = record { value = 0; expires_at = none }

unfoldable pub refund : ℕ → Option (Key ℕ) → Key ℕ
refund now k = refund_held (read now k) k

-- reserve_monthly_quota: a quota that is not positive is no limit, and leaves the counter alone.
unfoldable pub reserve_monthly_quota : ℕ → ℕ → ℤ → Option (Key ℕ) → Option (Key ℕ) × Bool
reserve_monthly_quota now ttl (pos (suc q)) k =
    let (k', r) = reserve now ttl (suc q) k in (k', r.allowed)
reserve_monthly_quota now ttl _ k = (k, true)

-- `int(raw or 0)`
abbrev pub usage : Option ℕ → ℕ
usage none = 0
usage (some n) = n

-- get_monthly_usage
abbrev pub get_monthly_usage : ℕ → Option (Key ℕ) → ℕ
get_monthly_usage now k = usage (read now k)

-- The days of a month, as calendar.monthrange counts them.
unfoldable pub is_leap : ℕ → Bool
is_leap year = (year % 4 == 0) && (not (year % 100 == 0) || (year % 400 == 0))

unfoldable pub last_day : (year month : ℕ) → ℕ
last_day year month =
    if month == 2
    then (if is_leap year then 29 else 28)
    else if month == 4 || month == 6 || month == 9 || month == 11
    then 30
    else 31

-- _seconds_until_month_end, for a time in microseconds since the month began: `end` is 23:59:59 of
-- the last day.
abbrev pub month_end : ℕ → ℕ
month_end days = ((days - 1) * 86400 + 86399) * second

unfoldable pub seconds_until_month_end : (days now : ℕ) → ℕ
seconds_until_month_end days now =
    if ltb (month_end days) now then 1 else (month_end days - now) / second
