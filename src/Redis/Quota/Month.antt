-- ===== src/Redis/Quota/Month.antt =====
-- The time to live of a month's counter, in microseconds since the month began.
use gate_flow.Prelude.{ℕ, ◌+◌, ◌-◌, ◌*◌, ◌≤◌, ◌<◌, ◌≡◌, refl, true, none, some, List, arith}
use gate_flow.Redis.Key.{Key, read, second}
use gate_flow.Redis.Quota.{
  get_monthly_usage, reserve, month_end, seconds_until_month_end, last_day, is_leap,
}
use gate_flow.Redis.Quota.Counting.{reserve_granted}
use gate_flow.Redis.Quota.History.{Op, grants, refunds, Before, grants_bound}

-- The first microsecond of the next month.
abbrev pub next_month : ℕ → ℕ
next_month days = days * 86400 * second

-- A counter that is made at `now` is gone at 23:59:59 of the last day at the latest, and reaches to
-- less than a second before that.
pub expiry_bounds :
    (days now : ℕ)
    → 0 < days
    → now ≤ month_end days
    → let expires = now + seconds_until_month_end days now * second in
      (expires ≤ month_end days)
      × (month_end days < expires + second)
      × (month_end days + second ≡ next_month days)
unfolding seconds_until_month_end
expiry_bounds days now p h = ground arith

-- The counter with `n` reservations that was made at `now`.
abbrev pub made : (days now n : ℕ) → Key ℕ
made days now n = record {
  value = n;
  expires_at = some (now + seconds_until_month_end days now * second);
}

-- A counter of the month that was made by a reservation at `now` reads as missing in the last
-- second of the month, so a user whose quota is used up is granted another reservation there.
renewed_in_last_second :
    (days now later n ttl quota : ℕ)
    → 0 < days
    → now ≤ month_end days
    → month_end days ≤ later
    → 0 < quota
    → (get_monthly_usage later (some (made days now n)) ≡ 0)
      × ((reserve later ttl quota (some (made days now n))).1.allowed ≡ true)
renewed_in_last_second days now later n ttl quota p h l q =
    let gone : read later (some (made days now n)) ≡ none =
      unfold read in ground (arith, expiry_bounds days now p h) in
    let used : get_monthly_usage later (some (made days now n)) ≡ 0 = rw gone refl in
    (used, rw (reserve_granted later ttl quota (some (made days now n)) (omega (arith, used))) refl)

pub last_day_bounds : (year month : ℕ) → (28 ≤ last_day year month) × (last_day year month ≤ 31)
unfolding last_day is_leap
last_day_bounds year month = ground arith

-- For a positive quota, from no counter: the reservations of a month that are granted until
-- 23:59:58 of its last day are at most the quota and the refunds, since no counter of the month
-- expires before.
pub month_bound :
    (days quota now : ℕ) (ops : List (ℕ × Op))
    → 0 < days
    → 0 < quota
    → Before (month_end days - second + 1) now ops
    → grants (seconds_until_month_end days) quota now none ops ≤ quota + refunds ops
month_bound days quota now ops p q b =
    (grants_bound (seconds_until_month_end days) quota (month_end days - second + 1) now ops q
      (λ t h. omega (arith, expiry_bounds days t p (omega arith))) b).1
