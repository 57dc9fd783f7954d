-- ===== src/Redis/Tests.antt =====
-- Runs of the scripts, and their theorems at concrete inputs.
use gate_flow.Prelude.{
  ◌+◌, ◌≤◌, ◌≡◌, refl, true, false, none, some, [], ◌∷◌, arith, ltb, if◌then◌else◌,
}
use gate_flow.Prelude.Int.{pos, ◌+ℤ◌, ◌-ℤ◌, scale, min_ℤ}
use gate_flow.Redis.Tostring.{tostring, tostring_ℤ, unit_from, round_to}
use gate_flow.Redis.Key.{Key, read, expire}
use gate_flow.Redis.TokenBucket.{
  Bucket, seconds, Verdict, Limit, div_ceil, wait_for, load, refill, decide, token_bucket,
  check_rate_limit,
}
use gate_flow.Redis.TokenBucket
use gate_flow.Redis.CircuitBreaker
use gate_flow.Redis.CircuitBreaker.{
  closed, open_, half_open, Hash, Config, CircuitState, check_state, check_circuit, count_failure,
  report_failure, report_circuit, state_at,
}
use gate_flow.Redis.CircuitBreaker.Periods.{total, fail_all, open_period, opens_at_threshold}
use gate_flow.Redis.Quota.{
  incr, take_one, reserve_held, reserve, refund_held, refund, get_monthly_usage, is_leap, last_day,
  seconds_until_month_end,
}
use gate_flow.Redis.Quota.Counting.{reserve_exact}
use gate_flow.Redis.Quota.History.{reservation, refunding, grants, refunds}
use gate_flow.Redis.Quota.Month.{month_bound}

scripts : Unit {0}
unfolding tostring tostring_ℤ unit_from round_to read expire ◌+ℤ◌ ◌-ℤ◌ scale min_ℤ div_ceil wait_for
    load refill TokenBucket.ttl decide token_bucket check_rate_limit CircuitBreaker.ttl check_state
    check_circuit count_failure report_failure report_circuit incr take_one reserve_held reserve
    refund_held refund is_leap last_day seconds_until_month_end
scripts = tt

-- Two tokens, half a token each second.
abbrev slow : Limit
slow = record { capacity = 2; refill_rate = 500000 }

abbrev spent_key : Key Bucket
spent_key = record {
  value = record { tokens = pos 0; last_time = 5000000 };
  expires_at = some 69000000;
}

bucket_runs :
    (check_rate_limit slow 2 5000000 none
      ≡ (spent_key, record { allowed = true; remaining = pos 0; retry_after = seconds 0 1 }))
    × ((check_rate_limit slow 1 5500000 (some spent_key)).1 ≡ record {
      allowed = false;
      remaining = pos 250000000000;
      retry_after = seconds 750000000000 500000000000;
    })
unfolding scripts
bucket_runs = (refl, refl)

-- The defaults of the settings.
abbrev defaults : Config
defaults = record { threshold = 5; window = 30000000; open_dur = 30000000 }

-- Its time is 1700000000000049, as `tostring` writes it.
abbrev opened : Hash
opened = record {
  state = open_;
  failure_count = 5;
  last_failure = 1700000000000000;
  last_success = none;
}

written_time : tostring 1700000000000049 ≡ 1700000000000000
unfolding tostring unit_from round_to
written_time = refl

open_period_example :
    ((check_circuit defaults
        (1700000000000049 + 10000000)
        (some (expire 1700000000000049 (CircuitBreaker.ttl defaults) opened))).1
      ≡ record { state = open_; retry_after = 19999951 })
    × ((1700000000000049 ≤ 1700000000000000 + 50) × (1700000000000000 ≤ 1700000000000049 + 50))
unfolding tostring unit_from round_to
open_period_example = open_period defaults 1700000000000049 10000000 opened refl refl (omega arith)

opens_at_threshold_example :
    state_at
      (total 0 (90000000 ∷ 1 ∷ 1 ∷ 1 ∷ 1 ∷ []))
      (fail_all defaults 0 none (90000000 ∷ 1 ∷ 1 ∷ 1 ∷ 1 ∷ []))
    ≡ open_
unfolding read total
opens_at_threshold_example =
    opens_at_threshold defaults 0 none 90000000 (1 ∷ 1 ∷ 1 ∷ 1 ∷ []) refl (ground arith)
      (ground arith)

reserve_exact_example :
    let used = get_monthly_usage 7 (some (expire 5 9 3)) in
    let (k', reply) = reserve 7 9 3 (some (expire 5 9 3)) in
    (reply.allowed ≡ ltb used 3)
    × (get_monthly_usage 7 k' ≡ (if ltb used 3 then used + 1 else used))
    × (reply.allowed ≡ false → k' ≡ some (expire 5 9 3))
reserve_exact_example = reserve_exact 7 9 3 (some (expire 5 9 3)) (omega arith) (omega arith)

month_bound_example :
    grants (seconds_until_month_end 31) 2 0 none (
      (5, reservation)
      ∷ (5, reservation)
      ∷ (5, refunding)
      ∷ (5, reservation)
      ∷ (5, reservation)
      ∷ [])
    ≤ 2
      + refunds (
          (5, reservation)
          ∷ (5, reservation)
          ∷ (5, refunding)
          ∷ (5, reservation)
          ∷ (5, reservation)
          ∷ [])
month_bound_example =
    month_bound 31 2 0
      ((5, reservation)
        ∷ (5, reservation)
        ∷ (5, refunding)
        ∷ (5, reservation)
        ∷ (5, reservation)
        ∷ [])
      (omega arith) (omega arith) (ground arith)
