-- ===== src/Redis/CircuitBreaker.antt =====
-- CIRCUIT_BREAKER_LUA of gateflow/redis_client.py, and gateflow/circuit_breaker.py. The settings
-- `circuit_breaker_window_seconds` and `circuit_breaker_open_duration` count microseconds here, as
-- the clock does, so that the script's arithmetic is exact; the times that it stores are rounded as
-- `tostring` does. A difference of times is compared by a sum.
pub mod Periods
pub mod Transitions
use gate_flow.Prelude.{
  ℕ, ◌+◌, ◌-◌, ◌/◌, Bool, true, false, Option, none, some, leb, ltb, if◌then◌else◌,
}
use gate_flow.Redis.Key.{Key, read, expire, second}
use gate_flow.Redis.Tostring.{tostring}

pub data Circuit : Type 0 where
  closed open_ half_open : Circuit

-- The fields of the hash; a missing `state` reads as closed, the others as 0.
pub record Hash : Type 0 where
  pub state : Circuit
  pub failure_count : ℕ
  pub last_failure : ℕ
  pub last_success : Option ℕ

abbrev pub missing : Hash
missing = record { state = closed; failure_count = 0; last_failure = 0; last_success = none }

pub record Config : Type 0 where
  pub threshold : ℕ
  pub window : ℕ
  pub open_dur : ℕ

-- CircuitState: the state and the time until the next probe.
pub record CircuitState : Type 0 where
  pub state : Circuit
  pub retry_after : ℕ

abbrev pub stored : Option Hash → Hash
stored none = missing
stored (some r) = r

-- The state that a call at `now` finds.
abbrev pub state_at : ℕ → Option (Key Hash) → Circuit
state_at now k = (stored (read now k)).state

module _ (config : Config) where
  open config use {threshold, window, open_dur}

  -- `math.ceil(open_dur + window) + 60`, in seconds.
  unfoldable pub ttl : ℕ
  ttl = (open_dur + window + (second - 1)) / second + 60

  -- `EXPIRE` on a key that may be missing.
  abbrev pub touch : ℕ → Option Hash → Option (Key Hash)
  touch now none = none
  touch now (some r) = some (expire now ttl r)

  -- The branch `op == 'check'`, on the stored state.
  unfoldable pub check_state : ℕ → Option Hash → Circuit → Option (Key Hash) × CircuitState
  check_state now r open_ =
      let c = stored r in
      if leb (c.last_failure + open_dur) now
      then (
        some (expire now ttl (record c { state = half_open; failure_count = 0 })),
        record { state = half_open; retry_after = 0 },
      )
      else (touch now r, record { state = open_; retry_after = c.last_failure + open_dur - now })
  check_state now r s = (touch now r, record { state = s; retry_after = 0 })

  unfoldable pub check_circuit : ℕ → Option (Key Hash) → Option (Key Hash) × CircuitState
  check_circuit now k = check_state now (read now k) (stored (read now k)).state

  -- A failure that is not the probe's.
  unfoldable pub count_failure : ℕ → Hash → Hash
  count_failure now c =
      let count = if ltb (c.last_failure + window) now then 1 else c.failure_count + 1 in
      record c {
        state = if leb threshold count then open_ else c.state;
        failure_count = count;
        last_failure = tostring now;
      }

  -- The branch `op == 'report'` with a result other than success, on the stored state.
  unfoldable pub report_failure : ℕ → Hash → Circuit → Hash
  report_failure now c half_open = record c {
    state = open_;
    failure_count = 1;
    last_failure = tostring now;
  }
  report_failure now c s = count_failure now c

  unfoldable pub report_circuit : ℕ → (success : Bool) → Option (Key Hash) → Key Hash × Circuit
  report_circuit now true k =
      let c = stored (read now k) in
      (
        expire now ttl
            (record c { state = closed; failure_count = 0; last_success = some (tostring now) }),
        closed,
      )
  report_circuit now false k =
      let c = stored (read now k) in
      let c' = report_failure now c c.state in (expire now ttl c', c'.state)
