-- ===== src/Redis/CircuitBreaker/Periods.antt =====
-- When a circuit opens, and for how long it stays open.
use gate_flow.Prelude.{
  ℕ, ◌+◌, ◌-◌, ◌*◌, ◌≤◌, ◌<◌, ◌≡◌, ap, ◌∙◌, false, Option, none, some, List, [], ◌∷◌, arith, leb,
  ltb, if◌then◌else◌, All, length, Bool-cases, inl, inr,
}
use gate_flow.Redis.Key.{Key, read, expire, second}
use gate_flow.Redis.Tostring.{tostring, tostring-IsClose}
use gate_flow.Redis.CircuitBreaker.{
  Circuit, closed, open_, half_open, Hash, Config, ttl, stored, check_state, check_circuit,
  count_failure, report_failure, report_circuit, state_at,
}

-- The time of the last failure.
unfoldable pub total : ℕ → List ℕ → ℕ
total now [] = now
total now (d ∷ ds) = total (now + d) ds

total-ge : (now : ℕ) (ds : List ℕ) → now ≤ total now ds
unfolding total
total-ge now [] = omega arith
total-ge now (d ∷ ds) = omega (arith, total-ge (now + d) ds)

module _ (config : Config) where
  open config use {threshold, window, open_dur}

  pub ttl_long : window + open_dur + second < ttl config * second
  unfolding ttl
  ttl_long = omega arith

  -- A key that was written at `t` reads as written until its time to live is over.
  pub read-expire :
      (t d : ℕ) (c : Hash)
      → read (t + d) (some (expire t (ttl config) c))
        ≡ (if ltb d (ttl config * second) then some c else none)
  unfolding read expire
  read-expire t d c = ground arith

  read_live :
      (t d : ℕ) (c : Hash)
      → d < ttl config * second
      → read (t + d) (some (expire t (ttl config) c)) ≡ some c
  read_live t d c h = rw (read-expire t d c) (ground arith)

  pub read_now : (t : ℕ) (c : Hash) → read t (some (expire t (ttl config) c)) ≡ some c
  unfolding read expire
  read_now t c = ground (arith, ttl_long)

  -- The state after `n` failures since the circuit was last closed.
  abbrev pub counted : ℕ → Circuit
  counted n = if leb threshold n then open_ else closed

  -- What `n` failures leave, the last of them at `t`.
  abbrev failed : ℕ → ℕ → Option ℕ → Hash
  failed n t s = record {
    state = counted n;
    failure_count = n;
    last_failure = tostring t;
    last_success = s;
  }

  abbrev written : ℕ → ℕ → Option ℕ → Key Hash
  written n t s = expire t (ttl config) (failed n t s)

  counted-plain :
      (now : ℕ) (c : Hash) (n : ℕ)
      → report_failure config now c (counted n) ≡ count_failure config now c
  unfolding report_failure
  counted-plain now c n = ground arith

  next_failure :
      (n t d : ℕ) (s : Option ℕ)
      → d + 50 ≤ window
      → t < 10000000000000000
      → report_circuit config (t + d) false (some (written n t s))
        ≡ (written (n + 1) (t + d) s, counted (n + 1))
  unfolding report_circuit
  next_failure n t d s h small =
      let close = (tostring-IsClose t small).below in
      let within : ltb (tostring t + window) (t + d) ≡ false = ground (arith, close, h) in
      rw (read_live t d (failed n t s) (omega (arith, h, ttl_long)), counted-plain)
        (unfold count_failure in rw within (ground arith))

  -- Failures one after the other, each with the time since the last one.
  unfoldable pub fail_all : ℕ → Option (Key Hash) → List ℕ → Option (Key Hash)
  fail_all now k [] = k
  fail_all now k (d ∷ ds) = fail_all (now + d) (some (report_circuit config (now + d) false k).0) ds

  fail_all-written :
      (ds : List ℕ) (n t : ℕ) (s : Option ℕ)
      → All (λ d. d + 50 ≤ window) ds
      → total t ds < 10000000000000000
      → fail_all t (some (written n t s)) ds ≡ some (written (length ds + n) (total t ds) s)
  unfolding fail_all total
  fail_all-written [] n t s h small = ap (λ m. some (written m t s)) (omega arith)
  fail_all-written (d ∷ ds) n t s h small =
      rw (next_failure n t d s h.0 (omega (arith, small, total-ge (t + d) ds))) (
        fail_all-written ds (n + 1) (t + d) s h.1 small
        ∙ ap (λ m. some (written m (total (t + d) ds) s)) (omega arith))

  first_failure :
      (t : ℕ) (k : Option (Key Hash))
      → read t k ≡ none
      → report_circuit config t false k ≡ (written 1 t none, counted 1)
  unfolding report_circuit report_failure count_failure
  first_failure t k h = rw h (ground arith)

  checked_open :
      (t d : ℕ) (c : Hash)
      → c.state ≡ open_
      → c.last_failure ≡ tostring t
      → tostring t ≤ t + 50
      → (check_circuit config (t + d) (some (expire t (ttl config) c))).1 ≡ (
          if ltb (t + d) (tostring t + open_dur)
          then record { state = open_; retry_after = tostring t + open_dur - (t + d) }
          else if ltb d (ttl config * second)
          then record { state = half_open; retry_after = 0 }
          else record { state = closed; retry_after = 0 })
  unfolding check_circuit check_state
  checked_open t d c o l close = elim (Bool-cases (ltb d (ttl config * second))) [
    | inl live ↦ simp (read-expire t d c, live, o) (ground (arith, l, ttl_long, close))
    | inr gone ↦ simp (read-expire t d c, gone) (ground (arith, ttl_long, close))
  ]

  -- What the caller of a check sees `d` microseconds after the report that opened it, which wrote
  -- its time with 14 digits: open, with the time that is left from the written one; then half open;
  -- and, when the time to live is over with no call between, closed. The open period is at most 50
  -- microseconds shorter or longer than the settings say. The times are below 10^16.
  pub open_period :
      (t d : ℕ) (c : Hash)
      → c.state ≡ open_
      → c.last_failure ≡ tostring t
      → t < 10000000000000000
      → let opened = tostring t in
        ((check_circuit config (t + d) (some (expire t (ttl config) c))).1 ≡ (
          if ltb (t + d) (opened + open_dur)
          then record { state = open_; retry_after = opened + open_dur - (t + d) }
          else if ltb d (ttl config * second)
          then record { state = half_open; retry_after = 0 }
          else record { state = closed; retry_after = 0 }))
        × ((t ≤ opened + 50) × (opened ≤ t + 50))
  open_period t d c o l small =
      let close = tostring-IsClose t small in
      (checked_open t d c o l close.above, (close.below, close.above))

  -- From a missing key, or one whose time is over, failures that follow one another within the
  -- window, less the 50 microseconds by which a written time may be off, and before 10^16, leave the circuit open exactly if their number reaches the threshold, and closed
  -- otherwise.
  pub opens_at_threshold :
      (now : ℕ) (k : Option (Key Hash)) (d : ℕ) (ds : List ℕ)
      → read (now + d) k ≡ none
      → All (λ e. e + 50 ≤ window) ds
      → total now (d ∷ ds) < 10000000000000000
      → state_at (total now (d ∷ ds)) (fail_all now k (d ∷ ds)) ≡ counted (length (d ∷ ds))
  unfolding fail_all total
  opens_at_threshold now k d ds gone h small =
      rw (first_failure (now + d) k gone, fail_all-written ds 1 (now + d) none h small)
        (ap (λ r. (stored r).state) (read_now (total (now + d) ds) (failed (length ds + 1) _ none))
          ∙ ap counted (omega arith))
