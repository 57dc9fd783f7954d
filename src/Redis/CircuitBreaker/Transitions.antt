-- ===== src/Redis/CircuitBreaker/Transitions.antt =====
-- How a check and a report may move a circuit.
use gate_flow.Prelude.{
  ℕ, ◌+◌, ◌≤◌, ◌<◌, ◌≡◌, ◌⊎◌, refl, sym, ap, ◌∙◌, leb→le, true, false, Option, none, some, List, [],
  ◌∷◌, arith, leb, Bool-cases, inl, inr,
}
use gate_flow.Redis.Key.{Key, read, expire}
use gate_flow.Redis.CircuitBreaker.{
  Circuit, closed, open_, half_open, Hash, Config, CircuitState, ttl, stored, touch, check_state,
  check_circuit, count_failure, report_failure, report_circuit, state_at,
}
use gate_flow.Redis.CircuitBreaker.Periods.{read_now}

pub data Call : Type 0 where
  check success failure : Call

-- The failures that are reported.
unfoldable pub failures : List (ℕ × Call) → ℕ
failures [] = 0
failures ((d, failure) ∷ cs) = failures cs + 1
failures ((d, _) ∷ cs) = failures cs

module _ (config : Config) where
  open config use {threshold, window, open_dur}

  abbrev pub Moves : ℕ → Option Hash → Option (Key Hash) × CircuitState → Type 0
  Moves now r (k, answer) =
      (state_at now k ≡ answer.state)
      × ((answer.state ≡ (stored r).state)
          ⊎ (((stored r).state ≡ open_)
              × (answer.state ≡ half_open)
              × ((stored r).last_failure + open_dur ≤ now)))

  state_at-expire : (now : ℕ) (c : Hash) → state_at now (some (expire now (ttl config) c)) ≡ c.state
  state_at-expire now c = ap (λ r. (stored r).state) (read_now config now c)

  state_at-touch :
      (now : ℕ) (r : Option Hash) → state_at now (touch config now r) ≡ (stored r).state
  state_at-touch now none = unfold read in refl
  state_at-touch now (some c) = state_at-expire now c

  check_state-Moves :
      (now : ℕ) (r : Option Hash) (s : Circuit)
      → (stored r).state ≡ s
      → Moves now r (check_state config now r s)
  unfolding check_state
  check_state-Moves now r closed e = (state_at-touch now r ∙ e, inl (sym e))
  check_state-Moves now r half_open e = (state_at-touch now r ∙ e, inl (sym e))
  check_state-Moves now r open_ e =
      elim (Bool-cases (leb ((stored r).last_failure + open_dur) now)) [
        | inl over ↦ rw over (state_at-expire now _, inr (e, refl, leb→le _ _ over))
        | inr not_over ↦ rw not_over (state_at-touch now r ∙ e, inl (sym e))
      ]

  -- A check moves an open circuit to half open when its time is over, and no circuit otherwise; it
  -- returns the state that it leaves.
  check_circuit-Moves :
      (now : ℕ) (k : Option (Key Hash)) → Moves now (read now k) (check_circuit config now k)
  unfolding check_circuit
  check_circuit-Moves now k = check_state-Moves now (read now k) _ refl

  -- Calls in the order of their times, each with the time since the last one: and the key that they
  -- leave.
  unfoldable pub call_all : ℕ → Option (Key Hash) → List (ℕ × Call) → Option (Key Hash)
  call_all now k [] = k
  call_all now k ((d, check) ∷ cs) = call_all (now + d) (check_circuit config (now + d) k).0 cs
  call_all now k ((d, success) ∷ cs) =
      call_all (now + d) (some (report_circuit config (now + d) true k).0) cs
  call_all now k ((d, failure) ∷ cs) =
      call_all (now + d) (some (report_circuit config (now + d) false k).0) cs

  -- The circuit is closed, and counts at most `n` failures.
  abbrev IsCalm : ℕ → Hash → Type 0
  IsCalm n c = (c.state ≡ closed) × (c.failure_count ≤ n)

  abbrev IsCalmKey : ℕ → Option (Key Hash) → Type 0
  IsCalmKey n none = Unit
  IsCalmKey n (some k) = IsCalm n k.value

  read-IsCalm : (n now : ℕ) (k : Option (Key Hash)) → IsCalmKey n k → IsCalm n (stored (read now k))
  unfolding read
  read-IsCalm n now none h = (refl, omega arith)
  read-IsCalm n now (some k) h = ground arith

  touch-IsCalm :
      (n now : ℕ) (r : Option Hash) → IsCalm n (stored r) → IsCalmKey n (touch config now r)
  unfolding expire
  touch-IsCalm n now none h = tt
  touch-IsCalm n now (some c) h = h

  check-IsCalm :
      (n now : ℕ) (k : Option (Key Hash))
      → IsCalmKey n k
      → IsCalmKey n (check_circuit config now k).0
  unfolding check_circuit check_state
  check-IsCalm n now k h =
      let calm = read-IsCalm n now k h in simp (calm.0) (touch-IsCalm n now (read now k) calm)

  success-IsCalm :
      (n now : ℕ) (k : Option (Key Hash)) → IsCalm n (report_circuit config now true k).0.value
  unfolding report_circuit expire
  success-IsCalm n now k = (refl, omega arith)

  failure-IsCalm :
      (n now : ℕ) (k : Option (Key Hash))
      → n + 1 < threshold
      → IsCalmKey n k
      → IsCalm (n + 1) (report_circuit config now false k).0.value
  unfolding report_circuit expire
  failure-IsCalm n now k below h =
      let calm = read-IsCalm n now k h in
      simp (calm.0) (unfold report_failure count_failure in ground (arith, calm.0, calm.1))

  call_all-IsCalm :
      (cs : List (ℕ × Call)) (n now : ℕ) (k : Option (Key Hash))
      → failures cs + n < threshold
      → IsCalmKey n k
      → IsCalmKey (failures cs + n) (call_all now k cs)
  unfolding call_all failures
  call_all-IsCalm [] n now k below h = let e : 0 + n ≡ n = omega arith in rw e h
  call_all-IsCalm ((d, check) ∷ cs) n now k below h =
      call_all-IsCalm cs n (now + d) _ below (check-IsCalm n (now + d) k h)
  call_all-IsCalm ((d, success) ∷ cs) n now k below h =
      call_all-IsCalm cs n (now + d) _ below (success-IsCalm n (now + d) k)
  call_all-IsCalm ((d, failure) ∷ cs) n now k below h =
      let e : failures cs + 1 + n ≡ failures cs + (n + 1) = omega arith in
      rw e (
        call_all-IsCalm cs (n + 1) (now + d) _ (omega arith)
          (failure-IsCalm n (now + d) k (omega arith) h))

  -- From a missing key, whatever the order and the times of the calls: as long as fewer failures
  -- have been reported than the threshold, every later call finds the circuit closed.
  few_failures_stay_closed :
      (now later : ℕ) (cs : List (ℕ × Call))
      → failures cs < threshold
      → state_at later (call_all now none cs) ≡ closed
  few_failures_stay_closed now later cs below =
      (read-IsCalm (failures cs + 0) later (call_all now none cs)
        (call_all-IsCalm cs 0 now none (omega arith) tt)).0
