-- ===== src/Proxy/Circuits.antt =====
-- The circuit of a service under the attempts of a request.
use gate_flow.Prelude.{
  ℕ, zero, suc, ◌+◌, ◌-◌, ◌*◌, ◌≤◌, ◌<◌, ◌≡◌, refl, inl, inr, Bool, true, Option, none, some, List,
  [], ◌∷◌, ◌++◌, arith, ltb, ◌==◌, if◌then◌else◌, Bool-cases, lt→leb_false,
}
use gate_flow.Prelude.Text.{Text, same_refl}
use gate_flow.Http.{Headers}
use gate_flow.Redis.Key.{Key, read, expire, second}
use gate_flow.Redis.CircuitBreaker
use gate_flow.Redis.CircuitBreaker.Periods.{ttl_long}
use gate_flow.Redis.CircuitBreaker.{
  Circuit, closed, open_, half_open, Hash, Config, CircuitState, check_state, check_circuit,
  report_circuit,
}
use gate_flow.Proxy.State.{Sent, World, update, Settings, responds, Try}
use gate_flow.Proxy.Target.{served, unusable, answered, gated, try_target, retry, attempts}

-- The state in the hash of a target.
abbrev pub circuit_of : Option (Key Hash) → Circuit
circuit_of none = closed
circuit_of (some k) = k.value.state

module _ (settings : Settings) (target : Text) where
  open settings use {circuit}

  -- The circuit is open until `until`, and its hash is there that long.
  pub record IsOpenUntil (until : ℕ) (k : Key Hash) : Type 0 where
    pub state : k.value.state ≡ open_
    pub ends : k.value.last_failure + circuit.open_dur ≡ until
    pub expiry : ℕ
    pub expires : k.expires_at ≡ some expiry
    pub lasts : until ≤ expiry

  check_state_open :
      (until now : ℕ) (r : Hash) (s : Circuit)
      → s ≡ open_
      → r.last_failure + circuit.open_dur ≡ until
      → now < until
      → check_state circuit now (some r) s ≡ (
        some (expire now (CircuitBreaker.ttl circuit) r),
        record { state = open_; retry_after = until - now },
      )
  unfolding check_state
  check_state_open until now r s e f h = rw (e, f, lt→leb_false until now h) refl

  read_live :
      (until now : ℕ) (k : Key Hash)
      → IsOpenUntil until k
      → now < until
      → read now (some k) ≡ some k.value
  unfolding read
  read_live until now k o h = simp (o.expires) (ground (arith, o.lasts))

  -- A check in that time reports it open, and leaves it so.
  check_open :
      (until now : ℕ) (k : Key Hash)
      → IsOpenUntil until k
      → now < until
      → check_circuit circuit now (some k) ≡ (
        some (expire now (CircuitBreaker.ttl circuit) k.value),
        record { state = open_; retry_after = until - now },
      )
  unfolding check_circuit
  check_open until now k o h =
      rw (read_live until now k o h)
        (check_state_open until now k.value k.value.state o.state o.ends h)

  expire-IsOpenUntil :
      (until now : ℕ) (k : Key Hash)
      → IsOpenUntil until k
      → k.value.last_failure ≤ now
      → IsOpenUntil until (expire now (CircuitBreaker.ttl circuit) k.value)
  unfolding expire
  expire-IsOpenUntil until now k o l = record {
    state = o.state;
    ends = o.ends;
    expiry = now + CircuitBreaker.ttl circuit * second;
    expires = refl;
    lasts = omega (arith, o.ends, ttl_long circuit);
  }

  try_open :
      (call : Sent) (report : Bool) (t : Try) (until : ℕ) (k : Key Hash) (w : World)
      → w.circuits target ≡ some k
      → IsOpenUntil until k
      → t.check_at < until
      → try_target settings target call report t w ≡ (
        record w {
          circuits =
              update w.circuits target
                (some (expire t.check_at (CircuitBreaker.ttl circuit) k.value));
        },
        unusable,
      )
  unfolding try_target gated
  try_open call report t until k w e o h = rw (e, check_open until t.check_at k o h) refl

  -- While its circuit is open, the service is not called, whatever the number of attempts: if
  -- each check comes before the end of the open period and not before the last failure, and the
  -- hash of the circuit is there as long as that.
  pub attempts_open :
      (call : Sent) (tries : ℕ → Try) (attempt left until : ℕ) (k : Key Hash) (w : World)
      → w.circuits target ≡ some k
      → IsOpenUntil until k
      → ((n : ℕ) → (k.value.last_failure ≤ (tries n).check_at) × ((tries n).check_at < until))
      → let (v, r) = attempts settings target call tries attempt left w in
        (v.sent ≡ w.sent) × (r ≡ unusable)
  unfolding attempts retry
  attempts_open call tries attempt zero until k w e o h = (refl, refl)
  attempts_open call tries attempt (suc left) until k w e o h =
      let t = tries attempt in
      let k' = expire t.check_at (CircuitBreaker.ttl circuit) k.value in
      let w' : World = record w { circuits = update w.circuits target (some k') } in
      let found : w'.circuits target ≡ some k' = rw (same_refl target) refl in
      rw (try_open call (left == 0) t until k w e o (h attempt).1) (
        attempts_open call tries (attempt + 1) left until k' w' found
          (expire-IsOpenUntil until t.check_at k o (h attempt).0) (unfold expire in (h)))

  check_half :
      (now : ℕ) (r : Option Hash) (s : Circuit)
      → (CircuitBreaker.stored r).state ≡ s
      → (check_state circuit now r s).1.state ≡ half_open
      → circuit_of (check_state circuit now r s).0 ≡ half_open
  unfolding check_state circuit_of expire
  check_half now r closed e h = cc
  check_half now none half_open e h = e
  check_half now (some r) half_open e h = e
  check_half now r open_ e h = ground (arith, h)

  -- If the check of the first attempt reports the circuit half open and the service answers below
  -- 500, the request is sent once and that answer used. The circuit closes if the settings allow
  -- one attempt; if they allow more, it stays half open.
  pub first_success :
      (call : Sent) (tries : ℕ → Try) (more status : ℕ) (hs : Headers) (body : List ℕ) (w : World)
      → (check_circuit circuit (tries 0).check_at (w.circuits target)).1.state ≡ half_open
      → (tries 0).answer ≡ responds status hs body
      → status < 500
      → let (v, r) = attempts settings target call tries 0 (suc more) w in
        (r ≡ served status hs body)
        × (v.sent ≡ w.sent ++ call ∷ [])
        × (circuit_of (v.circuits target) ≡ (if more == 0 then closed else half_open))
  unfolding attempts retry try_target gated answered check_circuit
  first_success call tries more status hs body w half a h =
      let t = tries 0 in
      let state =
        check_half t.check_at (read t.check_at (w.circuits target))
          (CircuitBreaker.stored (read t.check_at (w.circuits target))).state refl half in
      let below : ltb status 500 ≡ true = ground (arith, h) in
      elim (Bool-cases (more == 0)) [
        | inl e ↦
            rw (half, a, e, lt→leb_false 500 status h, same_refl target)
              (refl, refl, unfold circuit_of report_circuit expire in refl)
        | inr e ↦ rw (half, a, e, below, same_refl target) (refl, refl, state)
      ]
