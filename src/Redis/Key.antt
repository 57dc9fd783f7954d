-- ===== src/Redis/Key.antt =====
-- A key of the Redis server with its time to live. Times are in microseconds.
use gate_flow.Prelude.{ℕ, ◌+◌, ◌*◌, Option, none, some, ltb, if◌then◌else◌}

-- `none` as expiry: the key is persistent.
pub record Key {ℓ} (A : Type ℓ) : Type ℓ where
  pub value : A
  pub expires_at : Option ℕ

-- Whether a key with this expiry is there at `now`.
abbrev pub is_live {ℓ} : {A : Type ℓ} → ℕ → A → Option ℕ → Option A
is_live now a none = some a
is_live now a (some t) = if ltb now t then some a else none

-- What a command reads at `now`: a key whose time is over is gone.
unfoldable pub read {ℓ} : {A : Type ℓ} → ℕ → Option (Key A) → Option A
read now none = none
read now (some k) = is_live now k.value k.expires_at

-- One second.
abbrev pub second : ℕ
second = 1000000

-- `EXPIRE key ttl` on a key that is there, with `ttl` in seconds.
unfoldable pub expire {ℓ} : {A : Type ℓ} → ℕ → ℕ → A → Key A
expire now ttl a = record { value = a; expires_at = some (now + ttl * second) }
