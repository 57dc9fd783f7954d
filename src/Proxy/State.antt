-- ===== src/Proxy/State.antt =====
-- What a request reads and changes, and what it is given: the shared state, the settings, the times
-- and the answers of the services.
use gate_flow.Prelude.{ℕ, Bool, Option, List, if◌then◌else◌}
use gate_flow.Prelude.Int.{ℤ}
use gate_flow.Prelude.Text.{Text}
pub use gate_flow.Prelude.Text.{update}
use gate_flow.Http.{Headers}
use gate_flow.Auth
use gate_flow.Auth.{Caches, Directory, Moment}
use gate_flow.Redis.Key.{Key}
use gate_flow.Redis.TokenBucket.{Bucket, Limit}
use gate_flow.Redis.CircuitBreaker.{Hash, Config}

-- The payload of store_idempotent_response.
pub record Stored : Type 0 where
  pub status : ℕ
  pub headers : Headers
  pub body : List ℕ

-- A call of a service.
pub record Sent : Type 0 where
  pub method : Text
  pub url : Text
  pub headers : Headers
  pub body : List ℕ

-- The keys of Redis by their names without the prefix of their kind, the caches of `authenticate`,
-- the lifetime counters of the keys in the database, and every call of a service so far.
pub record World : Type 0 where
  pub buckets : Text → Option (Key Bucket)
  pub quotas : Text → Option (Key ℕ)
  pub circuits : Text → Option (Key Hash)
  pub replies : Text → Option (Key Stored)
  pub caches : Caches
  pub counts : Text → ℕ
  pub sent : List Sent

pub record Settings : Type 0 where
  pub mtls_enabled : Bool
  pub mtls_header : Text
  pub mtls_required_value : Text
  pub global_rate_limit_enabled : Bool
  pub global_limit : Limit
  pub idempotency_enabled : Bool
  pub idempotency_ttl : ℕ
  pub idempotency_max_body_bytes : ℕ
  pub downstream_max_retries : ℕ
  pub max_request_body_bytes : ℕ
  pub circuit : Config
  pub forwarded_allow_ips : Text
  pub auth : Auth.Config

-- The answer of a service, or an exception of the HTTP client: `unreachable` for those that
-- `_try_target` catches, `broken` for the others.
pub data Answer : Type 0 where
  responds : (status : ℕ) (headers : Headers) (body : List ℕ) → Answer
  unreachable broken : Answer

pub record Try : Type 0 where
  pub check_at : ℕ
  pub report_at : ℕ
  pub answer : Answer

-- Code that is not gateflow's: `urljoin` and `int` of Python, and `digest` for sha256 in
-- hexadecimal.
pub record Platform : Type 0 where
  pub urljoin : Text → Text → Text
  pub int_of : Text → Option ℤ
  pub digest : Text → Text

-- What the store answers, the times of the calls of `authenticate` and of Redis, the month of the
-- first and the last of them, the texts that the request is stamped with, and the answers in the
-- order of the attempts.
pub record Course : Type 0 where
  pub store : Directory
  pub moment : Moment
  pub rate_at : ℕ
  pub global_at : ℕ
  pub reserve_at : ℕ
  pub reserve_month : Text
  pub quota_ttl : ℕ
  pub lookup_at : ℕ
  pub refund_at : ℕ
  pub refund_month : Text
  pub store_at : ℕ
  pub request_id : Text
  pub overhead : Text
  pub total : Text
  pub tries : ℕ → Try
  pub fallback : Answer

pub record Request : Type 0 where
  pub peer : Option Text
  pub path : Text
  pub method : Text
  pub headers : Headers
  pub body : List ℕ

-- The exceptions that handle_request lets through: `int` of an infinite float, and those of the
-- HTTP client.
pub data Exception : Type 0 where
  overflow transport : Exception

-- What the client gets.
pub data Reply : Type 0 where
  error : (status : ℕ) (detail : Text) (retry_after : Option ℕ) → Reply
  passed replayed : (status : ℕ) (headers : Headers) (body : List ℕ) → Reply
  raised : Exception → Reply

-- A part of the handler goes on with a value, or returns early.
pub data Flow {ℓ} (A : Type ℓ) : Type ℓ where
  stop : Reply → Flow A
  go : A → Flow A

abbrev pub M {ℓ} : Type ℓ → Type ℓ
M A = World → World × Flow A

abbrev pub continue {ℓ κ} : {A : Type ℓ} {B : Type κ} → World × Flow A → (A → M B) → World × Flow B
continue (w, stop r) f = (w, stop r)
continue (w, go a) f = f a w

infixl 5 ◌>>=◌ ◌>>◌
abbrev pub ◌>>=◌ {ℓ κ} : {A : Type ℓ} {B : Type κ} → M A → (A → M B) → M B
◌>>=◌ m f w = continue (m w) f

abbrev pub ◌>>◌ {ℓ} : {B : Type ℓ} → M (Unit {0}) → M B → M B
m >> k = m >>= λ _. k

abbrev pub pure {ℓ} : {A : Type ℓ} → A → M A
pure a w = (w, go a)

abbrev pub return {ℓ} : {A : Type ℓ} → Reply → M A
return r w = (w, stop r)

abbrev pub guard : Bool → Reply → M (Unit {0})
guard test r w = (w, if test then go tt else stop r)
