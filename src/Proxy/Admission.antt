-- ===== src/Proxy/Admission.antt =====
-- The first part of handle_request: what a request passes before its body is read.
use gate_flow.Prelude.{
  ℕ, ◌*◌, ◌/◌, Bool, true, ◌||◌, not, Option, none, some, [], ◌∷◌, ◌++◌, ltb, if◌then◌else◌,
}
use gate_flow.Prelude.Int.{ℤ, pos}
use gate_flow.Prelude.Text.{Text, codes, same}
use gate_flow.Http.{header}
use gate_flow.Models.{KeyRecord, Tier, status_code, detail, resolve_rate_limits}
use gate_flow.Redis.TokenBucket.{token, Wait, seconds, forever, Verdict, Limit, check_rate_limit}
use gate_flow.Redis.Quota.{reserve_monthly_quota}
use gate_flow.Router.{Route, Routes, match_route, allows}
use gate_flow.Models.{Authed, refused, known}
use gate_flow.Auth.{Caches, authenticate}
use gate_flow.Auth.Address.{get_client_ip}
use gate_flow.Proxy.State.{
  World, update, Settings, Platform, Course, Request, overflow, Reply, error, raised, stop, go, M,
  ◌>>=◌, ◌>>◌, pure, return, guard,
}

abbrev pub refuse : ℕ → Text → Reply
refuse status detail = error status detail none

-- Who the request is for, and what the rate limiter said.
pub record Caller : Type 0 where
  pub user_id : Text
  pub tier : Text
  pub key_id : Text
  pub rate : Verdict

-- `max(1, int(retry_after))`, or the OverflowError.
unfoldable pub too_many : Text → Wait → Reply
too_many detail (seconds num den) =
    error 429 detail (some (if ltb 1 (num / den) then num / den else 1))
too_many detail forever = raised overflow

-- `check_rate_limit` and the test of its result.
unfoldable pub limited : Limit → ℕ → Text → Text → M Verdict
limited limit now key detail w =
    let (b, verdict) = check_rate_limit limit 1 now (w.buckets key) in
    (
      record w { buckets = update w.buckets key (some b) },
      if verdict.allowed then go verdict else stop (too_many detail verdict.retry_after),
    )

-- The names of a bucket and of a month's counter.
abbrev pub bucket_key : Text → Text → Text
bucket_key key_id route = key_id ++ b':' ∷ route

abbrev pub month_key : Text → Text → Text
month_key user_id month = user_id ++ b':' ∷ month

-- `reserve_monthly_quota` and the test of its result.
unfoldable pub reserved : ℕ → ℕ → ℤ → Text → M (Unit {0})
reserved now ttl quota key w =
    let (k, allowed) = reserve_monthly_quota now ttl quota (w.quotas key) in
    (
      record w { quotas = update w.quotas key k },
      if allowed then go tt else stop (refuse 429 (codes "Monthly quota exceeded")),
    )

module _ (settings : Settings) (platform : Platform) (course : Course) where
  -- verify_mtls
  unfoldable pub is_verified : Request → Bool
  is_verified req = elim (header settings.mtls_header req.headers) [
    | none ↦ same [] settings.mtls_required_value
    | some value ↦ same value settings.mtls_required_value
  ]

  unfoldable pub found : Option Route → M Route
  found none = return (refuse 404 (codes "No route matches the request path"))
  found (some route) = pure route

  unfoldable pub choose_route : Routes → Request → M Route
  choose_route routes req = do
    guard (not settings.mtls_enabled || is_verified req)
        (refuse 403 (codes "Client certificate verification failed"))
    route ← found (match_route routes req.path)
    guard (allows route req.method)
        (refuse 405 (codes "Method " ++ (req.method ++ codes " not allowed for this route")))
    pure route

  unfoldable pub authed : Caches × Authed → M (KeyRecord × (Tier × Text))
  authed (caches, refused e) w =
      (record w { caches = caches }, stop (refuse (status_code e) (detail e)))
  authed (caches, known r tier key_id) w = (record w { caches = caches }, go (r, (tier, key_id)))

  -- `authenticate` at this request.
  abbrev pub authenticate_now : Text → Request → World → Caches × Authed
  authenticate_now key req w =
      authenticate settings.auth course.store course.moment key
        (get_client_ip settings.auth.addresses req.peer settings.forwarded_allow_ips req.headers)
        w.caches

  -- The API key of the request, and who it belongs to.
  unfoldable pub authenticated : Option Text → Request → M (KeyRecord × (Tier × Text))
  authenticated none req w = return (refuse 401 (codes "Missing X-API-KEY header")) w
  authenticated (some []) req w = return (refuse 401 (codes "Missing X-API-KEY header")) w
  authenticated (some (c ∷ key)) req w = authed (authenticate_now (c ∷ key) req w) w

  unfoldable pub globally_limited : M (Unit {0})
  globally_limited =
      if settings.global_rate_limit_enabled
      then (limited settings.global_limit course.global_at (codes "global:__global__")
            (codes "Global rate limit exceeded")
          >>= λ _. pure tt)
      else pure tt

  -- The branch for a route that requires a key.
  unfoldable pub admit_key : Route → Request → M Caller
  admit_key route req = do
    (r, (tier, key_id)) ← authenticated (header (codes "X-API-KEY") req.headers) req
    rate ←
        limited (resolve_rate_limits r tier) course.rate_at (bucket_key key_id route.prefix)
          (codes "Rate limit exceeded")
    globally_limited
    reserved course.reserve_at course.quota_ttl tier.monthly_quota
        (month_key r.user_id course.reserve_month)
    pure (record { user_id = r.user_id; tier = r.tier; key_id = key_id; rate = rate })

  abbrev pub anonymous : Caller
  anonymous = record {
    user_id = codes "anonymous";
    tier = codes "anonymous";
    key_id = [];
    rate = record { allowed = true; remaining = pos (1000 * token); retry_after = seconds 0 1 };
  }

  unfoldable pub admit : Route → Request → M Caller
  admit route req = if route.requires_auth then admit_key route req else pure anonymous
