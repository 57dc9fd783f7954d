-- ===== src/Proxy/Guards.antt =====
-- What a request has passed before a service is called.
use mathlib.Core.Path.{subst}
use gate_flow.Prelude.{
  ℕ, ◌≡◌, ◌⊎◌, refl, sym, ap, ◌∙◌, inl, inr, Bool, true, false, ◌||◌, not, Option, none, some, [],
  ◌∷◌, if◌then◌else◌, Bool-cases, Option-cases,
}
use gate_flow.Prelude.Int.{ℤ}
use gate_flow.Prelude.Text.{Text, codes}
use gate_flow.Http.{header}
use gate_flow.Models.{KeyRecord, Tier, Authed, refused, known, resolve_rate_limits}
use gate_flow.Auth.{Caches}
use gate_flow.Redis.Key.{Key}
use gate_flow.Redis.TokenBucket.{Bucket, Limit, check_rate_limit}
use gate_flow.Redis.Quota.{reserve_monthly_quota}
use gate_flow.Router.{Route, Routes, match_route, allows}
use gate_flow.Proxy.State.{
  World, Settings, Platform, Course, Request, Reply, Flow, stop, go, M, continue, pure, update,
  ◌>>=◌,
}
use gate_flow.Proxy.Admission.{
  limited, reserved, bucket_key, month_key, is_verified, found, choose_route, authed,
  authenticate_now, authenticated, globally_limited, admit_key, admit, anonymous,
}
use gate_flow.Proxy.{process, handle, result, handle_request}

-- A part of the handler that calls no service where it returns early, and ensures `P` otherwise.
abbrev Ensures {ℓ} : {A : Type ℓ} → World → (A → World → Type 0) → World × Flow A → Type 0
Ensures w P (v, stop r) = v.sent ≡ w.sent
Ensures w P (v, go a) = P a v

continue-Ensures {ℓ κ} :
    {A : Type ℓ} {B : Type κ} (w : World) (P : A → World → Type 0) (Q : B → World → Type 0)
    (x : World × Flow A) (f : A → M B)
    → Ensures w P x
    → ((a : A) (v : World) → P a v → Ensures w Q (f a v))
    → Ensures w Q (continue x f)
continue-Ensures w P Q (v, stop r) f e h = e
continue-Ensures w P Q (v, go a) f e h = h a v e

weaken-Ensures {ℓ} :
    {A : Type ℓ} (w : World) (P Q : A → World → Type 0) (x : World × Flow A)
    → ((a : A) (v : World) → P a v → Q a v)
    → Ensures w P x
    → Ensures w Q x
weaken-Ensures w P Q (v, stop r) h e = e
weaken-Ensures w P Q (v, go a) h e = h a v e

-- What the handler starts with, as far as later guards read it.
record IsAsBefore (w v : World) : Type 0 where
  quotas : v.quotas ≡ w.quotas
  sent : v.sent ≡ w.sent

-- Whether the rate limiter lets a call through, and the buckets after it.
abbrev pub leaves_token : Limit → ℕ → Text → (Text → Option (Key Bucket)) → Bool
leaves_token limit now key buckets = (check_rate_limit limit 1 now (buckets key)).1.allowed

abbrev pub taken : Limit → ℕ → Text → (Text → Option (Key Bucket)) → Text → Option (Key Bucket)
taken limit now key buckets =
    update buckets key (some (check_rate_limit limit 1 now (buckets key)).0)

abbrev IsPaced : World → World → Limit → ℕ → Text → World → Type 0
IsPaced w v limit now key u =
    IsAsBefore w u
    × (u.buckets ≡ taken limit now key v.buckets)
    × (leaves_token limit now key v.buckets ≡ true)

limited-Ensures :
    (w v : World) (limit : Limit) (now : ℕ) (key text : Text)
    → IsAsBefore w v
    → Ensures w (λ _ u. IsPaced w v limit now key u) (limited limit now key text v)
unfolding limited
limited-Ensures w v limit now key text h =
    elim (Bool-cases (check_rate_limit limit 1 now (v.buckets key)).1.allowed) [
      | inl e ↦ rw e (record { quotas = h.quotas; sent = h.sent }, refl, refl)
      | inr e ↦ rw e (h.sent)
    ]

reserved-Ensures :
    (w v : World) (now ttl : ℕ) (quota : ℤ) (key : Text)
    → IsAsBefore w v
    → Ensures w
        (λ _ u. (reserve_monthly_quota now ttl quota (w.quotas key)).1 ≡ true)
        (reserved now ttl quota key v)
unfolding reserved
reserved-Ensures w v now ttl quota key h =
    let same_reply : (reserve_monthly_quota now ttl quota (v.quotas key)).1
        ≡ (reserve_monthly_quota now ttl quota (w.quotas key)).1 =
      ap (λ q. (reserve_monthly_quota now ttl quota (q key)).1) (h.quotas) in
    elim (Bool-cases (reserve_monthly_quota now ttl quota (v.quotas key)).1) [
      | inl e ↦ rw e (sym same_reply ∙ e)
      | inr e ↦ rw e (h.sent)
    ]

module _ (settings : Settings) (platform : Platform) (course : Course) (req : Request) where
  -- The global limit is off, or leaves a token.
  abbrev pub IsPacedGlobally : (Text → Option (Key Bucket)) → Type 0
  IsPacedGlobally buckets =
      (settings.global_rate_limit_enabled ≡ false)
      ⊎ (leaves_token settings.global_limit course.global_at (codes "global:__global__") buckets
          ≡ true)

  -- The key of the request is accepted, and the rate limit of the key and the monthly quota of its
  -- owner leave room.
  pub record IsCleared (route : Route) (w : World) : Type 0 where
    pub api_key : Text
    pub owner : KeyRecord
    pub tier : Tier
    pub key_id : Text
    pub given : header (codes "X-API-KEY") req.headers ≡ some api_key
    pub accepted :
        (authenticate_now settings platform course api_key req w).1 ≡ known owner tier key_id
    pub paced :
        leaves_token
          (resolve_rate_limits owner tier)
          course.rate_at
          (bucket_key key_id route.prefix)
          w.buckets
        ≡ true
    pub paced_globally : IsPacedGlobally (
        taken
          (resolve_rate_limits owner tier)
          course.rate_at
          (bucket_key key_id route.prefix)
          w.buckets)
    pub in_quota :
        (reserve_monthly_quota course.reserve_at course.quota_ttl tier.monthly_quota
          (w.quotas (month_key owner.user_id course.reserve_month))).1
        ≡ true

  -- The key, and what it was accepted as.
  record IsKnown (w v : World) (r : KeyRecord) (tier : Tier) (key_id : Text) : Type 0 where
    same : IsAsBefore w v
    buckets : v.buckets ≡ w.buckets
    api_key : Text
    given : header (codes "X-API-KEY") req.headers ≡ some api_key
    accepted : (authenticate_now settings platform course api_key req w).1 ≡ known r tier key_id

  authed-Ensures :
      (w : World) (api_key : Text) (x : Caches × Authed)
      → header (codes "X-API-KEY") req.headers ≡ some api_key
      → authenticate_now settings platform course api_key req w ≡ x
      → Ensures w (λ a v. IsKnown w v a.0 a.1.0 a.1.1) (authed settings platform course x w)
  unfolding authed
  authed-Ensures w api_key (c, refused e) g h = refl
  authed-Ensures w api_key (c, known r tier key_id) g h = record {
    same = record { quotas = refl; sent = refl };
    buckets = refl;
    api_key = api_key;
    given = g;
    accepted = ap (λ x. x.1) h;
  }

  authenticated-Ensures :
      (w : World) (o : Option Text)
      → header (codes "X-API-KEY") req.headers ≡ o
      → Ensures w
          (λ a v. IsKnown w v a.0 a.1.0 a.1.1)
          (authenticated settings platform course o req w)
  unfolding authenticated
  authenticated-Ensures w none g = refl
  authenticated-Ensures w (some []) g = refl
  authenticated-Ensures w (some (c ∷ key)) g =
      authed-Ensures w (c ∷ key) (authenticate_now settings platform course (c ∷ key) req w) g refl

  globally_limited-Ensures :
      (w v : World)
      → IsAsBefore w v
      → Ensures w
          (λ _ u. IsAsBefore w u × IsPacedGlobally v.buckets)
          (globally_limited settings platform course v)
  unfolding globally_limited
  globally_limited-Ensures w v h = branch settings.global_rate_limit_enabled refl
    where
      key : Text
      key = codes "global:__global__"

      branch :
          (b : Bool)
          → settings.global_rate_limit_enabled ≡ b
          → Ensures {A = Unit {0}} w
              (λ _ u. IsAsBefore w u × IsPacedGlobally v.buckets)
              ((if b
                  then (limited settings.global_limit course.global_at key
                        (codes "Global rate limit exceeded")
                      >>= λ _. pure tt)
                  else pure tt)
                v)
      branch true e =
          continue-Ensures w (λ _ u. IsPaced w v settings.global_limit course.global_at key u)
            (λ _ u. IsAsBefore w u × IsPacedGlobally v.buckets)
            (limited settings.global_limit course.global_at key (codes "Global rate limit exceeded")
              v)
            (λ _. pure tt) (limited-Ensures w v settings.global_limit course.global_at key _ h)
            (λ _ _ k. (k.0, inr (k.2)))
      branch false e = (h, inl e)

  admit_key-Ensures :
      (route : Route) (w : World)
      → Ensures w (λ _ _. IsCleared route w) (admit_key settings platform course route req w)
  unfolding admit_key
  admit_key-Ensures route w =
      continue-Ensures w (λ a v. IsKnown w v a.0 a.1.0 a.1.1) (λ _ _. IsCleared route w) _ _
        (authenticated-Ensures w (header (codes "X-API-KEY") req.headers) refl)
        (λ a v k.
          let limit = resolve_rate_limits a.0 a.1.0 in
          let key = bucket_key a.1.1 route.prefix in
          continue-Ensures w (λ _ u. IsPaced w v limit course.rate_at key u)
            (λ _ _. IsCleared route w) _ _
            (limited-Ensures w v limit course.rate_at key (codes "Rate limit exceeded") k.same)
            (λ rate u p.
              continue-Ensures w (λ _ t. IsAsBefore w t × IsPacedGlobally u.buckets)
                (λ _ _. IsCleared route w) _ _ (globally_limited-Ensures w u p.0)
                (λ _ t b.
                  continue-Ensures w
                    (λ _ _.
                      (reserve_monthly_quota course.reserve_at course.quota_ttl a.1.0.monthly_quota
                        (w.quotas (month_key a.0.user_id course.reserve_month))).1
                      ≡ true)
                    (λ _ _. IsCleared route w) _ _
                    (reserved-Ensures w t course.reserve_at course.quota_ttl a.1.0.monthly_quota
                      (month_key a.0.user_id course.reserve_month) (b.0))
                    (λ _ _ q. record {
                      api_key = k.api_key;
                      owner = a.0;
                      tier = a.1.0;
                      key_id = a.1.1;
                      given = k.given;
                      accepted = k.accepted;
                      paced =
                          ap (λ b. leaves_token limit course.rate_at key b) (sym k.buckets) ∙ p.2;
                      paced_globally =
                          subst IsPacedGlobally
                            (p.1 ∙ ap (λ b. taken limit course.rate_at key b) k.buckets) (b.1);
                      in_quota = q;
                    }))))

  admit-Ensures :
      (route : Route) (w : World)
      → Ensures w
          (λ _ _. (route.requires_auth ≡ false) ⊎ IsCleared route w)
          (admit settings platform course route req w)
  unfolding admit
  admit-Ensures route w = branch route.requires_auth refl
    where
      branch :
          (b : Bool)
          → route.requires_auth ≡ b
          → Ensures w
              (λ _ _. (route.requires_auth ≡ false) ⊎ IsCleared route w)
              ((if b
                  then admit_key settings platform course route req
                  else pure (anonymous settings platform course))
                w)
      branch true e =
          weaken-Ensures w (λ _ _. IsCleared route w)
            (λ _ _. (route.requires_auth ≡ false) ⊎ IsCleared route w)
            (admit_key settings platform course route req w) (λ _ _ c. inr c)
            (admit_key-Ensures route w)
      branch false e = inl e

  -- The route that the request has passed the guards of.
  pub record IsLetThrough (routes : Routes) (w : World) : Type 0 where
    pub route : Route
    pub matched : match_route routes req.path ≡ some route
    pub allowed : allows route req.method ≡ true
    pub verified : (not settings.mtls_enabled || is_verified settings platform course req) ≡ true
    pub cleared : (route.requires_auth ≡ false) ⊎ IsCleared route w

  abbrev IsChoice : Routes → World → Route → World → Type 0
  IsChoice routes w route v =
      (v ≡ w)
      × (match_route routes req.path ≡ some route)
      × (allows route req.method ≡ true)
      × ((not settings.mtls_enabled || is_verified settings platform course req) ≡ true)

  choose_route-Ensures :
      (routes : Routes) (w : World)
      → Ensures w (IsChoice routes w) (choose_route settings platform course routes req w)
  unfolding choose_route found
  choose_route-Ensures routes w =
      elim (Bool-cases (not settings.mtls_enabled || is_verified settings platform course req)) [
        | inr e ↦ rw e refl
        | inl e ↦ elim (Option-cases (match_route routes req.path)) [
          | inl n ↦ rw (e, n) refl
          | inr (route, m) ↦ elim (Bool-cases (allows route req.method)) [
            | inr d ↦ rw (e, m, d) refl
            | inl d ↦ rw (e, m, d) (refl, m, d, e)
          ]
        ]
      ]

  weigh :
      {A : Type 0} (C : Type 0) (w : World) (P : A → World → Type 0) (x : World × Flow A)
      (f : A → M Reply)
      → Ensures w P x
      → ((a : A) (v : World)
          → P a v
          → ((result settings platform course (f a v)).0.sent ≡ w.sent) ⊎ C)
      → ((result settings platform course (continue x f)).0.sent ≡ w.sent) ⊎ C
  weigh C w P (v, stop r) f e h = inl e
  weigh C w P (v, go a) f e h = h a v e

  -- No service is called, unless the client certificate is verified or need not be, a route
  -- matches and allows the method and, where the route requires a key, the request has one that
  -- `authenticate` accepts, the rate limit of that key on the route and the global one, if it is
  -- on, leave a token, and the monthly quota of its owner one request.
  pub handle_request-IsLetThrough :
      (routes : Routes) (w : World)
      → ((handle_request settings platform course routes req w).0.sent ≡ w.sent)
        ⊎ IsLetThrough routes w
  unfolding handle_request handle
  handle_request-IsLetThrough routes w =
      weigh (IsLetThrough routes w) w (IsChoice routes w)
        (choose_route settings platform course routes req w) _ (choose_route-Ensures routes w)
        (λ route v c.
          subst
            (λ u.
              ((result settings platform course (
                  continue (admit settings platform course route req u)
                    (λ caller. process settings platform course route caller req))).0.sent
                ≡ w.sent)
              ⊎ IsLetThrough routes w)
            (sym (c.0))
            (weigh (IsLetThrough routes w) w
              (λ _ _. (route.requires_auth ≡ false) ⊎ IsCleared route w)
              (admit settings platform course route req w) _ (admit-Ensures route w)
              (λ _ _ d. inr (record {
                route = route;
                matched = c.1;
                allowed = c.2;
                verified = c.3;
                cleared = d;
              }))))
