-- ===== src/Proxy/Accounts.antt =====
-- The whole of handle_request, and the counter of the month.
use mathlib.Core.Path.{subst}
use gate_flow.Prelude.{
  ℕ, suc, ◌+◌, ◌*◌, ◌≤◌, ◌<◌, ◌≡◌, refl, sym, ap, ◌∙◌, inl, inr, Bool, true, false, ◌||◌, not, some,
  ◌∷◌, arith, Bool-cases,
}
use gate_flow.Prelude.Int.{ℤ, pos}
use gate_flow.Prelude.Text.{Text, codes, same_refl}
use gate_flow.Http.{header}
use gate_flow.Redis.Key.{second}
use gate_flow.Redis.TokenBucket.{seconds, forever, Limit, Wait, check_rate_limit}
use gate_flow.Redis.Quota.{reserve, reserve_monthly_quota}
use gate_flow.Redis.Quota.History.{Outlives, held, granted, reserve-Reserved}
use gate_flow.Models.{KeyRecord, Tier, Authed, known, resolve_rate_limits}
use gate_flow.Router.{Route, Routes, match_route, allows}
use gate_flow.Auth.{Caches}
use gate_flow.Proxy.State.{
  World, Settings, Platform, Course, Request, Reply, Flow, stop, go, M, continue, guard,
}
use gate_flow.Proxy.Admission.{
  Caller, too_many, limited, reserved, month_key, bucket_key, is_verified, found, choose_route,
  authed, authenticated, authenticate_now, globally_limited, admit_key, admit,
}
use gate_flow.Proxy.Charges.{charge, HasReserved}
use gate_flow.Proxy.{process, handle, result, handle_request}
use gate_flow.Proxy.Settling.{process-IsSettled}

-- A part of the handler that leaves the counters alone, and costs nothing where it returns early.
abbrev IsFree {ℓ} : {A : Type ℓ} → World → World × Flow A → Type 0
IsFree w (v, stop r) = (v.quotas ≡ w.quotas) × (charge r ≡ 0)
IsFree w (v, go a) = v.quotas ≡ w.quotas

-- The waiting time of a denied call.
too_many-free : (text : Text) (t : Wait) → charge (too_many text t) ≡ 0
unfolding too_many charge
too_many-free text (seconds num den) = refl
too_many-free text forever = refl

limited-IsFree :
    (limit : Limit) (now : ℕ) (key text : Text) (w : World)
    → IsFree w (limited limit now key text w)
unfolding limited
limited-IsFree limit now key text w =
    let (b, verdict) = check_rate_limit limit 1 now (w.buckets key) in
    elim (Bool-cases verdict.allowed) [
      | inl e ↦ rw e refl
      | inr e ↦ rw e (refl, too_many-free text verdict.retry_after)
    ]

guard-IsFree : (b : Bool) (r : Reply) (w : World) → charge r ≡ 0 → IsFree w (guard b r w)
guard-IsFree true r w e = refl
guard-IsFree false r w e = (refl, e)

continue-IsFree {ℓ κ} :
    {A : Type ℓ} {B : Type κ} (w : World) (x : World × Flow A) (f : A → M B)
    → IsFree w x
    → ((a : A) (v : World) → IsFree v (f a v))
    → IsFree w (continue x f)
continue-IsFree w (v, stop r) f h k = h
continue-IsFree {A} {B} w (v, go a) f h k = along (f a v) (k a v)
  where
    along : (y : World × Flow B) → IsFree v y → IsFree w y
    along (u, stop r) i = (i.0 ∙ h, i.1)
    along (u, go b) i = i ∙ h

module _ (settings : Settings) (platform : Platform) (course : Course) where
  globally_limited-IsFree : (w : World) → IsFree w (globally_limited settings platform course w)
  unfolding globally_limited
  globally_limited-IsFree w = elim (Bool-cases settings.global_rate_limit_enabled) [
    | inl e ↦ rw e (
        continue-IsFree w _ _ (limited-IsFree settings.global_limit course.global_at _ _ w)
          (λ a v. refl))
    | inr e ↦ rw e refl
  ]

-- Up to the reservation: a request that is turned away costs nothing, and one that goes on has
-- reserved one.
module _ (user month : Text) (limit : ℕ) where
  abbrev IsAdmitted : World → World × Flow Caller → Type 0
  IsAdmitted w (v, stop r) =
      (held (v.quotas (month_key user month)) ≡ held (w.quotas (month_key user month)))
      × (charge r ≡ 0)
  IsAdmitted w (v, go caller) =
      (caller.user_id ≡ user)
      × Outlives limit (v.quotas (month_key user month))
      × (held (v.quotas (month_key user month)) ≡ held (w.quotas (month_key user month)) + 1)

  continue-IsAdmitted {ℓ} :
      {A : Type ℓ} (w v : World) (x : World × Flow A) (f : A → M Caller)
      → v.quotas ≡ w.quotas
      → IsFree v x
      → ((a : A) (u : World) → u.quotas ≡ w.quotas → IsAdmitted w (f a u))
      → IsAdmitted w (continue x f)
  continue-IsAdmitted w v (u, stop r) f e h k =
      (ap (λ q. held (q (month_key user month))) (h.0 ∙ e), h.1)
  continue-IsAdmitted w v (u, go a) f e h k = k a u (h ∙ e)

  reserved-IsAdmitted :
      (now ttl q : ℕ) (quota : ℤ) (w v : World) (caller : Caller)
      → quota ≡ pos (suc q)
      → limit ≤ now + ttl * second
      → now < limit
      → v.quotas ≡ w.quotas
      → caller.user_id ≡ user
      → Outlives limit (w.quotas (month_key user month))
      → IsAdmitted w
          (continue (reserved now ttl quota (month_key user month) v) (λ _ u. (u, go caller)))
  unfolding reserved reserve_monthly_quota charge
  reserved-IsAdmitted now ttl q quota w v caller z reaches in_time e n o =
      let counter = month_key user month in
      let lives : Outlives limit (v.quotas counter) =
        subst (λ q. Outlives limit (q counter)) (sym e) o in
      let r =
        reserve-Reserved (suc q) limit now ttl (v.quotas counter) (omega arith) reaches in_time
          lives in
      let same_held : held (v.quotas counter) ≡ held (w.quotas counter) =
        ap (λ q. held (q counter)) e in
      let (k, reply) = reserve now ttl (suc q) (v.quotas counter) in
      let counts = λ (b : Bool) (t : reply.allowed ≡ b).
        r.counts ∙ ap (λ a. held (v.quotas counter) + granted a) t in
      elim (Bool-cases reply.allowed) [
        | inl t ↦ rw (z, t, same_refl counter) (n, r.lives, omega (arith, counts true t, same_held))
        | inr t ↦ rw (z, t, same_refl counter) (omega (arith, counts false t, same_held), refl)
      ]

-- The route is chosen, or the request is turned away at once.
abbrev IsChosen : Route → World → World × Flow Route → Type 0
IsChosen route w (v, stop r) = (v ≡ w) × (charge r ≡ 0)
IsChosen route w (v, go r) = (v ≡ w) × (r ≡ route)

-- A request with a known key, on a route that requires one.
module _ (settings : Settings) (platform : Platform) (course : Course) (routes : Routes)
    (req : Request) (route : Route) where
  choose_route-IsChosen :
      (w : World)
      → match_route routes req.path ≡ some route
      → IsChosen route w (choose_route settings platform course routes req w)
  unfolding choose_route found charge
  choose_route-IsChosen w m =
      elim (Bool-cases (not settings.mtls_enabled || is_verified settings platform course req)) [
        | inr e ↦ rw e (refl, refl)
        | inl e ↦ elim (Bool-cases (allows route req.method)) [
          | inr d ↦ rw (e, m, d) (refl, refl)
          | inl d ↦ rw (e, m, d) (refl, refl)
        ]
      ]

  module _ (c : ℕ) (key : Text) (owner : KeyRecord) (tier : Tier) (key_id : Text)
      (q limit : ℕ) where
    authed_known :
        (x : Caches × Authed) (w : World)
        → x.1 ≡ known owner tier key_id
        → authed settings platform course x w
          ≡ (record w { caches = x.0 }, go (owner, (tier, key_id)))
    unfolding authed
    authed_known (caches, a) w e = rw e refl

    -- With what `authenticate` leaves in the caches.
    abbrev remembering : World → World
    remembering w = record w {
      caches = (authenticate_now settings platform course (c ∷ key) req w).0;
    }

    authenticated_known :
        (w : World)
        → header (codes "X-API-KEY") req.headers ≡ some (c ∷ key)
        → (authenticate_now settings platform course (c ∷ key) req w).1 ≡ known owner tier key_id
        → authenticated settings platform course (header (codes "X-API-KEY") req.headers) req w
          ≡ (remembering w, go (owner, (tier, key_id)))
    unfolding authenticated
    authenticated_known w given accepted = rw (given, authenticated) (authed_known _ w accepted)

    admit-IsAdmitted :
        (w : World)
        → route.requires_auth ≡ true
        → header (codes "X-API-KEY") req.headers ≡ some (c ∷ key)
        → (authenticate_now settings platform course (c ∷ key) req w).1 ≡ known owner tier key_id
        → tier.monthly_quota ≡ pos (suc q)
        → limit ≤ course.reserve_at + course.quota_ttl * second
        → course.reserve_at < limit
        → Outlives limit (w.quotas (month_key owner.user_id course.reserve_month))
        → IsAdmitted owner.user_id course.reserve_month limit w
            (admit settings platform course route req w)
    unfolding admit admit_key
    admit-IsAdmitted w auth given accepted quota reaches in_time o =
        rw (auth, authenticated_known w given accepted)
          (continue-IsAdmitted owner.user_id course.reserve_month limit w (remembering w) _ _ refl
            (limited-IsFree (resolve_rate_limits owner tier) course.rate_at
              (bucket_key key_id route.prefix) (codes "Rate limit exceeded") (remembering w))
            (λ rate v e.
              continue-IsAdmitted owner.user_id course.reserve_month limit w v _ _ e
                (globally_limited-IsFree settings platform course v)
                (λ a u e'.
                  reserved-IsAdmitted owner.user_id course.reserve_month limit course.reserve_at
                    course.quota_ttl q tier.monthly_quota w u _ quota reaches in_time e' refl o)))

    -- For a key that `authenticate` accepts, on a route that requires one, with a positive
    -- quota, within one month and while the counter of the month lives: whatever happens to the
    -- request, its user is charged exactly what the reply says, one for an answer below 500, a
    -- stored reply, a refused body or an exception of the HTTP client, and nothing otherwise.
    pub handle_request-charge :
        (w : World)
        → match_route routes req.path ≡ some route
        → route.requires_auth ≡ true
        → header (codes "X-API-KEY") req.headers ≡ some (c ∷ key)
        → (authenticate_now settings platform course (c ∷ key) req w).1 ≡ known owner tier key_id
        → tier.monthly_quota ≡ pos (suc q)
        → course.refund_month ≡ course.reserve_month
        → limit ≤ course.reserve_at + course.quota_ttl * second
        → course.reserve_at < limit
        → course.refund_at < limit
        → let counter = month_key owner.user_id course.reserve_month in
          Outlives limit (w.quotas counter)
          → let (v, reply) = handle_request settings platform course routes req w in
            held (v.quotas counter) ≡ held (w.quotas counter) + charge reply
    unfolding handle_request handle
    handle_request-charge w matched auth given accepted quota month reaches in_time before o =
        chosen _ (choose_route-IsChosen w matched)
      where
        counter : Text
        counter = month_key owner.user_id course.reserve_month

        IsAccounted : World × Flow Reply → Type 0
        IsAccounted x =
            let (v, reply) = result settings platform course x in
            held (v.quotas counter) ≡ held (w.quotas counter) + charge reply

        admitted :
            (x : World × Flow Caller)
            → IsAdmitted owner.user_id course.reserve_month limit w x
            → IsAccounted (continue x (λ caller. process settings platform course route caller req))
        admitted (v, stop r) h = omega (arith, h.0, h.1)
        admitted (v, go caller) h =
            let same_counter : counter ≡ month_key caller.user_id course.refund_month =
              ap (λ u. month_key u course.reserve_month) (sym (h.0))
              ∙ ap (λ m. month_key caller.user_id m) (sym month) in
            let pending : HasReserved settings course route caller auth limit before
                (held (w.quotas counter)) v =
              record {
                lives = subst (λ k. Outlives limit (v.quotas k)) same_counter (h.1);
                counts = ap (λ k. held (v.quotas k)) (sym same_counter) ∙ h.2;
              } in
            let x = process settings platform course route caller req v in
            ap (λ k. held ((result settings platform course x).0.quotas k)) same_counter
            ∙ process-IsSettled settings platform course route caller auth limit before req
                (held (w.quotas counter)) v pending

        chosen :
            (x : World × Flow Route)
            → IsChosen route w x
            → IsAccounted (
                continue x (λ r u.
                  continue
                    (admit settings platform course r req u)
                    (λ caller. process settings platform course r caller req)))
        chosen (v, stop r) h = ap (λ u. held (u.quotas counter)) (h.0) ∙ omega (arith, h.1)
        chosen (v, go r) h =
            rw (h.0, h.1)
              (admitted _ (admit-IsAdmitted w auth given accepted quota reaches in_time o))
