-- ===== src/Proxy/Settling.antt =====
-- A request from the reservation of its unit on: its body, the stored reply and the services.
use mathlib.Core.Path.{subst}
use gate_flow.Prelude.{
  ℕ, ◌<◌, ◌≡◌, refl, sym, ap, ◌∙◌, Bool, true, false, Option, none, some, arith,
}
use gate_flow.Prelude.Int.{ℤ, pos, negsuc}
use gate_flow.Prelude.Text.{Text}
use gate_flow.Redis.Key.{read}
use gate_flow.Redis.Quota.History.{Outlives, held}
use gate_flow.Router.{Route}
use gate_flow.Proxy.State.{
  Stored, World, Settings, Platform, Course, Request, Reply, Flow, stop, go, M, continue, guard,
}
use gate_flow.Proxy.Admission.{Caller, month_key}
use gate_flow.Proxy.Target.{counted}
use gate_flow.Proxy.Charges.{charge, HasReserved, Settled, concluded-Settled, attempts-quotas}
use gate_flow.Proxy.{
  check_length, check_body, accept_body, rebuild, replay, serve, process, result, reply_key,
}

-- From the reservation of the caller on.
module _ (settings : Settings) (platform : Platform) (course : Course) (route : Route)
    (caller : Caller) (auth : route.requires_auth ≡ true) (limit : ℕ)
    (before : course.refund_at < limit) where
  abbrev pub IsPending : ℕ → World → Type 0
  IsPending = HasReserved settings course route caller auth limit before

  abbrev IsKept {ℓ} : {A : Type ℓ} → ℕ → World × Flow A → Type 0
  IsKept n (v, stop r) = Settled settings course route caller auth limit before n (v, r)
  IsKept n (v, go a) = IsPending n v

  continue-IsKept {ℓ κ} :
      {A : Type ℓ} {B : Type κ} (n : ℕ) (x : World × Flow A) (f : A → M B)
      → IsKept n x
      → ((a : A) (v : World) → IsPending n v → IsKept n (f a v))
      → IsKept n (continue x f)
  continue-IsKept n (v, stop r) f h k = h
  continue-IsKept n (v, go a) f h k = k a v h

  guard-IsKept :
      (b : Bool) (r : Reply) (n : ℕ) (w : World)
      → charge r ≡ 1
      → IsPending n w
      → IsKept n (guard b r w)
  guard-IsKept true r n w e h = h
  guard-IsKept false r n w e h = omega (arith, e, h.counts)

  check_length-IsKept :
      (z : Option ℤ) (n : ℕ) (w : World)
      → IsPending n w
      → IsKept n (check_length settings platform course z w)
  unfolding check_length charge
  check_length-IsKept (some (pos m)) n w h = guard-IsKept _ _ n w refl h
  check_length-IsKept (some (negsuc m)) n w h = h.counts
  check_length-IsKept none n w h = h.counts

  check_body-IsKept :
      (o : Option Text) (req : Request) (n : ℕ) (w : World)
      → IsPending n w
      → IsKept n (check_body settings platform course o req w)
  unfolding check_body charge
  check_body-IsKept (some s) req n w h = check_length-IsKept (platform.int_of s) n w h
  check_body-IsKept none req n w h = guard-IsKept _ _ n w refl h

  rebuild-IsKept :
      (o : Option Stored) (n : ℕ) (w : World)
      → IsPending n w
      → IsKept n (rebuild settings platform course route caller o w)
  unfolding rebuild counted charge
  rebuild-IsKept none n w h = h
  rebuild-IsKept (some r) n w h = rw auth (h.counts)

  replay-IsKept :
      (o : Option Text) (n : ℕ) (w : World)
      → IsPending n w
      → IsKept n (replay settings platform course route caller o w)
  unfolding replay
  replay-IsKept none n w h = h
  replay-IsKept (some key) n w h = rebuild-IsKept (read course.lookup_at (w.replies key)) n w h

  serve-Settled :
      (req : Request) (n : ℕ) (w : World)
      → IsPending n w
      → Settled settings course route caller auth limit before n
          (serve settings platform course route caller req w)
  unfolding serve
  serve-Settled req n w h =
      concluded-Settled settings course route caller auth limit before _ _ _ n _ (record {
        lives =
            subst (λ q. Outlives limit (q (month_key caller.user_id course.refund_month)))
              (sym (
                attempts-quotas settings route.target_url _ course.tries 0
                  settings.downstream_max_retries w))
              h.lives;
        counts =
            ap (λ q. held (q (month_key caller.user_id course.refund_month)))
              (attempts-quotas settings route.target_url _ course.tries 0
                settings.downstream_max_retries w)
            ∙ h.counts;
      })

  abbrev pub IsSettled : ℕ → World × Flow Reply → Type 0
  IsSettled n x =
      Settled settings course route caller auth limit before n (result settings platform course x)

  pub process-IsSettled :
      (req : Request) (n : ℕ) (w : World)
      → IsPending n w
      → IsSettled n (process settings platform course route caller req w)
  unfolding process accept_body
  process-IsSettled req n w h = after_body _ (check_body-IsKept _ req n w h)
    where
      after_replay :
          (x : World × Flow (Unit {0}))
          → IsKept n x
          → IsSettled n (
              continue x (λ _ v.
                let (u, r) = serve settings platform course route caller req v in (u, go r)))
      after_replay (v, stop r) k = k
      after_replay (v, go a) k = serve-Settled req n v k

      after_body :
          (x : World × Flow (Unit {0}))
          → IsKept n x
          → IsSettled n (
              continue x (λ _ v.
                continue
                  (replay settings platform course route caller
                    (reply_key settings platform course req)
                    v)
                  (λ _ v.
                    let (u, r) = serve settings platform course route caller req v in (u, go r))))
      after_body (v, stop r) k = k
      after_body (v, go a) k =
          after_replay _ (replay-IsKept (reply_key settings platform course req) n v k)
