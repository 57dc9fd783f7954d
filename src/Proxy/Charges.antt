-- ===== src/Proxy/Charges.antt =====
-- What a request costs its user of the monthly quota.
use mathlib.Core.Path.{subst}
use gate_flow.Prelude.{
  ℕ, zero, suc, ◌+◌, ◌<◌, ◌≡◌, refl, sym, ap, ◌∙◌, inl, inr, Bool, true, false, ◌||◌, ◌&&◌, Option,
  none, some, List, arith, leb, ltb, ◌==◌, if◌then◌else◌, length, Bool-cases, if_both,
}
use gate_flow.Prelude.Text.{Text, same_refl}
use gate_flow.Redis.CircuitBreaker.{Circuit, closed, open_, half_open, check_circuit}
use gate_flow.Redis.Quota.History.{Outlives, held, value-refund, usage-held}
use gate_flow.Http.{Headers}
use gate_flow.Router.{Route}
use gate_flow.Proxy.State.{
  Stored, Sent, World, Settings, Answer, responds, unreachable, broken, Try, Course, overflow,
  transport, Reply, error, passed, replayed, raised,
}
use gate_flow.Proxy.Admission.{Caller, month_key}
use gate_flow.Proxy.Target.{
  Tried, served, unusable, failed, answered, gated, try_target, retry, attempts, counted, refunded,
  stored, remembered, build_response, unavailable, fall_back, concluded, stamped,
}

-- An answer of a service below 500 and a stored reply count. So do a body that is refused and an
-- exception of the HTTP client; nothing else does.
unfoldable pub charge : Reply → ℕ
charge (error status detail retry_after) = if status == 400 || status == 413 then 1 else 0
charge (passed status headers body) = if ltb status 500 then 1 else 0
charge (replayed status headers body) = 1
charge (raised overflow) = 0
charge (raised transport) = 1

-- The attempts leave the counters alone.
module _ (settings : Settings) (target : Text) where
  answered-quotas :
      (now : ℕ) (report : Bool) (a : Answer) (w : World)
      → (answered settings target now report a w).0.quotas ≡ w.quotas
  unfolding answered
  answered-quotas now true unreachable w = refl
  answered-quotas now false unreachable w = refl
  answered-quotas now report broken w = refl
  answered-quotas now true (responds status headers body) w = elim (Bool-cases (leb 500 status)) [
    | inl e ↦ rw e refl
    | inr e ↦ rw e refl
  ]
  answered-quotas now false (responds status headers body) w = refl

  gated-quotas :
      (call : Sent) (now : ℕ) (report : Bool) (a : Answer) (s : Circuit) (w : World)
      → (gated settings target call now report a s w).0.quotas ≡ w.quotas
  unfolding gated
  gated-quotas call now report a open_ w = refl
  gated-quotas call now report a closed w = answered-quotas now report a _
  gated-quotas call now report a half_open w = answered-quotas now report a _

  try_target-quotas :
      (call : Sent) (report : Bool) (t : Try) (w : World)
      → (try_target settings target call report t w).0.quotas ≡ w.quotas
  unfolding try_target
  try_target-quotas call report t w =
      let (k, c) = check_circuit settings.circuit t.check_at (w.circuits target) in
      gated-quotas call t.report_at report t.answer c.state _

  retry-quotas :
      (x : World × Tried) (next : World → World × Tried) (w : World)
      → x.0.quotas ≡ w.quotas
      → ((v : World) → (next v).0.quotas ≡ v.quotas)
      → (retry settings target x next).0.quotas ≡ w.quotas
  unfolding retry
  retry-quotas (v, unusable) next w e h = h v ∙ e
  retry-quotas (v, served status headers body) next w e h = e
  retry-quotas (v, failed) next w e h = e

  pub attempts-quotas :
      (call : Sent) (tries : ℕ → Try) (attempt left : ℕ) (w : World)
      → (attempts settings target call tries attempt left w).0.quotas ≡ w.quotas
  unfolding attempts
  attempts-quotas call tries attempt zero w = refl
  attempts-quotas call tries attempt (suc left) w =
      retry-quotas _ _ w (try_target-quotas call (left == 0) (tries attempt) w)
        (attempts-quotas call tries (attempt + 1) left)

-- From a reservation on: the counter keeps exactly what the reply costs.
module _ (settings : Settings) (course : Course) (route : Route) (caller : Caller)
    (auth : route.requires_auth ≡ true) (limit : ℕ) (before : course.refund_at < limit) where
  abbrev counter : Text
  counter = month_key caller.user_id course.refund_month

  -- A world in which a reservation of the caller stands, as far as quotas are concerned.
  pub record HasReserved (n : ℕ) (w : World) : Type 0 where
    pub lives : Outlives limit (w.quotas counter)
    pub counts : held (w.quotas counter) ≡ n + 1

  abbrev pub Settled : ℕ → World × Reply → Type 0
  Settled n (w, r) = held (w.quotas counter) ≡ n + charge r

  HasReserved-same : (n : ℕ) (v w : World) → v.quotas ≡ w.quotas → HasReserved n w → HasReserved n v
  HasReserved-same n v w e h = record {
    lives = subst (λ q. Outlives limit (q counter)) (sym e) h.lives;
    counts = ap (λ q. held (q counter)) e ∙ h.counts;
  }

  refunded-held :
      (n : ℕ) (w : World)
      → HasReserved n w
      → held ((refunded settings course route caller w).quotas counter) ≡ n
  unfolding refunded
  refunded-held n w h =
      rw (auth, same_refl counter)
        (omega (
          arith,
          value-refund course.refund_at (w.quotas counter),
          usage-held limit course.refund_at (w.quotas counter) h.lives before,
          h.counts,
        ))

  counted-quotas : (w : World) → (counted settings course route caller w).quotas ≡ w.quotas
  unfolding counted
  counted-quotas w = rw auth refl

  remembered-quotas :
      (key : Option Text) (reply : Stored) (w : World)
      → (remembered settings course route caller key reply w).quotas ≡ w.quotas
  unfolding remembered stored
  remembered-quotas none reply w = refl
  remembered-quotas (some key) reply w =
      if_both (λ (v : World). v.quotas ≡ w.quotas)
        (leb 200 reply.status
          && ltb reply.status 300
          && leb (length reply.body) settings.idempotency_max_body_bytes)
        refl refl

  build_response-Settled :
      (key : Option Text) (status : ℕ) (hs : Headers) (body : List ℕ) (n : ℕ) (w : World)
      → HasReserved n w
      → Settled n (build_response settings course route caller key status hs body w)
  unfolding build_response charge
  build_response-Settled key status hs body n w h =
      let h' = HasReserved-same n _ w (counted-quotas w) h in
      let reply : Stored = record {
        status = status;
        headers = stamped settings course route caller course.overhead hs;
        body = body;
      } in
      elim (Bool-cases (leb 500 status)) [
        | inl e ↦
            rw
              (
                e,
                remembered-quotas key reply (
                    refunded settings course route caller (counted settings course route caller w)),
                refunded-held n (counted settings course route caller w) h',
              )
              (ground (arith, e))
        | inr e ↦
            rw (e, remembered-quotas key reply (counted settings course route caller w), h'.counts)
              (ground (arith, e))
      ]

  unavailable-Settled :
      (text : Text) (n : ℕ) (w : World)
      → HasReserved n w
      → Settled n (unavailable settings course route caller text w)
  unfolding unavailable charge
  unavailable-Settled text n w h = omega (arith, refunded-held n w h)

  fall_back-Settled :
      (key : Option Text) (call : Text → Sent) (a : Answer) (url : Text) (n : ℕ) (w : World)
      → HasReserved n w
      → Settled n (fall_back settings course route caller key call a url w)
  unfolding fall_back charge
  fall_back-Settled key call (responds status hs body) url n w h =
      build_response-Settled key status hs body n _ (HasReserved-same n _ w refl h)
  fall_back-Settled key call unreachable url n w h =
      unavailable-Settled _ n _ (HasReserved-same n _ w refl h)
  fall_back-Settled key call broken url n w h = h.counts

  pub concluded-Settled :
      (key : Option Text) (call : Text → Sent) (url : Option Text) (n : ℕ) (x : World × Tried)
      → HasReserved n x.0
      → Settled n (concluded settings course route caller key call url x)
  unfolding concluded charge
  concluded-Settled key call url n (w, served status hs body) h =
      build_response-Settled key status hs body n w h
  concluded-Settled key call url n (w, failed) h = h.counts
  concluded-Settled key call none n (w, unusable) h = unavailable-Settled _ n w h
  concluded-Settled key call (some url) n (w, unusable) h =
      fall_back-Settled key call course.fallback url n w h
