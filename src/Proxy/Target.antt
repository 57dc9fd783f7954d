-- ===== src/Proxy/Target.antt =====
-- `_try_target`, the retries, and `_build_response`.
use gate_flow.Prelude.{
  ℕ, zero, suc, ◌+◌, ◌/◌, Bool, true, false, ◌&&◌, ◌||◌, not, Option, none, some, List, [], ◌∷◌,
  ◌++◌, leb, ltb, ◌==◌, if◌then◌else◌, length,
}
use gate_flow.Prelude.Int.{ℤ, pos, negsuc}
use gate_flow.Prelude.Text.{Text, codes}
use gate_flow.Portal.Decimal.{decimal}
use gate_flow.Http.{Headers, pop, put, upper}
use gate_flow.Auth.{invalidate_key}
use gate_flow.Redis.Key.{expire}
use gate_flow.Redis.TokenBucket.{token}
use gate_flow.Redis.CircuitBreaker.{Circuit, open_, check_circuit, report_circuit}
use gate_flow.Redis.Quota.{refund}
use gate_flow.Router.{Route, has}
use gate_flow.Proxy.State.{
  Stored, Sent, World, update, Settings, Answer, responds, unreachable, broken, Try, Course,
  transport, Reply, passed, raised,
}
use gate_flow.Proxy.Admission.{Caller, refuse, month_key}

-- What `_try_target` returns: a response and whether it is used, or nothing; or its exception.
pub data Tried : Type 0 where
  served : (status : ℕ) (headers : Headers) (body : List ℕ) → Tried
  unusable failed : Tried

module _ (settings : Settings) (target : Text) where
  abbrev pub reported : ℕ → Bool → World → World
  reported now success w = record w {
    circuits =
        update w.circuits target
          (some (report_circuit settings.circuit now success (w.circuits target)).0);
  }

  -- What follows the call of the service.
  unfoldable pub answered : ℕ → (report : Bool) → Answer → World → World × Tried
  answered now report unreachable w = (if report then reported now false w else w, unusable)
  answered now report broken w = (w, failed)
  answered now true (responds status headers body) w =
      if leb 500 status
      then (reported now false w, unusable)
      else (reported now true w, served status headers body)
  answered now false (responds status headers body) w =
      (w, if ltb status 500 then served status headers body else unusable)

  -- A call, unless the circuit is open.
  unfoldable pub gated : Sent → ℕ → (report : Bool) → Answer → Circuit → World → World × Tried
  gated call now report answer open_ w = (w, unusable)
  gated call now report answer s w =
      answered now report answer (record w { sent = w.sent ++ call ∷ [] })

  -- `_try_target` for the primary service.
  unfoldable pub try_target : Sent → (report : Bool) → Try → World → World × Tried
  try_target call report t w =
      let (k, c) = check_circuit settings.circuit t.check_at (w.circuits target) in
      gated call t.report_at report t.answer c.state
        (record w { circuits = update w.circuits target k })

  unfoldable pub retry : World × Tried → (World → World × Tried) → World × Tried
  retry (w, unusable) next = next w
  retry (w, t) next = (w, t)

  -- The loop over the attempts, of which `left` are to come. Only the last one reports.
  unfoldable pub attempts : Sent → (ℕ → Try) → (attempt left : ℕ) → World → World × Tried
  attempts call tries attempt zero w = (w, unusable)
  attempts call tries attempt (suc left) w =
      retry (try_target call (left == 0) (tries attempt) w) (attempts call tries (attempt + 1) left)

-- `idempotency_applies`
abbrev pub mutating_methods : List Text
mutating_methods = codes "POST" ∷ codes "PUT" ∷ codes "PATCH" ∷ codes "DELETE" ∷ []

unfoldable pub idempotency_applies : Text → Option Text → Bool
idempotency_applies method none = false
idempotency_applies method (some []) = false
idempotency_applies method (some (c ∷ key)) = has (upper method) mutating_methods

-- `str(int(remaining))`
unfoldable pub whole_tokens : ℤ → Text
whole_tokens (pos n) = decimal (n / token)
whole_tokens (negsuc n) = let m = (n + 1) / token in if m == 0 then decimal 0 else b'-' ∷ decimal m

module _ (settings : Settings) (course : Course) (route : Route) (caller : Caller) where
  -- The headers that both builders of a response set, with the text of the overhead.
  unfoldable pub stamped : Text → Headers → Headers
  stamped overhead hs =
      let hs' = put (codes "X-Response-Time-MS") course.total (
        put (codes "X-Gateway-Overhead-MS") overhead (
          put (codes "X-Request-ID") course.request_id
            (pop (codes "transfer-encoding") (pop (codes "content-length") hs)))) in
      if not route.requires_auth || caller.rate.allowed
      then put (codes "X-RateLimit-Remaining") (whole_tokens caller.rate.remaining) hs'
      else hs'

  -- `increment_request_count`, for a route that requires a key: it also drops the key from the
  -- cache.
  unfoldable pub counted : World → World
  counted w =
      if route.requires_auth
      then record w {
        counts = update w.counts caller.key_id (w.counts caller.key_id + 1);
        caches = invalidate_key caller.key_id w.caches;
      }
      else w

  -- `refund_monthly_quota`, for a route that requires a key.
  unfoldable pub refunded : World → World
  refunded w =
      let key = month_key caller.user_id course.refund_month in
      if route.requires_auth
      then record w { quotas = update w.quotas key (some (refund course.refund_at (w.quotas key))) }
      else w

  -- `store_idempotent_response` on the key of the request.
  unfoldable pub stored : Text → Stored → World → World
  stored key reply w = record w {
    replies = update w.replies key (some (expire course.store_at settings.idempotency_ttl reply));
  }

  -- `_build_response`; the key is there if the idempotency applies.
  unfoldable pub remembered : Option Text → Stored → World → World
  remembered none reply w = w
  remembered (some key) reply w =
      if leb 200 reply.status
        && ltb reply.status 300
        && leb (length reply.body) settings.idempotency_max_body_bytes
      then stored key reply w
      else w

  unfoldable pub build_response : Option Text → ℕ → Headers → List ℕ → World → World × Reply
  build_response key status headers body w =
      let hs = stamped course.overhead headers in
      let w' = if leb 500 status then refunded (counted w) else counted w in
      (
        remembered key (record { status = status; headers = hs; body = body }) w',
        passed status hs body,
      )

  -- The last lines: the service cannot be reached.
  unfoldable pub unavailable : Text → World → World × Reply
  unavailable detail w =
      (refunded w, refuse 504 (codes "Downstream service " ++ (detail ++ route.prefix)))

  -- What follows the attempts, by whether the route has a fallback and what they returned.
  unfoldable pub fall_back : Option Text → (Text → Sent) → Answer → Text → World → World × Reply
  fall_back key call (responds status headers body) url w =
      build_response key status headers body (record w { sent = w.sent ++ call url ∷ [] })
  fall_back key call unreachable url w =
      unavailable (codes "unavailable for route ") (record w { sent = w.sent ++ call url ∷ [] })
  fall_back key call broken url w = (record w { sent = w.sent ++ call url ∷ [] }, raised transport)

  unfoldable pub concluded :
      Option Text → (Text → Sent) → Option Text → World × Tried → World × Reply
  concluded key call url (w, served status headers body) = build_response key status headers body w
  concluded key call url (w, failed) = (w, raised transport)
  concluded key call none (w, unusable) = unavailable (codes "unreachable for route ") w
  concluded key call (some url) (w, unusable) = fall_back key call course.fallback url w
