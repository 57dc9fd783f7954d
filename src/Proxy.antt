-- ===== src/Proxy.antt =====
-- handle_request of gateflow/proxy.py, for a request that nothing else overtakes. The bodies of
-- requests and responses are whole: a streamed body is what its chunks hold together.
mod Tests
pub mod State
pub mod Admission
pub mod Target
pub mod Charges
pub mod Settling
pub mod Accounts
pub mod Answers
pub mod Calls
pub mod Guards
pub mod Circuits
pub mod Replays
pub mod Urls
use gate_flow.Prelude.{
  ℕ, ◌+◌, ◌-◌, ◌/◌, ◌%◌, Bool, true, false, ◌&&◌, not, Option, none, some, List, [], ◌∷◌, ◌++◌, leb,
  ltb, ◌==◌, if◌then◌else◌, length,
}
use gate_flow.Prelude.Int.{ℤ, pos, negsuc}
use gate_flow.Prelude.Text.{Text, codes}
use gate_flow.Prelude.Strip.{strip_start, strip_end}
use gate_flow.Portal.Decimal.{decimal}
use gate_flow.Http.{Headers, header, forwarded}
use gate_flow.Redis.Key.{read}
use gate_flow.Router.{Route, Routes, slash, is_slash, build_downstream_path}
use State.{
  Stored, Sent, World, Settings, Platform, Course, Request, Reply, error, replayed, Flow, stop, go,
  M, ◌>>=◌, ◌>>◌, pure, return, guard,
}
use Admission.{Caller, refuse, choose_route, admit}
use Target.{attempts, idempotency_applies, counted, stamped, concluded}

-- `body.hex()`
unfoldable pub hex_digit : ℕ → ℕ
hex_digit d = if ltb d 10 then b'0' + d else b'a' + d - 10

unfoldable pub hex : List ℕ → Text
hex [] = []
hex (b ∷ body) = hex_digit (b / 16) ∷ hex_digit (b % 16) ∷ hex body

-- What `_fingerprint` gives to the digest.
unfoldable pub raw_fingerprint : (method path idempotency_key : Text) → List ℕ → Text
raw_fingerprint method path idempotency_key body =
    method ++ (b':' ∷ (path ++ (b':' ∷ (idempotency_key ++ (b':' ∷ hex body)))))

module _ (settings : Settings) (platform : Platform) (course : Course) where
  -- The name of the stored reply, where the idempotency applies.
  unfoldable pub key_of : Request → Option Text → Option Text
  key_of req none = none
  key_of req (some idempotency_key) =
      if settings.idempotency_enabled && idempotency_applies req.method (some idempotency_key)
      then some (platform.digest (raw_fingerprint req.method req.path idempotency_key req.body))
      else none

  unfoldable pub reply_key : Request → Option Text
  reply_key req = key_of req (header (codes "idempotency-key") req.headers)

  abbrev pub too_large : Reply
  too_large =
      refuse 413 (
        codes "Request body exceeds "
        ++ (decimal settings.max_request_body_bytes ++ codes " bytes"))

  -- `use_streaming`, on the fallback and the Content-Length header.
  unfoldable pub length_trusted : Option Text → Option Text → Option Text → Option Text
  length_trusted none none (some n) = if settings.downstream_max_retries == 1 then some n else none
  length_trusted none (some []) (some n) =
      if settings.downstream_max_retries == 1 then some n else none
  length_trusted _ _ _ = none

  unfoldable pub check_length : Option ℤ → M (Unit {0})
  check_length (some (pos n)) = guard (leb n settings.max_request_body_bytes) too_large
  check_length _ = return (refuse 400 (codes "Invalid Content-Length header"))

  unfoldable pub check_body : Option Text → Request → M (Unit {0})
  check_body (some n) req = check_length (platform.int_of n)
  check_body none req = guard (leb (length req.body) settings.max_request_body_bytes) too_large

  unfoldable pub accept_body : Route → Request → M (Unit {0})
  accept_body route req =
      check_body
        (length_trusted (reply_key req) route.fallback_url
          (header (codes "content-length") req.headers))
        req

  -- `_rebuild_idempotent_response`
  unfoldable pub rebuild : Route → Caller → Option Stored → M (Unit {0})
  rebuild route caller none w = (w, go tt)
  rebuild route caller (some r) w = (
    counted settings course route caller w,
    stop
        (replayed r.status (stamped settings course route caller (codes "0.000") r.headers) r.body),
  )

  unfoldable pub replay : Route → Caller → Option Text → M (Unit {0})
  replay route caller none w = (w, go tt)
  replay route caller (some key) w = rebuild route caller (read course.lookup_at (w.replies key)) w

  -- `urljoin(base.rstrip("/") + "/", downstream_path.lstrip("/"))`
  unfoldable pub url_of : Text → Text → Text
  url_of base downstream_path =
      platform.urljoin (strip_end is_slash base ++ slash ∷ [])
        (strip_start is_slash downstream_path)

  -- The fallback's URL, where the route has one.
  unfoldable pub fallback_url : Option Text → Text → Option Text
  fallback_url none path = none
  fallback_url (some []) path = none
  fallback_url (some (c ∷ base)) path = some (url_of (c ∷ base) path)

  -- The call of a service.
  unfoldable pub call_of : Caller → Request → Text → Sent
  call_of caller req url = record {
    method = req.method;
    url = url;
    headers = forwarded course.request_id caller.user_id caller.tier req.headers;
    body = req.body;
  }

  -- The attempts, the fallback and the answer.
  unfoldable pub serve : Route → Caller → Request → World → World × Reply
  serve route caller req w =
      let path = build_downstream_path route req.path in
      let call = call_of caller req in
      concluded settings course route caller (reply_key req) call
        (fallback_url route.fallback_url path)
        (attempts settings route.target_url (call (url_of route.target_url path)) course.tries 0
          settings.downstream_max_retries w)

  -- What is left when the request is admitted.
  unfoldable pub process : Route → Caller → Request → M Reply
  process route caller req = do
    accept_body route req
    replay route caller (reply_key req)
    λ w. let (w', r) = serve route caller req w in (w', go r)

  unfoldable pub handle : Routes → Request → M Reply
  handle routes req = do
    route ← choose_route settings platform course routes req
    caller ← admit settings platform course route req
    process route caller req

  abbrev pub result : World × Flow Reply → World × Reply
  result (w, stop r) = (w, r)
  result (w, go r) = (w, r)

  unfoldable pub handle_request : Routes → Request → World → World × Reply
  handle_request routes req w = result (handle routes req w)
