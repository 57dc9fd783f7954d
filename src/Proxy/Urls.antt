-- ===== src/Proxy/Urls.antt =====
-- Where a request is sent.
use gate_flow.Prelude.{
  ℕ, suc, ◌<◌, ◌≡◌, refl, ap, ◌∙◌, true, Option, List, [], ◌∷◌, ◌++◌, arith, ltb, ◌==◌, Bool-cases,
  inl, inr, lt→leb_false,
}
use gate_flow.Prelude.Text.{Text, codes}
use gate_flow.Prelude.Strip.{strip_start, strip_end}
use gate_flow.Http.{Headers}
use gate_flow.Redis.CircuitBreaker.{closed, check_circuit}
use gate_flow.Router.{Route, slash, is_slash, build_downstream_path}
use gate_flow.Router.Covering.{inside}
use gate_flow.Router.Downstream.{build_downstream_path-rest}
use gate_flow.Proxy.State.{Sent, World, Settings, responds, Try, Platform, Course, Request}
use gate_flow.Proxy.Admission.{Caller}
use gate_flow.Proxy.Target.{
  Tried, served, unusable, failed, answered, gated, try_target, retry, attempts, concluded,
}
use gate_flow.Proxy.Answers.{build_response-sent}
use gate_flow.Proxy.{url_of, call_of, serve, reply_key, fallback_url}

-- A call that is answered below 500 is the only one.
attempts_answered :
    (settings : Settings) (target : Text) (call : Sent) (tries : ℕ → Try) (more status : ℕ)
    (hs : Headers) (body : List ℕ) (w : World)
    → (check_circuit settings.circuit (tries 0).check_at (w.circuits target)).1.state ≡ closed
    → (tries 0).answer ≡ responds status hs body
    → status < 500
    → let (v, r) = attempts settings target call tries 0 (suc more) w in
      (r ≡ served status hs body) × (v.sent ≡ w.sent ++ call ∷ [])
unfolding attempts retry try_target gated answered
attempts_answered settings target call tries more status hs body w s a h =
    let below : ltb status 500 ≡ true = ground (arith, h) in
    elim (Bool-cases (more == 0)) [
      | inl e ↦ rw (s, a, e, lt→leb_false 500 status h) (refl, refl)
      | inr e ↦ rw (s, a, e, below) (refl, refl)
    ]

concluded-sent :
    (settings : Settings) (course : Course) (route : Route) (caller : Caller) (key : Option Text)
    (call : Text → Sent) (url : Option Text) (status : ℕ) (hs : Headers) (body : List ℕ)
    (x : World × Tried)
    → x.1 ≡ served status hs body
    → (concluded settings course route caller key call url x).0.sent ≡ x.0.sent
unfolding concluded
concluded-sent settings course route caller key call url status hs body (w, served t ks bs) e =
    build_response-sent settings course route caller key t ks bs w
concluded-sent settings course route caller key call url status hs body (w, unusable) e = cc
concluded-sent settings course route caller key call url status hs body (w, failed) e = cc

-- The URL of a service is what `urljoin` makes of the rest of the path, without its slashes.
url_of-absolute :
    (settings : Settings) (platform : Platform) (course : Course) (route : Route) (address : Text)
    → route.strip_prefix ≡ true
    → ((base : Text)
        → platform.urljoin base (codes "http://" ++ address) ≡ codes "http://" ++ address)
    → url_of settings platform course route.target_url (
        build_downstream_path route
          (slash ∷ (route.prefix ++ slash ∷ (codes "http://" ++ address))))
      ≡ codes "http://" ++ address
unfolding url_of strip_start
url_of-absolute settings platform course route address strips absolute =
    rw
      (
        build_downstream_path-rest route (route.prefix ++ slash ∷ (codes "http://" ++ address))
            (inside (codes "http://" ++ address) refl),
        strips,
      )
      (absolute (strip_end is_slash route.target_url ++ slash ∷ []))

-- A client chooses the server: behind a route that strips its prefix, a path that goes on with an
-- absolute URL is sent there, with the body and the forwarded headers of the client. The circuit is
-- closed, and the service answers the first attempt below 500. The hypothesis on `urljoin` is its
-- documented behaviour: an absolute URL is taken as it is.
pub serve-absolute :
    (settings : Settings) (platform : Platform) (course : Course) (route : Route) (caller : Caller)
    (req : Request) (address : Text) (w : World) (more status : ℕ) (hs : Headers) (body : List ℕ)
    → route.strip_prefix ≡ true
    → ((base : Text)
        → platform.urljoin base (codes "http://" ++ address) ≡ codes "http://" ++ address)
    → req.path ≡ slash ∷ (route.prefix ++ slash ∷ (codes "http://" ++ address))
    → settings.downstream_max_retries ≡ suc more
    → (check_circuit settings.circuit
        (course.tries 0).check_at
        (w.circuits route.target_url)).1.state
      ≡ closed
    → (course.tries 0).answer ≡ responds status hs body
    → status < 500
    → (serve settings platform course route caller req w).0.sent
      ≡ w.sent ++ call_of settings platform course caller req (codes "http://" ++ address) ∷ []
unfolding serve
serve-absolute settings platform course route caller req address w more status hs body strips
      absolute path retries s a h =
    let url =
      url_of settings platform course route.target_url (build_downstream_path route req.path) in
    let goal_url : url ≡ codes "http://" ++ address =
      ap (λ p. url_of settings platform course route.target_url (build_downstream_path route p))
        path
      ∙ url_of-absolute settings platform course route address strips absolute in
    let call = call_of settings platform course caller req in
    let x = attempts settings route.target_url (call url) course.tries 0 (suc more) w in
    let (r, sent) =
      attempts_answered settings route.target_url (call url) course.tries more status hs body w s a
        h in
    let after = λ (y : World × Tried).
      concluded settings course route caller (reply_key settings platform course req) call
        (fallback_url settings platform course route.fallback_url
          (build_downstream_path route req.path))
        y in
    ap (λ n. (after (attempts settings route.target_url (call url) course.tries 0 n w)).0.sent)
      retries
    ∙ concluded-sent settings course route caller (reply_key settings platform course req) call _
        status hs body x r
    ∙ sent
    ∙ ap (λ u. w.sent ++ call u ∷ []) goal_url
