-- ===== src/Proxy/Replays.antt =====
-- Replies that are stored under an idempotency key.
use mathlib.Core.Path.{subst}
use gate_flow.Prelude.{
  ℕ, ◌+◌, ◌*◌, ◌<◌, ◌≡◌, ◌⊎◌, refl, sym, ◌∙◌, inl, inr, Bool, true, false, ◌&&◌, Option, none, some,
  List, arith, leb, ltb, length, Bool-cases,
}
use gate_flow.Prelude.Int.{ℤ, pos, negsuc}
use gate_flow.Prelude.Text.{Text, codes, same_refl}
use gate_flow.Http.{Headers}
use gate_flow.Redis.Key.{read, expire, second}
use gate_flow.Router.{Route}
use gate_flow.Proxy.State.{
  Stored, Sent, World, Settings, Answer, responds, unreachable, broken, Platform, Course, Request,
  Reply, error, passed, replayed, Flow, go, M, continue, guard,
}
use gate_flow.Proxy.Admission.{Caller}
use gate_flow.Proxy.Target.{
  Tried, served, unusable, failed, stored, remembered, build_response, unavailable, fall_back,
  concluded, stamped,
}
use gate_flow.Proxy.{
  check_length, check_body, accept_body, rebuild, replay, serve, process, result, reply_key,
}

-- Whether a reply is stored.
abbrev pub is_storable : Settings → ℕ → List ℕ → Bool
is_storable settings status body =
    leb 200 status && ltb status 300 && leb (length body) settings.idempotency_max_body_bytes

module _ (settings : Settings) (course : Course) (route : Route) (caller : Caller)
    (key : Text) where
  -- A reply of a service that can be stored is stored, as the client gets it.
  abbrev IsStored : World × Reply → Type 0
  IsStored (v, passed status hs body) =
      (is_storable settings status body ≡ false)
      ⊎ (v.replies key
          ≡ some (
              expire course.store_at settings.idempotency_ttl
                (record { status = status; headers = hs; body = body })))
  IsStored (v, r) = Unit {0}

  build_response-IsStored :
      (status : ℕ) (hs : Headers) (body : List ℕ) (w : World)
      → IsStored (build_response settings course route caller (some key) status hs body w)
  unfolding build_response remembered stored
  build_response-IsStored status hs body w = elim (Bool-cases (is_storable settings status body)) [
    | inl e ↦ inr (rw (e, same_refl key) refl)
    | inr e ↦ inl e
  ]

  concluded-IsStored :
      (call : Text → Sent) (url : Option Text) (x : World × Tried)
      → IsStored (concluded settings course route caller (some key) call url x)
  unfolding concluded unavailable
  concluded-IsStored call url (w, served status hs body) = build_response-IsStored status hs body w
  concluded-IsStored call url (w, failed) = tt
  concluded-IsStored call none (w, unusable) = tt
  concluded-IsStored call (some url) (w, unusable) = fell_back course.fallback
    where
      fell_back :
          (a : Answer) → IsStored (fall_back settings course route caller (some key) call a url w)
      fell_back (responds status hs body) =
          unfold fall_back in build_response-IsStored status hs body _
      fell_back unreachable = unfold fall_back in tt
      fell_back broken = unfold fall_back in tt

module _ (settings : Settings) (platform : Platform) (course : Course) (route : Route)
    (caller : Caller) (req : Request) (key : Text)
    (named : reply_key settings platform course req ≡ some key) where
  abbrev IsEnded : World × Flow Reply → Type 0
  IsEnded x = IsStored settings course route caller key (result settings platform course x)

  serve-IsStored :
      (w : World)
      → IsStored settings course route caller key
          (serve settings platform course route caller req w)
  unfolding serve
  serve-IsStored w = rw named (concluded-IsStored settings course route caller key _ _ _)

  rebuild-IsEnded :
      (o : Option Stored) (w : World)
      → IsEnded (
          continue
            (rebuild settings platform course route caller o w)
            (λ _ v. let (u, r) = serve settings platform course route caller req v in (u, go r)))
  unfolding rebuild
  rebuild-IsEnded none w = serve-IsStored w
  rebuild-IsEnded (some s) w = tt

  abbrev rest : M Reply
  rest w =
      continue
        (replay settings platform course route caller (reply_key settings platform course req) w)
        (λ _ v. let (u, r) = serve settings platform course route caller req v in (u, go r))

  rest-IsEnded : (w : World) → IsEnded (rest w)
  unfolding replay
  rest-IsEnded w = rw named (rebuild-IsEnded (read course.lookup_at (w.replies key)) w)

  guard-IsEnded :
      (b : Bool) (status : ℕ) (detail : Text) (retry_after : Option ℕ) (w : World)
      → IsEnded (continue (guard b (error status detail retry_after) w) (λ _ v. rest v))
  guard-IsEnded true status detail retry_after w = rest-IsEnded w
  guard-IsEnded false status detail retry_after w = tt

  check_length-IsEnded :
      (z : Option ℤ) (w : World)
      → IsEnded (continue (check_length settings platform course z w) (λ _ v. rest v))
  unfolding check_length
  check_length-IsEnded (some (pos n)) w = guard-IsEnded _ _ _ _ w
  check_length-IsEnded (some (negsuc n)) w = tt
  check_length-IsEnded none w = tt

  check_body-IsEnded :
      (o : Option Text) (w : World)
      → IsEnded (continue (check_body settings platform course o req w) (λ _ v. rest v))
  unfolding check_body
  check_body-IsEnded (some s) w = check_length-IsEnded (platform.int_of s) w
  check_body-IsEnded none w = guard-IsEnded _ _ _ _ w

  process-IsEnded : (w : World) → IsEnded (process settings platform course route caller req w)
  unfolding process accept_body
  process-IsEnded w = check_body-IsEnded _ w

  -- A request whose body is accepted gets the stored reply.
  process_replayed :
      (w : World) (s : Stored)
      → accept_body settings platform course route req w ≡ (w, go tt)
      → read course.lookup_at (w.replies key) ≡ some s
      → (result settings platform course (process settings platform course route caller req w)).1
        ≡ replayed s.status (stamped settings course route caller (codes "0.000") s.headers) s.body
  unfolding process replay rebuild
  process_replayed w s a e = rw (a, named, replay) (rw (e, rebuild) refl)

-- Let an answer with a status from 200 to 299 and a body within the limit be passed on to a request
-- with an idempotency key. Then a later request with the same key of its stored reply, whose body
-- is accepted, gets that status and that body, if it comes within the time to live and nothing else
-- wrote that reply: whoever sends it, and whoever the first one was answered for.
pub process-process :
    (settings : Settings) (platform : Platform) (course course' : Course) (route route' : Route)
    (caller caller' : Caller) (req req' : Request) (key : Text) (w v v' : World) (status : ℕ)
    (hs : Headers) (body : List ℕ)
    → reply_key settings platform course req ≡ some key
    → reply_key settings platform course' req' ≡ some key
    → result settings platform course (process settings platform course route caller req w)
      ≡ (v, passed status hs body)
    → is_storable settings status body ≡ true
    → v'.replies key ≡ v.replies key
    → accept_body settings platform course' route' req' v' ≡ (v', go tt)
    → course'.lookup_at < course.store_at + settings.idempotency_ttl * second
    → (result settings platform course'
        (process settings platform course' route' caller' req' v')).1
      ≡ replayed status (stamped settings course' route' caller' (codes "0.000") hs) body
process-process settings platform course course' route route' caller caller' req req' key w v v'
      status hs body named named' first storable same_reply accepted in_time =
    let s : Stored = record { status = status; headers = hs; body = body } in
    let ended = process-IsEnded settings platform course route caller req key named w in
    let kept : IsStored settings course route caller key (v, passed status hs body) =
      subst (IsStored settings course route caller key) first ended in
    let there : v'.replies key ≡ some (expire course.store_at settings.idempotency_ttl s) =
      elim kept [
        | inl e ↦ absurd (let no : ◌≡◌ {A = Bool} true false = sym storable ∙ e in cc)
        | inr e ↦ same_reply ∙ e
      ] in
    let found : read course'.lookup_at (v'.replies key) ≡ some s =
      rw there (unfold read expire in ground (arith, in_time)) in
    process_replayed settings platform course' route' caller' req' key named' v' s accepted found
