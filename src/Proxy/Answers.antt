-- ===== src/Proxy/Answers.antt =====
-- The attempts and the answer, and how often they call a service.
use gate_flow.Prelude.{
  ℕ, zero, suc, ◌+◌, ◌≤◌, ◌≡◌, ◌⊎◌, refl, ap, ◌∙◌, inl, inr, Bool, true, false, ◌&&◌, Option, none,
  some, List, [], ◌∷◌, ◌++◌, arith, leb, ltb, ◌==◌, if◌then◌else◌, length, length-append,
  Bool-cases, if_both,
}
use gate_flow.Prelude.Text.{Text}
use gate_flow.Http.{Headers}
use gate_flow.Redis.CircuitBreaker.{Circuit, closed, open_, half_open, check_circuit}
use gate_flow.Router.{Route}
use gate_flow.Proxy.State.{
  Stored, Sent, World, update, Settings, Answer, responds, unreachable, broken, Try, Course,
  transport, Reply, error, passed, raised,
}
use gate_flow.Proxy.Admission.{Caller}
use gate_flow.Proxy.Target.{
  Tried, served, unusable, failed, answered, gated, try_target, retry, attempts, counted, refunded,
  stored, stamped, remembered, build_response, unavailable, fall_back, concluded,
}

abbrev pub IsWithin : ℕ → World → World → Type 0
IsWithin n w v = length v.sent ≤ length w.sent + n

module _ (settings : Settings) (target : Text) where
  answered-sent :
      (now : ℕ) (report : Bool) (a : Answer) (w : World)
      → (answered settings target now report a w).0.sent ≡ w.sent
  unfolding answered
  answered-sent now true unreachable w = refl
  answered-sent now false unreachable w = refl
  answered-sent now report broken w = refl
  answered-sent now true (responds status headers body) w = elim (Bool-cases (leb 500 status)) [
    | inl e ↦ rw e refl
    | inr e ↦ rw e refl
  ]
  answered-sent now false (responds status headers body) w = refl

  called : (call : Sent) (w v : World) → v.sent ≡ w.sent ++ call ∷ [] → IsWithin 1 w v
  called call w v e = omega (arith, ap length e, length-append w.sent (call ∷ []))

  gated-IsWithin :
      (call : Sent) (now : ℕ) (report : Bool) (a : Answer) (s : Circuit) (w : World)
      → IsWithin 1 w (gated settings target call now report a s w).0
  unfolding gated
  gated-IsWithin call now report a open_ w = omega arith
  gated-IsWithin call now report a closed w =
      called call w
        (answered settings target now report a (record w { sent = w.sent ++ call ∷ [] })).0
        (answered-sent now report a (record w { sent = w.sent ++ call ∷ [] }))
  gated-IsWithin call now report a half_open w =
      called call w
        (answered settings target now report a (record w { sent = w.sent ++ call ∷ [] })).0
        (answered-sent now report a (record w { sent = w.sent ++ call ∷ [] }))

  try_target-IsWithin :
      (call : Sent) (report : Bool) (t : Try) (w : World)
      → IsWithin 1 w (try_target settings target call report t w).0
  unfolding try_target
  try_target-IsWithin call report t w =
      let (k, c) = check_circuit settings.circuit t.check_at (w.circuits target) in
      gated-IsWithin call t.report_at report t.answer c.state
        (record w { circuits = update w.circuits target k })

  retry-IsWithin :
      (n : ℕ) (x : World × Tried) (next : World → World × Tried) (w : World)
      → IsWithin 1 w x.0
      → ((v : World) → IsWithin n v (next v).0)
      → IsWithin (suc n) w (retry settings target x next).0
  unfolding retry
  retry-IsWithin n (v, unusable) next w e h = omega (arith, e, h v)
  retry-IsWithin n (v, served status headers body) next w e h = omega (arith, e)
  retry-IsWithin n (v, failed) next w e h = omega (arith, e)

  pub attempts-IsWithin :
      (call : Sent) (tries : ℕ → Try) (attempt left : ℕ) (w : World)
      → IsWithin left w (attempts settings target call tries attempt left w).0
  unfolding attempts
  attempts-IsWithin call tries attempt zero w = omega arith
  attempts-IsWithin call tries attempt (suc left) w =
      retry-IsWithin left (try_target settings target call (left == 0) (tries attempt) w)
        (attempts settings target call tries (attempt + 1) left) w
        (try_target-IsWithin call (left == 0) (tries attempt) w)
        (attempts-IsWithin call tries (attempt + 1) left)

-- A service gives this answer at one of the attempts, or as the fallback.
abbrev pub IsSaid : Course → Answer → Type 0
IsSaid course a = ((n : ℕ) × ((course.tries n).answer ≡ a)) ⊎ (course.fallback ≡ a)

abbrev IsHeard : Course → Tried → Type 0
IsHeard course (served status headers body) = IsSaid course (responds status headers body)
IsHeard course unusable = Unit
IsHeard course failed = IsSaid course broken

module _ (settings : Settings) (target : Text) (course : Course) where
  answered-IsHeard :
      (now : ℕ) (report : Bool) (a : Answer) (w : World)
      → IsSaid course a
      → IsHeard course (answered settings target now report a w).1
  unfolding answered
  answered-IsHeard now true unreachable w h = tt
  answered-IsHeard now false unreachable w h = tt
  answered-IsHeard now true broken w h = h
  answered-IsHeard now false broken w h = h
  answered-IsHeard now true (responds status headers body) w h =
      elim (Bool-cases (leb 500 status)) [ inl e ↦ rw e tt | inr e ↦ rw e h ]
  answered-IsHeard now false (responds status headers body) w h =
      elim (Bool-cases (ltb status 500)) [ inl e ↦ rw e h | inr e ↦ rw e tt ]

  gated-IsHeard :
      (call : Sent) (now : ℕ) (report : Bool) (a : Answer) (s : Circuit) (w : World)
      → IsSaid course a
      → IsHeard course (gated settings target call now report a s w).1
  unfolding gated
  gated-IsHeard call now report a open_ w h = tt
  gated-IsHeard call now report a closed w h = answered-IsHeard now report a _ h
  gated-IsHeard call now report a half_open w h = answered-IsHeard now report a _ h

  try_target-IsHeard :
      (call : Sent) (report : Bool) (n : ℕ) (w : World)
      → IsHeard course (try_target settings target call report (course.tries n) w).1
  unfolding try_target
  try_target-IsHeard call report n w =
      let t = course.tries n in
      let (k, c) = check_circuit settings.circuit t.check_at (w.circuits target) in
      gated-IsHeard call t.report_at report t.answer c.state
        (record w { circuits = update w.circuits target k }) (inl (n, refl))

  retry-IsHeard :
      (x : World × Tried) (next : World → World × Tried)
      → IsHeard course x.1
      → ((v : World) → IsHeard course (next v).1)
      → IsHeard course (retry settings target x next).1
  unfolding retry
  retry-IsHeard (v, unusable) next e h = h v
  retry-IsHeard (v, served status headers body) next e h = e
  retry-IsHeard (v, failed) next e h = e

  pub attempts-IsHeard :
      (call : Sent) (attempt left : ℕ) (w : World)
      → IsHeard course (attempts settings target call course.tries attempt left w).1
  unfolding attempts
  attempts-IsHeard call attempt zero w = tt
  attempts-IsHeard call attempt (suc left) w =
      retry-IsHeard (try_target settings target call (left == 0) (course.tries attempt) w)
        (attempts settings target call course.tries (attempt + 1) left)
        (try_target-IsHeard call (left == 0) attempt w) (attempts-IsHeard call (attempt + 1) left)

-- The replies of a request that has come to the services: an answer of one of them, with its
-- status, its body, and its headers as they are stamped; the status 504; an exception of the HTTP client.
pub data IsAnswer (settings : Settings) (course : Course) : Reply → Type 0 where
  came_through :
      (status : ℕ) (headers : Headers) (body : List ℕ) (route : Route) (caller : Caller)
      → IsSaid course (responds status headers body)
      → IsAnswer settings course
          (passed status (stamped settings course route caller course.overhead headers) body)
  gave_up : (text : Text) → IsAnswer settings course (error 504 text none)
  broke : IsSaid course broken → IsAnswer settings course (raised transport)

module _ (settings : Settings) (course : Course) (route : Route) (caller : Caller) where
  refunded-sent : (w : World) → (refunded settings course route caller w).sent ≡ w.sent
  unfolding refunded
  refunded-sent w = if_both (λ (v : World). v.sent ≡ w.sent) route.requires_auth refl refl

  pub counted-sent : (w : World) → (counted settings course route caller w).sent ≡ w.sent
  unfolding counted
  counted-sent w = if_both (λ (v : World). v.sent ≡ w.sent) route.requires_auth refl refl

  remembered-sent :
      (key : Option Text) (reply : Stored) (w : World)
      → (remembered settings course route caller key reply w).sent ≡ w.sent
  unfolding remembered stored
  remembered-sent none reply w = refl
  remembered-sent (some key) reply w =
      if_both (λ (v : World). v.sent ≡ w.sent)
        (leb 200 reply.status
          && ltb reply.status 300
          && leb (length reply.body) settings.idempotency_max_body_bytes)
        refl refl

  pub build_response-sent :
      (key : Option Text) (status : ℕ) (hs : Headers) (body : List ℕ) (w : World)
      → (build_response settings course route caller key status hs body w).0.sent ≡ w.sent
  unfolding build_response
  build_response-sent key status hs body w =
      let u : World =
        if leb 500 status
        then refunded settings course route caller (counted settings course route caller w)
        else counted settings course route caller w in
      let same_sent : u.sent ≡ w.sent =
        if_both (λ (t : World). t.sent ≡ w.sent) (leb 500 status)
          (refunded-sent (counted settings course route caller w) ∙ counted-sent w)
          (counted-sent w) in
      remembered-sent key _ u ∙ same_sent

  -- `n` calls at most, and an answer of the services.
  abbrev pub IsAnswered : ℕ → World → World × Reply → Type 0
  IsAnswered n w (v, r) = IsWithin n w v × IsAnswer settings course r

  build_response-IsAnswered :
      (n : ℕ) (key : Option Text) (status : ℕ) (hs : Headers) (body : List ℕ) (w v : World)
      → IsWithin n w v
      → IsSaid course (responds status hs body)
      → IsAnswered n w (build_response settings course route caller key status hs body v)
  build_response-IsAnswered n key status hs body w v h said = (
    omega (arith, h, ap length (build_response-sent key status hs body v)),
    unfold build_response in came_through status hs body route caller said,
  )

  unavailable-IsAnswered :
      (n : ℕ) (text : Text) (w v : World)
      → IsWithin n w v
      → IsAnswered n w (unavailable settings course route caller text v)
  unfolding unavailable
  unavailable-IsAnswered n text w v h = (omega (arith, h, ap length (refunded-sent v)), gave_up _)

  pub concluded-IsAnswered :
      (n : ℕ) (key : Option Text) (call : Text → Sent) (url : Option Text) (w : World)
      (x : World × Tried)
      → IsWithin n w x.0
      → IsHeard course x.1
      → IsAnswered (n + 1) w (concluded settings course route caller key call url x)
  unfolding concluded
  concluded-IsAnswered n key call url w (v, served status hs body) h said =
      build_response-IsAnswered (n + 1) key status hs body w v (omega (arith, h)) said
  concluded-IsAnswered n key call url w (v, failed) h said = (omega (arith, h), broke said)
  concluded-IsAnswered n key call none w (v, unusable) h said =
      unavailable-IsAnswered (n + 1) _ w v (omega (arith, h))
  concluded-IsAnswered n key call (some url) w (v, unusable) h said =
      fell_back course.fallback (inr refl) (omega (arith, h, length-append v.sent (call url ∷ [])))
    where
      fell_back :
          (a : Answer)
          → IsSaid course a
          → IsWithin (n + 1) w (record v { sent = v.sent ++ call url ∷ [] })
          → IsAnswered (n + 1) w (fall_back settings course route caller key call a url v)
      fell_back (responds status hs body) said' k =
          unfold fall_back in build_response-IsAnswered (n + 1) key status hs body w _ k said'
      fell_back unreachable said' k = unfold fall_back in unavailable-IsAnswered (n + 1) _ w _ k
      fell_back broken said' k = unfold fall_back in (k, broke said')
