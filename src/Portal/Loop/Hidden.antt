-- ===== src/Portal/Loop/Hidden.antt =====
-- What the user can read before the first quota is shown.
use gate_flow.Prelude.{
  ℕ, ◌≡◌, refl, Bool, true, false, Option, none, some, List, [], ◌∷◌, All, inl, inr, Option-cases,
}
use gate_flow.Prelude.Text.{Text, codes}
use gate_flow.Portal.Trim.{trim}
use gate_flow.Portal.Value.{object_entries, property}
use gate_flow.Portal.Page.{
  Page, Call, Fetched, response, rejected, Body, parsed, malformed, Engine, set_result, with_key,
  call_with, load_quota, load_quota_response, load_quota_body, rotate_key, rotate_key_response,
  rotate_key_body, request_tier, request_tier_response,
}
use gate_flow.Portal.Page.Calls.{blank_or_given, with_key_blank, with_key_given}
use gate_flow.Portal.Loop.{
  Await, World, Event, start, proceed, fetch_settled, json_settled, submitted, step, run, fresh,
  visible_result,
}

-- The event is no body that holds a quota.
abbrev pub HoldsNoQuota : Event → Type 0
HoldsNoQuota (Event.json_settles id (parsed v)) = object_entries v ≡ none
HoldsNoQuota e = Unit

abbrev HoldsNone : Body → Type 0
HoldsNone (parsed v) = object_entries v ≡ none
HoldsNone (malformed m) = Unit

abbrev IsHidden : Page → Type 0
IsHidden p = p.actions_hidden ≡ true

set_result-IsHidden : (m : Text) (e : Bool) (p : Page) → IsHidden p → IsHidden (set_result m e p)
unfolding set_result
set_result-IsHidden m e p h = h

call_with-IsHidden :
    (f : Text → Call) (p : Page) → IsHidden p → IsHidden (call_with f (with_key p)).0
call_with-IsHidden f p h = elim (blank_or_given (trim p.api_key)) [
  | inl blank ↦ rw (with_key_blank p blank) (set_result-IsHidden _ true p h)
  | inr given ↦ rw (with_key_given p given) h
]

start-IsHidden :
    (a : Await) (r : Page × Option Call) (w : World) → IsHidden r.0 → IsHidden (start a r w).page
start-IsHidden a (p, none) w h = h
start-IsHidden a (p, some c) w h = h

proceed-IsHidden :
    (id : ℕ) (a : Await) (r : Page × Bool) (w : World)
    → IsHidden r.0
    → IsHidden (proceed id a r w).page
proceed-IsHidden id a (p, true) w h = h
proceed-IsHidden id a (p, false) w h = h

fetch_settled-IsHidden :
    (id : ℕ) (r : Fetched) (o : Option Await) (w : World)
    → IsHidden w.page
    → IsHidden (fetch_settled id r o w).page
unfolding fetch_settled load_quota_response rotate_key_response request_tier_response set_result
fetch_settled-IsHidden id (response true s) (some Await.load_fetch) w h = h
fetch_settled-IsHidden id (response false s) (some Await.load_fetch) w h = h
fetch_settled-IsHidden id (rejected m) (some Await.load_fetch) w h = h
fetch_settled-IsHidden id (response true s) (some Await.rotate_fetch) w h = h
fetch_settled-IsHidden id (response false s) (some Await.rotate_fetch) w h = h
fetch_settled-IsHidden id (rejected m) (some Await.rotate_fetch) w h = h
fetch_settled-IsHidden id (response true s) (some Await.request_fetch) w h = h
fetch_settled-IsHidden id (response false s) (some Await.request_fetch) w h = h
fetch_settled-IsHidden id (rejected m) (some Await.request_fetch) w h = h
fetch_settled-IsHidden id r _ w h = h

module _ (engine : Engine) where
  load_quota_body-IsHidden :
      (b : Body) (p : Page) → HoldsNone b → IsHidden p → IsHidden (load_quota_body engine b p)
  unfolding load_quota_body set_result
  load_quota_body-IsHidden (malformed m) p n h = h
  load_quota_body-IsHidden (parsed v) p n h = rw (n, load_quota_body) h

  rotate_key_body-IsHidden :
      (b : Body) (p : Page) → IsHidden p → IsHidden (rotate_key_body engine b p)
  unfolding rotate_key_body set_result
  rotate_key_body-IsHidden (malformed m) p h = h
  rotate_key_body-IsHidden (parsed v) p h = elim (Option-cases (property (codes "api_key") v)) [
    | inl e ↦ rw (e, rotate_key_body) h
    | inr (k, e) ↦ rw (e, rotate_key_body) h
  ]

  json_settled-IsHidden :
      (id : ℕ) (b : Body) (o : Option Await) (w : World)
      → HoldsNone b
      → IsHidden w.page
      → IsHidden (json_settled engine id b o w).page
  unfolding json_settled
  json_settled-IsHidden id b (some Await.load_json) w n h = load_quota_body-IsHidden b w.page n h
  json_settled-IsHidden id b (some Await.rotate_json) w n h = rotate_key_body-IsHidden b w.page h
  json_settled-IsHidden id b _ w n h = h

  step-IsHidden :
      (e : Event) (w : World) → HoldsNoQuota e → IsHidden w.page → IsHidden (step engine e w).page
  unfolding step load_quota rotate_key request_tier submitted
  step-IsHidden (Event.edit_key s) w n h = h
  step-IsHidden (Event.edit_tier s) w n h = h
  step-IsHidden (Event.edit_reason s) w n h = h
  step-IsHidden Event.click_load w n h =
      start-IsHidden Await.load_fetch (load_quota w.page) w (call_with-IsHidden _ w.page h)
  step-IsHidden Event.click_rotate w n h = simp h refl
  step-IsHidden Event.submit_tier w n h = simp h refl
  step-IsHidden (Event.fetch_settles id r) w n h = fetch_settled-IsHidden id r _ w h
  step-IsHidden (Event.json_settles id (parsed v)) w n h =
      json_settled-IsHidden id (parsed v) _ w n h
  step-IsHidden (Event.json_settles id (malformed m)) w n h =
      json_settled-IsHidden id (malformed m) _ w tt h

  run-IsHidden :
      (es : List Event) (w : World)
      → All HoldsNoQuota es
      → IsHidden w.page
      → IsHidden (run engine es w).page
  unfolding run
  run-IsHidden [] w n h = h
  run-IsHidden (e ∷ es) w n h = run-IsHidden es (step engine e w) n.1 (step-IsHidden e w n.0 h)

  -- Until a body with a quota arrives, the user can read no message: the result line stands in the
  -- hidden card, whatever errors the handlers have reported in it.
  nothing_visible_before_quota :
      (es : List Event) → All HoldsNoQuota es → visible_result (run engine es fresh).page ≡ none
  unfolding visible_result
  nothing_visible_before_quota es n = rw (visible_result, run-IsHidden es fresh n refl)
