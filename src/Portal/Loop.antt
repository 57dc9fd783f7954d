-- ===== src/Portal/Loop.antt =====
-- The event loop around the handlers of app.js: several may be parked at an `await` at once, and
-- their answers arrive in any order. The buttons and the form of the actions card get no event
-- while the card is hidden (portal/index.html puts them there).
pub mod Parked
pub mod Hidden
pub mod Traces
pub mod Answers
pub mod Invariant
use gate_flow.Prelude.{
  ℕ, ◌+◌, Bool, true, false, Option, none, some, List, [], ◌∷◌, ◌++◌, ◌==◌, if◌then◌else◌,
}
use gate_flow.Prelude.Text.{Text}
use gate_flow.Portal.Page.{
  Page, Call, Fetched, Body, Engine, load_quota, load_quota_response, load_quota_body, rotate_key,
  rotate_key_response, rotate_key_body, request_tier, request_tier_response,
}

-- Where a handler is parked.
pub data Await : Type 0 where
  load_fetch load_json rotate_fetch rotate_json request_fetch : Await

-- `calls` holds every call of `fetch` so far, `parked` the handlers that wait, each with a number.
pub record World : Type 0 where
  pub page : Page
  pub calls : List Call
  pub parked : List (ℕ × Await)
  pub next : ℕ
  pub navigated : Bool

-- The user types, clicks or submits; a promise settles.
pub data Event : Type 0 where
  edit_key edit_tier edit_reason : Text → Event
  click_load click_rotate submit_tier : Event
  fetch_settles : ℕ → Fetched → Event
  json_settles : ℕ → Body → Event

unfoldable pub waiting : ℕ → List (ℕ × Await) → Option Await
waiting id [] = none
waiting id ((j, a) ∷ ps) = if j == id then some a else waiting id ps

unfoldable pub resume : ℕ → Option Await → List (ℕ × Await) → List (ℕ × Await)
resume id a [] = []
resume id none ((j, b) ∷ ps) = if j == id then ps else (j, b) ∷ resume id none ps
resume id (some a) ((j, b) ∷ ps) = if j == id then (j, a) ∷ ps else (j, b) ∷ resume id (some a) ps

abbrev pub start : Await → Page × Option Call → World → World
start a (p, none) w = record w { page = p }
start a (p, some c) w = record w {
  page = p;
  calls = w.calls ++ c ∷ [];
  parked = (w.next, a) ∷ w.parked;
  next = w.next + 1;
}

abbrev pub proceed : ℕ → Await → Page × Bool → World → World
proceed id a (p, true) w = record w { page = p; parked = resume id (some a) w.parked }
proceed id a (p, false) w = record w { page = p; parked = resume id none w.parked }

abbrev pub finish : ℕ → Page → World → World
finish id p w = record w { page = p; parked = resume id none w.parked }

unfoldable pub fetch_settled : ℕ → Fetched → Option Await → World → World
fetch_settled id r (some Await.load_fetch) w =
    proceed id Await.load_json (load_quota_response r w.page) w
fetch_settled id r (some Await.rotate_fetch) w =
    proceed id Await.rotate_json (rotate_key_response r w.page) w
fetch_settled id r (some Await.request_fetch) w = finish id (request_tier_response r w.page) w
fetch_settled id r _ w = w

module _ (engine : Engine) where
  unfoldable pub json_settled : ℕ → Body → Option Await → World → World
  json_settled id b (some Await.load_json) w = finish id (load_quota_body engine b w.page) w
  json_settled id b (some Await.rotate_json) w = finish id (rotate_key_body engine b w.page) w
  json_settled id b _ w = w

  unfoldable pub submitted : Bool × (Page × Option Call) → World → World
  submitted (prevented, r) w =
      start Await.request_fetch r (if prevented then w else record w { navigated = true })

  -- The listeners at the end of app.js, and the promises.
  unfoldable pub step : Event → World → World
  unfolding fetch_settled json_settled submitted
  step (Event.edit_key s) w = record w { page = record w.page { api_key = s } }
  step (Event.edit_tier s) w = record w { page = record w.page { tier = s } }
  step (Event.edit_reason s) w = record w { page = record w.page { reason = s } }
  step Event.click_load w = start Await.load_fetch (load_quota w.page) w
  step Event.click_rotate w =
      if w.page.actions_hidden then w else start Await.rotate_fetch (rotate_key w.page) w
  step Event.submit_tier w = if w.page.actions_hidden then w else submitted (request_tier w.page) w
  step (Event.fetch_settles id r) w = fetch_settled id r (waiting id w.parked) w
  step (Event.json_settles id b) w = json_settled id b (waiting id w.parked) w

  unfoldable pub run : List Event → World → World
  run [] w = w
  run (e ∷ es) w = run es (step e w)

-- The page as portal/index.html declares it.
abbrev pub fresh : World
fresh = record {
  page = record {
    api_key = [];
    tier = [];
    reason = [];
    quota_html = [];
    quota_hidden = true;
    actions_hidden = true;
    result = [];
    result_color = [];
  };
  calls = [];
  parked = [];
  next = 0;
  navigated = false;
}

-- What the user can read of the result line: nothing while the card around it is hidden.
unfoldable pub visible_result : Page → Option Text
visible_result p = if p.actions_hidden then none else some p.result
