-- ===== src/Portal/Tests.antt =====
-- Runs of the portal's page, and its theorems at concrete inputs.
use gate_flow.Prelude.{◌≡◌, refl, true, false, some, List, [], ◌∷◌, ◌++◌, map, arith}
use gate_flow.Prelude.Text.{Text, codes, same}
use gate_flow.Portal.Decimal.{decimal}
use gate_flow.Prelude.Strip.{strip, strip_start}
use gate_flow.Portal.Trim.{is_space, trim}
use gate_flow.Portal.Query.{utf8, utf8_text, is_plain, hex, encode_byte, encode, serialize}
use gate_flow.Portal.Query.Parse.{parse, bytes}
use gate_flow.Portal.Value.{
  Value, null, bool, num, str, arr, obj, cons, nil, field, end, to_string, object_entries, property,
}
use gate_flow.Portal.Page.{
  post, response, rejected, parsed, Engine, set_result, check_key, with_key, load_quota,
  load_quota_response, render_entry, render, show_quota, load_quota_body, rotate_key,
  rotate_key_response, sanitize, field_value, rotate_key_body, request_tier, request_tier_response,
}
use gate_flow.Portal.Loop.{
  Await, World, Event, waiting, resume, fetch_settled, json_settled, submitted, step, run, fresh,
  finish, visible_result,
}
use gate_flow.Portal.Loop.Invariant.{IsConsistent, run-IsConsistent}
use gate_flow.Portal.Loop.Answers.{exception, refusal_reported}
use gate_flow.Portal.Loop.Traces.{quota_call, submit_sends_fields}

-- The definitions that a run of the page computes with.
portal : Unit {0}
unfolding same decimal is_space strip_start strip trim utf8 utf8_text is_plain hex encode_byte
    encode serialize to_string object_entries property set_result check_key with_key load_quota
    load_quota_response render_entry render show_quota load_quota_body rotate_key
    rotate_key_response sanitize field_value rotate_key_body request_tier request_tier_response
    waiting resume fetch_settled json_settled submitted step run visible_result
portal = tt

abbrev engine : Engine
engine = record { entries_of_null = codes "no entries of null"; api_key_of_null = codes "no null" }

abbrev quota : Value
quota =
    obj (field (codes "tier") (str (codes "free")) (field (codes "active") (num (codes "1")) end))

-- A load, a rotation with its answers, and a load with the new key.
abbrev session : List Event
session =
    Event.edit_key (codes " gf_1 ")
    ∷ Event.click_load
    ∷ Event.fetch_settles 0 (response true (codes "OK"))
    ∷ Event.json_settles 0 (parsed quota)
    ∷ Event.click_rotate
    ∷ Event.fetch_settles 1 (response true (codes "OK"))
    ∷ Event.json_settles 1 (parsed (obj (field (codes "api_key") (str (codes "gf_2")) end)))
    ∷ Event.click_load
    ∷ []

abbrev last_world : World
last_world = run engine session fresh

session_runs :
    (last_world.calls
      ≡ quota_call (codes "gf_1")
        ∷ record { url = codes "/api/me/keys/rotate"; method = post; key = codes "gf_1" }
        ∷ quota_call (codes "gf_2")
        ∷ [])
    × (last_world.page.quota_html ≡ codes "<dt>tier</dt><dd>free</dd><dt>active</dt><dd>1</dd>")
    × (visible_result last_world.page
        ≡ some (codes "Key rotated. New key has been inserted in the API Key field."))
unfolding portal
session_runs = (refl, refl, refl)

query_runs :
    serialize ((codes "requested_tier", codes "pro") ∷ (codes "reason", codes "a&b é") ∷ [])
    ≡ codes "requested_tier=pro&reason=a%26b+%C3%A9"
unfolding portal
query_runs = refl

array_runs :
    to_string (arr (cons (num (codes "1")) (cons null (cons (bool true) nil)))) ≡ codes "1,,true"
unfolding portal
array_runs = refl

run-IsConsistent_example : IsConsistent (run engine session fresh)
run-IsConsistent_example = run-IsConsistent engine session

-- A page with a shown quota, and handlers that wait.
abbrev waiting_world : World
waiting_world = record fresh {
  page = record fresh.page {
    api_key = codes "gf_1";
    tier = codes " pro ";
    reason = codes "a&b";
    quota_hidden = false;
    actions_hidden = false;
  };
  parked = (2, Await.load_json) ∷ (1, Await.rotate_json) ∷ (0, Await.request_fetch) ∷ [];
  next = 3;
}

refusal_reported_example :
    step engine (Event.fetch_settles 0 (rejected (codes "offline"))) waiting_world
    ≡ finish 0
        (set_result (codes "Failed to request tier: " ++ codes "offline") true waiting_world.page)
        waiting_world
unfolding waiting
refusal_reported_example =
    refusal_reported engine waiting_world 0 Await.request_fetch refl (ground arith)
      (exception (codes "offline"))

submit_sends_fields_example :
    (query : Text) × ((step engine Event.submit_tier waiting_world).calls
      ≡ record { url = codes "/api/me/tier/request?" ++ query; method = post; key = codes "gf_1" }
        ∷ [])
    × (parse query
        ≡ map bytes ((codes "requested_tier", codes "pro") ∷ (codes "reason", codes "a&b") ∷ []))
unfolding trim strip strip_start is_space
submit_sends_fields_example =
    submit_sends_fields engine waiting_world refl (ground arith) (ground arith) (ground arith)
