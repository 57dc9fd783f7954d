-- ===== src/Portal/Loop/Traces.antt =====
-- What a sequence of events shows the user.
use gate_flow.Prelude.{
  ℕ, ◌≡◌, ◌≢◌, ◌⊎◌, refl, true, false, some, List, [], ◌∷◌, ◌++◌, map, arith, All, if_both, inl,
  inr,
}
use gate_flow.Prelude.Text.{Text, codes, same}
use gate_flow.Portal.Trim.{trim}
use gate_flow.Portal.Query.{serialize}
use gate_flow.Portal.Query.Parse.{parse, IsScalar, bytes, parse-serialize}
use gate_flow.Portal.Value.{Value, Fields, str, obj, field, to_string, object_entries, property}
use gate_flow.Portal.Page.{
  Page, Call, parsed, Engine, get, post, set_result, load_quota, show_quota, render,
  load_quota_body, rotate_key, rotate_key_body, request_tier, sanitize, field_value,
}
use gate_flow.Portal.Page.Calls.{with_key_blank, with_key_given}
use gate_flow.Portal.Loop.{Await, World, Event, waiting, json_settled, submitted, step, run}

-- A click or a submission.
pub data IsAction : Event → Type 0 where
  load : IsAction Event.click_load
  rotate : IsAction Event.click_rotate
  submit : IsAction Event.submit_tier

-- The world with the message that asks for a key.
abbrev pub asked : World → World
asked w = record w { page = set_result (codes "Please enter an API key.") true w.page }

-- With a blank key no action calls `fetch` or parks a handler: it asks for a key, in red, or, where
-- its control is hidden, does nothing.
blank_key_calls_nothing :
    (engine : Engine) (w : World) {e : Event}
    → IsAction e
    → trim w.page.api_key ≡ []
    → (step engine e w ≡ w) ⊎ (step engine e w ≡ asked w)
unfolding step load_quota rotate_key request_tier submitted
blank_key_calls_nothing engine w load h = inr (rw (with_key_blank w.page h) refl)
blank_key_calls_nothing engine w rotate h =
    if_both (λ v. (v ≡ w) ⊎ (v ≡ asked w)) w.page.actions_hidden (inl refl)
      (inr (rw (with_key_blank w.page h) refl))
blank_key_calls_nothing engine w submit h =
    if_both (λ v. (v ≡ w) ⊎ (v ≡ asked w)) w.page.actions_hidden (inl refl)
      (inr (rw (with_key_blank w.page h) refl))

-- A submission with a key sends one POST, whose query string parses to the two fields, trimmed.
pub submit_sends_fields :
    (engine : Engine) (w : World)
    → w.page.actions_hidden ≡ false
    → trim w.page.api_key ≢ []
    → All IsScalar (trim w.page.tier)
    → All IsScalar (trim w.page.reason)
    → (query : Text) × ((step engine Event.submit_tier w).calls
        ≡ w.calls
          ++ record {
            url = codes "/api/me/tier/request?" ++ query;
            method = post;
            key = trim w.page.api_key;
          }
            ∷ [])
      × (parse query
          ≡ map bytes (
              (codes "requested_tier", trim w.page.tier)
              ∷ (codes "reason", trim w.page.reason)
              ∷ []))
unfolding step request_tier submitted
submit_sends_fields engine w h k s t = (
  serialize
      ((codes "requested_tier", trim w.page.tier) ∷ (codes "reason", trim w.page.reason) ∷ []),
  simp (h, with_key_given w.page k),
  parse-serialize _ _ ((ground arith, s), ((ground arith, t), tt)),
)

abbrev pub quota_call : Text → Call
quota_call key = record { url = codes "/api/me/quota"; method = get; key = key }

load_quota_given :
    (p : Page) → trim p.api_key ≢ [] → load_quota p ≡ (p, some (quota_call (trim p.api_key)))
unfolding load_quota
load_quota_given p h = rw (with_key_given p h)

rotated : Text → Page → Page
rotated k p =
    set_result (codes "Key rotated. New key has been inserted in the API Key field.") false
      (record p { api_key = sanitize k })

rotate_key_body_given :
    (engine : Engine) (p : Page) (k : Text) (fs : Fields)
    → rotate_key_body engine (parsed (obj (field (codes "api_key") (str k) fs))) p ≡ rotated k p
unfolding rotate_key_body property same field_value to_string rotated
rotate_key_body_given engine p k fs = refl

-- The key that a rotation returns is the key of the next call: here of a load, if the key is not
-- blank, is trimmed and holds no newline.
rotated_key_is_used :
    (engine : Engine) (w : World) (id : ℕ) (k : Text) (fs : Fields)
    → waiting id w.parked ≡ some Await.rotate_json
    → k ≢ []
    → trim k ≡ k
    → sanitize k ≡ k
    → let body = parsed (obj (field (codes "api_key") (str k) fs)) in
      (run engine (Event.json_settles id body ∷ Event.click_load ∷ []) w).calls
      ≡ w.calls ++ quota_call k ∷ []
unfolding run step json_settled
rotated_key_is_used engine w id k fs h present trimmed plain =
    let p = rotated k w.page in
    let key : p.api_key ≡ k = unfold rotated set_result in plain in
    let given : trim p.api_key ≡ k = rw key trimmed in
    simp (h, rotate_key_body_given, load_quota_given p (rw given present), given)

load_quota_body_given :
    (engine : Engine) (p : Page) (v : Value) (es : List (Text × Value))
    → object_entries v ≡ some es
    → load_quota_body engine (parsed v) p ≡ show_quota es p
unfolding load_quota_body
load_quota_body_given engine p v es e = rw (load_quota_body, e)

-- The list shows the answer to the key that was in the field at the click: if the user writes
-- another key before the answer is there, the page shows the quota of one key beside the other key.
stale_quota :
    (engine : Engine) (w : World) (id : ℕ) (key : Text) (v : Value) (es : List (Text × Value))
    → waiting id w.parked ≡ some Await.load_json
    → object_entries v ≡ some es
    → let w' = run engine (Event.edit_key key ∷ Event.json_settles id (parsed v) ∷ []) w in
      (w'.page.quota_html ≡ render es) × (w'.page.api_key ≡ key) × (w'.page.quota_hidden ≡ false)
unfolding run step json_settled
stale_quota engine w id key v es h e =
    simp (h, load_quota_body_given engine _ v es e)
      (unfold show_quota set_result in (refl, refl, refl))
