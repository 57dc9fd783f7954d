-- ===== src/Portal/Page.antt =====
-- The elements of the page that app.js writes to, and the handlers of app.js, each cut at its
-- `await`s: `f` runs from the event to the call of `fetch`, `f_response` from the settled `fetch`
-- to the next `await`, `f_body` from the settled body to the end. What follows `await withKey()`
-- runs before any other event, so it is no cut.
pub mod Rendering
pub mod Calls
use gate_flow.Prelude.{
  Bool, true, false, ◌||◌, Option, none, some, List, [], ◌∷◌, ◌++◌, ◌==◌, if◌then◌else◌,
}
use gate_flow.Prelude.Text.{Text, codes}
use gate_flow.Portal.Trim.{trim}
use gate_flow.Portal.Query.{serialize}
use gate_flow.Portal.Value.{Value, to_string, object_entries, property}

-- The `hidden` fields say whether the class list holds "hidden"; `result` stands in the actions
-- card.
pub record Page : Type 0 where
  pub api_key : Text
  pub tier : Text
  pub reason : Text
  pub quota_html : Text
  pub quota_hidden : Bool
  pub actions_hidden : Bool
  pub result : Text
  pub result_color : Text

-- A call of `fetch`, with the header X-API-KEY.
pub data Method : Type 0 where
  get post : Method

pub record Call : Type 0 where
  pub url : Text
  pub method : Method
  pub key : Text

-- What the platform answers: a response or an exception with its message, then the parsed body or
-- an exception. The messages of the two TypeErrors that app.js can raise are the engine's.
pub data Fetched : Type 0 where
  response : (ok : Bool) → (status_text : Text) → Fetched
  rejected : Text → Fetched

pub data Body : Type 0 where
  parsed : Value → Body
  malformed : Text → Body

pub record Engine : Type 0 where
  pub entries_of_null : Text
  pub api_key_of_null : Text

abbrev pub red : Text
red = codes "#dc2626"

abbrev pub muted : Text
muted = codes "var(--muted)"

unfoldable pub set_result : Text → Bool → Page → Page
set_result message is_error p = record p {
  result = message;
  result_color = if is_error then red else muted;
}

unfoldable pub check_key : Page → Text → Page × Option Text
check_key p [] = (set_result (codes "Please enter an API key.") true p, none)
check_key p (c ∷ key) = (p, some (c ∷ key))

-- The key, or `none` after the message.
unfoldable pub with_key : Page → Page × Option Text
with_key p = check_key p (trim p.api_key)

-- The catch blocks.
abbrev pub load_failed : Text → Page → Page
load_failed message = set_result (codes "Failed to load quota: " ++ message) true

abbrev pub rotate_failed : Text → Page → Page
rotate_failed message = set_result (codes "Failed to rotate key: " ++ message) true

abbrev pub request_failed : Text → Page → Page
request_failed message = set_result (codes "Failed to request tier: " ++ message) true

abbrev pub call_with : (Text → Call) → Page × Option Text → Page × Option Call
call_with f (p, none) = (p, none)
call_with f (p, some key) = (p, some (f key))

unfoldable pub load_quota : Page → Page × Option Call
load_quota p =
    call_with (λ key. record { url = codes "/api/me/quota"; method = get; key = key }) (with_key p)

-- `true` beside the page: the handler goes on to await the body.
unfoldable pub load_quota_response : Fetched → Page → Page × Bool
load_quota_response (rejected message) p = (load_failed message p, false)
load_quota_response (response true status_text) p = (p, true)
load_quota_response (response false status_text) p = (load_failed status_text p, false)

-- `<dt>${k}</dt><dd>${v}</dd>`
unfoldable pub render_entry : Text × Value → Text
render_entry (k, v) = codes "<dt>" ++ (k ++ (codes "</dt><dd>" ++ (to_string v ++ codes "</dd>")))

unfoldable pub render : List (Text × Value) → Text
render [] = []
render (e ∷ es) = render_entry e ++ render es

unfoldable pub show_quota : List (Text × Value) → Page → Page
show_quota entries p =
    set_result [] false
      (record p { quota_html = render entries; quota_hidden = false; actions_hidden = false })

module _ (engine : Engine) where
  unfoldable pub load_quota_body : Body → Page → Page
  load_quota_body (malformed message) p = load_failed message p
  load_quota_body (parsed v) p = elim (object_entries v) [
    | none ↦ load_failed engine.entries_of_null p
    | some entries ↦ show_quota entries p
  ]

unfoldable pub rotate_key : Page → Page × Option Call
rotate_key p =
    call_with (λ key. record { url = codes "/api/me/keys/rotate"; method = post; key = key })
      (with_key p)

unfoldable pub rotate_key_response : Fetched → Page → Page × Bool
rotate_key_response (rejected message) p = (rotate_failed message p, false)
rotate_key_response (response true status_text) p = (p, true)
rotate_key_response (response false status_text) p = (rotate_failed status_text p, false)

-- A text field drops the newlines of what is assigned to it.
unfoldable pub sanitize : Text → Text
sanitize [] = []
sanitize (c ∷ s) = if c == 10 || c == 13 then sanitize s else c ∷ sanitize s

-- What `input.value = v` leaves in the field: null is empty, undefined is its name.
unfoldable pub field_value : Option Value → Text
field_value none = codes "undefined"
field_value (some Value.null) = []
field_value (some v) = sanitize (to_string v)

module _ (engine : Engine) where
  unfoldable pub rotate_key_body : Body → Page → Page
  rotate_key_body (malformed message) p = rotate_failed message p
  rotate_key_body (parsed v) p = elim (property (codes "api_key") v) [
    | none ↦ rotate_failed engine.api_key_of_null p
    | some key ↦
        set_result (codes "Key rotated. New key has been inserted in the API Key field.") false
          (record p { api_key = field_value key })
  ]

-- The event is the form's submission; `true` says that its default action is prevented.
unfoldable pub request_tier : Page → Bool × (Page × Option Call)
request_tier p =
    let params =
      serialize ((codes "requested_tier", trim p.tier) ∷ (codes "reason", trim p.reason) ∷ []) in
    (
      true,
      call_with
          (λ key. record {
            url = codes "/api/me/tier/request?" ++ params;
            method = post;
            key = key;
          })
          (with_key p),
    )

unfoldable pub request_tier_response : Fetched → Page → Page
request_tier_response (rejected message) p = request_failed message p
request_tier_response (response true status_text) p =
    set_result (codes "Tier change request submitted.") false p
request_tier_response (response false status_text) p = request_failed status_text p
