-- ===== src/Portal/Loop/Answers.antt =====
-- What refusals of the server lead to: the handler that waits reports on the page and ends.
use gate_flow.Prelude.{ℕ, ◌≡◌, ◌≢◌, refl, true, false, some, ◌++◌}
use gate_flow.Prelude.Text.{Text, codes}
use gate_flow.Portal.Page.{
  Fetched, response, rejected, Engine, set_result, load_quota_response, rotate_key_response,
  request_tier_response,
}
use gate_flow.Portal.Loop.{Await, World, Event, waiting, finish, fetch_settled, step}

-- The words in front of a failure's message.
abbrev pub failure : Await → Text
failure Await.load_fetch = codes "Failed to load quota: "
failure Await.load_json = codes "Failed to load quota: "
failure Await.rotate_fetch = codes "Failed to rotate key: "
failure Await.rotate_json = codes "Failed to rotate key: "
failure Await.request_fetch = codes "Failed to request tier: "

-- The message of an answer that is no success.
pub data IsRefusal : Fetched → Text → Type 0 where
  exception : (m : Text) → IsRefusal (rejected m) m
  status : (m : Text) → IsRefusal (response false m) m

abbrev pub AwaitsFetch : Await → Type 0
AwaitsFetch a = (a ≢ Await.load_json) × (a ≢ Await.rotate_json)

-- A failed call ends its handler with the handler's own message, in red, and changes nothing else
-- on the page; no call is made and no other handler is touched.
pub refusal_reported :
    (engine : Engine) (w : World) (id : ℕ) (a : Await) {r : Fetched} {m : Text}
    → waiting id w.parked ≡ some a
    → AwaitsFetch a
    → IsRefusal r m
    → step engine (Event.fetch_settles id r) w
      ≡ finish id (set_result (failure a ++ m) true w.page) w
unfolding step fetch_settled load_quota_response rotate_key_response request_tier_response
refusal_reported engine w id Await.load_fetch e h (exception m) = rw (e, fetch_settled)
refusal_reported engine w id Await.load_fetch e h (status m) = rw (e, fetch_settled)
refusal_reported engine w id Await.rotate_fetch e h (exception m) = rw (e, fetch_settled)
refusal_reported engine w id Await.rotate_fetch e h (status m) = rw (e, fetch_settled)
refusal_reported engine w id Await.request_fetch e h (exception m) = rw (e, fetch_settled)
refusal_reported engine w id Await.request_fetch e h (status m) = rw (e, fetch_settled)
refusal_reported engine w id Await.load_json e h i = absurd (h.0 refl)
refusal_reported engine w id Await.rotate_json e h i = absurd (h.1 refl)
