-- ===== src/Notifications.antt =====
-- gateflow/notifications.py: the worker that reads the stream of anomalies with its consumer group and
-- posts every entry to the webhooks. The stream keeps its entries, so an entry is named by its id.
-- The answers of Redis and of the webhooks are inputs.

mod Tests
pub mod Growth
pub mod Delivery
pub mod Turns
pub mod Progress
use gate_flow.Prelude.{
  ℕ, zero, suc, ◌+◌, ◌-◌, ◌^◌, Bool, true, false, not, Option, none, some, List, [], ◌∷◌, ◌++◌,
  length, take, drop, if◌then◌else◌,
}
use gate_flow.Prelude.Text.{Text, codes, same}
use gate_flow.Auth.Address.{entries}
use gate_flow.Http.{put}

abbrev pub Fields : Type 0
Fields = List (Text × Text)

-- A call of Redis that is done, one that does not reach it, and one whose reply is lost: the last
-- two raise an exception.
pub data Result : Type 0 where
  done unsent unheard : Result

-- `sign` is the HMAC of the payload's JSON in base 64.
pub record Settings : Type 0 where
  pub notification_webhook_url : Text
  pub webhook_signing_secret : Text
  pub sign : Text → Fields → Text

-- The fields of an entry; how the n-th call of Redis goes, and the n-th post, with the text of its
-- exception; `str(int(time.time()))` at a call of Redis, and how many entries more than 10000 the stream
-- of dead letters then keeps.
pub record Outside : Type 0 where
  pub content : Text → Fields
  pub redis : ℕ → Result
  pub webhook : ℕ → Option Text
  pub clock : ℕ → Text
  pub spare : ℕ → ℕ

pub record Post : Type 0 where
  pub url : Text
  pub fields : Fields
  pub signature : Option Text
  pub accepted : Bool

-- The ids that the group has not read yet, those that this consumer has read and not acknowledged,
-- the posts and the dead letters that have been written so far, the newest first, the dead letters that
-- the stream still has, the seconds asleep, and the calls of Redis.
pub record Worker : Type 0 where
  pub fresh : List Text
  pub pending : List Text
  pub posts : List Post
  pub written : List Fields
  pub dead : List Fields
  pub slept : ℕ
  pub calls : ℕ

abbrev pub max_retries : ℕ
max_retries = 3

unfoldable pub is_none : Option Text → Bool
is_none none = true
is_none (some e) = false

unfoldable pub without : Text → List Text → List Text
without id [] = []
without id (i ∷ ids) = let rest = without id ids in if same id i then rest else i ∷ rest

abbrev pub add_error : Option Text → List Text → List Text
add_error none errors = errors
add_error (some e) errors = e ∷ errors

-- `"; ".join(errors)`
unfoldable pub join_errors : Text → List Text → Text
join_errors e [] = e
join_errors e (e' ∷ errors) = e ++ codes "; " ++ join_errors e' errors

unfoldable pub raised_of : List Text → Option Text
raised_of [] = none
raised_of (e ∷ errors) = some (join_errors e errors)

unfoldable pub dead_letter : (error stamp : Text) → Fields → Fields
dead_letter error stamp payload =
    put (codes "dead_lettered_at") stamp
      (put (codes "retries") (codes "3") (put (codes "error") error payload))

-- What follows a call, unless it has raised an exception.
unfoldable pub unless_raised : Worker × Bool → (Worker → Worker × Bool) → Worker × Bool
unless_raised (w, true) next = next w
unless_raised (w, false) next = (w, false)

unfoldable pub call : Result → (Worker → Worker) → Worker → Worker × Bool
call done f w = (f w, true)
call unsent f w = (w, false)
call unheard f w = (f w, false)

-- What follows a post: the next attempt, after a pause.
unfoldable pub after_post :
    (left : ℕ)
    → Text
    → (Worker → Worker × Option Text)
    → Worker × Option Text
    → Worker × Option Text
after_post left url next (w, none) = (w, none)
after_post zero url next (w, some e) = (w, some (url ++ codes ": " ++ e))
after_post (suc left) url next (w, some e) =
    next (record w { slept = w.slept + 2 ^ (max_retries - 1 - suc left) })

-- The worker sleeps for a second after an exception.
unfoldable pub rested : Worker × Bool → Worker
rested (w, true) = w
rested (w, false) = record w { slept = w.slept + 1 }

module _ (settings : Settings) (outside : Outside) where
  abbrev pub webhook_targets : List Text
  webhook_targets = entries settings.notification_webhook_url

  unfoldable pub sign_payload : Text → Fields → Option Text
  sign_payload [] payload = none
  sign_payload (c ∷ secret) payload = some (settings.sign (c ∷ secret) payload)

  -- The value of X-GateFlow-Signature.
  unfoldable pub signature_header : Option Text → Option Text
  signature_header none = none
  signature_header (some []) = none
  signature_header (some (c ∷ s)) = some (codes "sha256=" ++ c ∷ s)

  abbrev pub post_of : Text → Fields → Bool → Post
  post_of url payload accepted = record {
    url = url;
    fields = payload;
    signature = signature_header (sign_payload settings.webhook_signing_secret payload);
    accepted = accepted;
  }

  -- The exception, if it raises one.
  unfoldable pub send_webhook : Text → Fields → Worker → Worker × Option Text
  send_webhook url payload w =
      let error = outside.webhook (length w.posts) in
      (record w { posts = post_of url payload (is_none error) ∷ w.posts }, error)

  unfoldable pub try_url : ℕ → Text → Fields → Worker → Worker × Option Text
  try_url zero url payload w = (w, none)
  try_url (suc left) url payload w =
      after_post left url (try_url left url payload) (send_webhook url payload w)

  unfoldable pub send_to_all : List Text → Fields → Worker → Worker × List Text
  send_to_all [] payload w = (w, [])
  send_to_all (url ∷ urls) payload w =
      let (w', error) = try_url max_retries url payload w in
      let (w'', errors) = send_to_all urls payload w' in (w'', add_error error errors)

  unfoldable pub send_webhook_with_retry : Fields → Worker → Worker × Option Text
  send_webhook_with_retry payload w =
      let (w', errors) = send_to_all webhook_targets payload w in (w', raised_of errors)

  unfoldable pub request : (Worker → Worker) → Worker → Worker × Bool
  request f w = call (outside.redis w.calls) f (record w { calls = suc w.calls })

  -- `client.xadd(..., maxlen=10000, approximate=True)` keeps the newest 10000 entries, and as many
  -- more as Redis finds convenient.
  abbrev pub add_dead_letter : ℕ → Fields → Worker → Worker
  add_dead_letter n d w = record w {
    written = d ∷ w.written;
    dead = take (10000 + outside.spare n) (d ∷ w.dead);
  }

  unfoldable pub write_dead_letter : Fields → Text → Worker → Worker × Bool
  write_dead_letter payload error w =
      request (add_dead_letter w.calls (dead_letter error (outside.clock w.calls) payload)) w

  unfoldable pub acknowledge : Text → Worker → Worker × Bool
  acknowledge id = request (λ v. record v { pending = without id v.pending })

  unfoldable pub settle : Text → Worker × Option Text → Worker × Bool
  settle id (w, none) = acknowledge id w
  settle id (w, some error) =
      unless_raised (write_dead_letter (outside.content id) error w) (acknowledge id)

  -- The loop over the entries.
  unfoldable pub dispatch : List Text → Worker → Worker × Bool
  dispatch [] w = (w, true)
  dispatch (id ∷ ids) w =
      unless_raised (settle id (send_webhook_with_retry (outside.content id) w)) (dispatch ids)

  module _ (count : ℕ) where
    abbrev pub take_new : Worker → Worker
    take_new w = record w { fresh = drop count w.fresh; pending = w.pending ++ take count w.fresh }

    -- One turn of the loop of consume_anomalies.
    unfoldable pub turn : Worker → Worker
    turn w = rested (
        unless_raised (request (λ v. v) w) (λ w1.
          unless_raised (request take_new w1)
            (dispatch (take count w.pending ++ take count w.fresh))))

    -- Turns, with the entries that are added to the stream before each.
    unfoldable pub run : List (List Text) → Worker → Worker
    run [] w = w
    run (ids ∷ turns) w = run turns (turn (record w { fresh = w.fresh ++ ids }))
