-- ===== src/Notifications/Tests.antt =====
-- Turns of the worker, and its theorems at concrete inputs.
use gate_flow.Prelude.{
  ℕ, zero, suc, ◌≡◌, refl, Option, none, some, List, [], ◌∷◌, drop, All, length,
}
use gate_flow.Prelude.Split.{split_on}
use gate_flow.Prelude.Strip.{strip, strip_start}
use gate_flow.Prelude.Text.{Text, codes, same}
use gate_flow.Auth.Address.{entries, non_empty, is_whitespace}
use gate_flow.Http.{put}
use gate_flow.Notifications.{
  done, unheard, Result, Settings, Outside, Worker, is_none, without, join_errors, raised_of,
  dead_letter, unless_raised, call, after_post, rested, sign_payload, signature_header,
  send_webhook, try_url, send_to_all, send_webhook_with_retry, request, write_dead_letter,
  acknowledge, settle, dispatch, turn, run,
}
use gate_flow.Notifications.Growth.{Among}
use gate_flow.Notifications.Delivery.{IsSettled}
use gate_flow.Notifications.Progress.{turn-IsSettled}

abbrev settings : Settings
settings = record {
  notification_webhook_url = codes "u,v";
  webhook_signing_secret = [];
  sign = λ secret payload. secret;
}

-- The webhook u takes the second post, and v none of three.
abbrev webhook : ℕ → Option Text
webhook (suc zero) = none
webhook n = some (codes "x")

abbrev lossy : ℕ → Result
lossy (suc (suc zero)) = unheard
lossy n = done

abbrev outside : (ℕ → Result) → Outside
outside redis = record {
  content = λ id. (codes "type", id) ∷ [];
  redis = redis;
  webhook = webhook;
  clock = λ n. codes "7";
  spare = λ n. 0;
}

abbrev idle : Worker
idle = record {
  fresh = [];
  pending = [];
  posts = [];
  written = [];
  dead = [];
  slept = 0;
  calls = 0;
}

abbrev outcome : (ℕ → Result) → List (List Text) → List Text × (List Text × (ℕ × (ℕ × ℕ)))
outcome redis turns =
    let w = run settings (outside redis) 1 turns idle in
    (w.fresh, (w.pending, (length w.posts, (length w.dead, w.slept))))

-- Five posts, a dead letter, and one entry that waits; if the reply to the dead letter is lost, the
-- entry stays, and the next turn takes it up again.
run-turns :
    (outcome (λ n. done) ((codes "1" ∷ codes "2" ∷ []) ∷ []) ≡ (codes "2" ∷ [], ([], (5, (1, 4)))))
    × ((outcome lossy ((codes "1" ∷ []) ∷ []) ≡ ([], (codes "1" ∷ [], (5, (1, 5)))))
        × (outcome lossy ((codes "1" ∷ []) ∷ [] ∷ []) ≡ ([], ([], (11, (2, 11))))))
unfolding run turn request call unless_raised rested dispatch settle send_webhook_with_retry
    send_to_all try_url after_post send_webhook sign_payload signature_header is_none without
    raised_of join_errors dead_letter write_dead_letter acknowledge put same entries non_empty
    split_on strip strip_start is_whitespace
run-turns = (refl, (refl, refl))

abbrev waiting : Worker
waiting = record idle { pending = codes "1" ∷ []; fresh = codes "2" ∷ codes "3" ∷ [] }

turn-IsSettled_example :
    let w' = turn settings (outside (λ n. done)) 1 waiting in
    All (λ id. IsSettled settings (outside (λ n. done)) id w') (codes "1" ∷ codes "2" ∷ [])
    × (All (λ id. Among id (drop 1 waiting.pending)) w'.pending × (w'.fresh ≡ codes "3" ∷ []))
turn-IsSettled_example = turn-IsSettled settings (outside (λ n. done)) (λ n. refl) 1 waiting
