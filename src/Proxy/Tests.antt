-- ===== src/Proxy/Tests.antt =====
-- Runs of the request handler, and its theorems at concrete inputs.
mod Data
use gate_flow.Prelude.{
  ℕ, ◌⊎◌, ◌+◌, ◌≡◌, refl, true, false, Option, none, some, List, [], ◌∷◌, ◌++◌, arith,
  if◌then◌else◌, length,
}
use gate_flow.Prelude.Int.{pos, negsuc, ◌+ℤ◌, ◌-ℤ◌, scale, min_ℤ}
use gate_flow.Prelude.Text.{Text, codes, same, starts_with}
use gate_flow.Prelude.Split.{split_on}
use gate_flow.Prelude.Strip.{strip, strip_start, strip_end}
use gate_flow.Portal.Decimal.{decimal}
use gate_flow.Http.{lower_char, upper_char, header, pop, put, is_hop_by_hop, forwardable, forwarded}
use gate_flow.Models.{KeyRecord, Tier, status_code, detail, limits_of, resolve_rate_limits}
use gate_flow.Cache
use gate_flow.Cache.{find, get_entry, remove, assign, move_to_end, evict}
use gate_flow.Auth
use gate_flow.Auth.{
  is_expired, resolve_key_id, vetted, keep_tier, look_up_tier, recall, identified, authenticate,
}
use gate_flow.Auth.Address.{get_client_ip}
use gate_flow.Redis.Key.{Key, read, expire}
use gate_flow.Redis.TokenBucket.{
  Bucket, Limit, div_ceil, wait_for, load, refill, decide, token_bucket, check_rate_limit, Verdict,
  seconds,
}
use gate_flow.Redis.TokenBucket
use gate_flow.Redis.Tostring.{tostring, tostring_ℤ, round_to, unit_from}
use gate_flow.Redis.CircuitBreaker
use gate_flow.Redis.CircuitBreaker.{
  Circuit, closed, open_, half_open, Hash, Config, check_state, check_circuit, count_failure,
  report_failure, report_circuit,
}
use gate_flow.Redis.Quota.{
  incr, take_one, reserve_held, reserve, refund_held, refund, reserve_monthly_quota,
}
use gate_flow.Redis.Quota.History.{held}
use gate_flow.Router.{
  Route, Routes, lookup, keys, same_segments, less, goes_first, insert, sorted, covers, first_cover,
  segments_of, match_route, build_downstream_path, has, allows_any, allows,
}
use gate_flow.Proxy.State.{
  Sent, World, update, Settings, Answer, responds, unreachable, Try, Platform, Course, Request,
  Reply, error, passed, replayed, raised,
}
use gate_flow.Proxy.Admission.{
  Caller, too_many, limited, reserved, month_key, is_verified, found, choose_route, authed,
  authenticated, globally_limited, admit_key, admit,
}
use gate_flow.Proxy.Target.{
  served, unusable, answered, gated, try_target, retry, attempts, idempotency_applies, whole_tokens,
  stamped, counted, refunded, stored, remembered, build_response, unavailable, fall_back, concluded,
}
use gate_flow.Proxy.{
  hex_digit, hex, raw_fingerprint, key_of, reply_key, length_trusted, check_length, check_body,
  accept_body, rebuild, replay, url_of, fallback_url, call_of, serve, process, handle,
  handle_request, result,
}
use gate_flow.Proxy.Charges.{charge}
use gate_flow.Proxy.Accounts.{handle_request-charge}
use gate_flow.Proxy.Guards.{IsLetThrough, handle_request-IsLetThrough}
use gate_flow.Proxy.Circuits.{circuit_of, attempts_open, first_success}
use gate_flow.Proxy.Replays.{process-process}
use gate_flow.Proxy.Urls.{serve-absolute}
use Data.{
  users, route, routes, ann, free, settings, join_url, platform, course_with, good, fresh, request,
}

-- A run that is served: the body of the answer, the status, and what was sent.
abbrev outcome : World × Reply → Option ℕ × (ℕ × Text)
outcome (w, passed status headers body) = (some status, (length w.sent, body))
outcome (w, replayed status headers body) = (some status, (length w.sent, body))
outcome (w, error status detail retry_after) = (some status, (length w.sent, []))
outcome (w, raised e) = (none, (length w.sent, []))

abbrev to_users : Text
to_users = codes "/users/7"

abbrev after : World
after = (handle_request settings platform good routes (request to_users (1 ∷ [])) fresh).0

runs :
    (outcome (handle_request settings platform good routes (request to_users (1 ∷ [])) fresh)
      ≡ (some 200, (1, 1 ∷ [])))
    × (outcome (handle_request settings platform good routes (request to_users (1 ∷ [])) after)
        ≡ (some 200, (1, 1 ∷ [])))
    × (outcome (
          handle_request settings platform good routes
            (request to_users (1 ∷ 1 ∷ 1 ∷ 1 ∷ 1 ∷ []))
            fresh)
        ≡ (some 413, (0, [])))
    × (outcome (
          handle_request settings platform
            (course_with unreachable)
            routes
            (request to_users (1 ∷ []))
            fresh)
        ≡ (some 504, (1, [])))
    × (outcome (handle_request settings platform good routes (request (codes "/other") []) fresh)
        ≡ (some 404, (0, [])))
unfolding same starts_with split_on strip strip_start strip_end decimal lower_char upper_char header
    pop put is_hop_by_hop forwardable forwarded status_code detail limits_of resolve_rate_limits
    read expire ◌+ℤ◌ ◌-ℤ◌ scale min_ℤ div_ceil wait_for load refill decide token_bucket tostring_ℤ
    tostring round_to unit_from check_rate_limit TokenBucket.ttl CircuitBreaker.ttl check_state
    check_circuit count_failure report_failure report_circuit incr take_one reserve_held reserve
    refund_held refund reserve_monthly_quota lookup keys same_segments less goes_first insert sorted
    covers first_cover segments_of match_route build_downstream_path has allows_any allows too_many
    limited reserved is_verified found choose_route find get_entry Cache.get remove assign
    move_to_end evict Cache.set is_expired resolve_key_id vetted keep_tier look_up_tier Auth.load
    recall identified authenticate get_client_ip authed authenticated globally_limited admit_key
    admit answered gated try_target retry attempts idempotency_applies whole_tokens stamped counted
    refunded stored remembered build_response unavailable fall_back concluded hex_digit hex
    raw_fingerprint key_of reply_key length_trusted check_length check_body accept_body rebuild
    replay url_of fallback_url call_of serve process handle handle_request charge circuit_of
    Auth.invalidate_key Cache.delete
runs = (refl, refl, refl, refl, refl)

handle_request-IsLetThrough_example :
    ((handle_request settings platform good routes (request to_users (1 ∷ [])) fresh).0.sent ≡ [])
    ⊎ IsLetThrough settings platform good (request to_users (1 ∷ [])) routes fresh
handle_request-IsLetThrough_example =
    handle_request-IsLetThrough settings platform good (request to_users (1 ∷ [])) routes fresh

-- A request that ends with 504 is given its unit back.
abbrev lost : Course
lost = course_with unreachable

abbrev counter : Text
counter = month_key ann.user_id (codes "2026-11")

handle_request-charge_example :
    let (v, reply) =
      handle_request settings platform lost routes (request to_users (1 ∷ [])) fresh in
    held (v.quotas counter) ≡ 0 + charge reply
unfolding lower_char header lookup keys same_segments less goes_first insert sorted covers
    first_cover segments_of match_route strip strip_start split_on same authenticate identified
    resolve_key_id recall Cache.get get_entry find Auth.load vetted is_expired look_up_tier
    keep_tier
handle_request-charge_example =
    handle_request-charge settings platform lost routes (request to_users (1 ∷ [])) route b'k' []
      ann free (codes "id") 4 1000 fresh refl refl refl refl refl refl (ground arith) (ground arith)
      (ground arith) tt

-- A circuit that opened at 1 for 30 seconds.
abbrev opened : Key Hash
opened = record {
  value = record { state = open_; failure_count = 5; last_failure = 1; last_success = none };
  expires_at = some 90000000;
}

abbrev blocked : World
blocked = record fresh { circuits = update fresh.circuits route.target_url (some opened) }

abbrev call : Sent
call = record { method = codes "GET"; url = codes "http://users:8000/7"; headers = []; body = [] }

attempts_open_example :
    let (v, r) = attempts settings route.target_url call good.tries 0 3 blocked in
    (v.sent ≡ []) × (r ≡ unusable)
attempts_open_example =
    attempts_open settings route.target_url call good.tries 0 3 30000001 opened blocked
      (unfold same in refl)
      (record {
        state = refl;
        ends = refl;
        expiry = 90000000;
        expires = refl;
        lasts = ground arith;
      })
      (λ n. (ground arith, ground arith))

-- The same circuit when its period is over.
abbrev later : ℕ → Try
later n = record { check_at = 40000000; report_at = 40000001; answer = responds 200 [] (1 ∷ []) }

first_success_example :
    let (v, r) = attempts settings route.target_url call later 0 2 blocked in
    (r ≡ served 200 [] (1 ∷ []))
    × (v.sent ≡ call ∷ [])
    × (circuit_of (v.circuits route.target_url) ≡ half_open)
first_success_example =
    first_success settings route.target_url call later 1 200 [] (1 ∷ []) blocked
      (unfold check_circuit check_state read same expire in refl) refl (ground arith)

-- A reply stored for ann, and the same request of another user.
abbrev caller_named : Text → Caller
caller_named user_id = record {
  user_id = user_id;
  tier = codes "free";
  key_id = user_id;
  rate = record { allowed = true; remaining = pos 9; retry_after = seconds 0 1 };
}

abbrev first_reply : World × Reply
first_reply = result settings platform good (
    process settings platform good route (caller_named (codes "ann")) (request to_users (1 ∷ []))
      fresh)

process-process_example :
    (result settings platform good (
      process settings platform good route
        (caller_named (codes "bob"))
        (request to_users (1 ∷ []))
        (first_reply.0))).1
    ≡ replayed 200
        (stamped settings good route
          (caller_named (codes "bob"))
          (codes "0.000")
          (stamped settings good route (caller_named (codes "ann")) (codes "1.000") []))
        (1 ∷ [])
unfolding same starts_with split_on strip strip_start strip_end decimal lower_char upper_char header
    pop put is_hop_by_hop forwardable forwarded status_code detail limits_of resolve_rate_limits
    read expire ◌+ℤ◌ ◌-ℤ◌ scale min_ℤ div_ceil wait_for load refill decide token_bucket tostring_ℤ
    tostring round_to unit_from check_rate_limit TokenBucket.ttl CircuitBreaker.ttl check_state
    check_circuit count_failure report_failure report_circuit incr take_one reserve_held reserve
    refund_held refund reserve_monthly_quota lookup keys same_segments less goes_first insert sorted
    covers first_cover segments_of match_route build_downstream_path has allows_any allows too_many
    limited reserved is_verified found choose_route find get_entry Cache.get remove assign
    move_to_end evict Cache.set is_expired resolve_key_id vetted keep_tier look_up_tier Auth.load
    recall identified authenticate get_client_ip authed authenticated globally_limited admit_key
    admit answered gated try_target retry attempts idempotency_applies whole_tokens stamped counted
    refunded stored remembered build_response unavailable fall_back concluded hex_digit hex
    raw_fingerprint key_of reply_key length_trusted check_length check_body accept_body rebuild
    replay url_of fallback_url call_of serve process handle handle_request charge circuit_of
process-process_example =
    process-process settings platform good good route route (caller_named (codes "ann"))
      (caller_named (codes "bob")) (request to_users (1 ∷ [])) (request to_users (1 ∷ []))
      (raw_fingerprint (codes "POST") to_users (codes "i") (1 ∷ [])) fresh (first_reply.0)
      (first_reply.0) 200
      (stamped settings good route (caller_named (codes "ann")) (codes "1.000") []) (1 ∷ []) refl
      refl refl refl refl refl (ground arith)

abbrev address : Text
address = codes "evil/x"

serve-absolute_example :
    (serve settings platform good route
      (caller_named (codes "ann"))
      (request (codes "/users/http://evil/x") [])
      fresh).0.sent
    ≡ []
      ++ call_of settings platform good
          (caller_named (codes "ann"))
          (request (codes "/users/http://evil/x") [])
          (codes "http://evil/x")
        ∷ []
unfolding starts_with check_circuit check_state read expire
serve-absolute_example =
    serve-absolute settings platform good route (caller_named (codes "ann"))
      (request (codes "/users/http://evil/x") []) address fresh 0 200 [] (1 ∷ []) refl
      (λ base. refl) refl refl refl refl (ground arith)
