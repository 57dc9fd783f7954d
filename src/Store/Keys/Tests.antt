-- ===== src/Store/Keys/Tests.antt =====
-- Calls of the store of keys, and its theorems at concrete inputs.
use gate_flow.Prelude.{ℕ, ◌≡◌, refl, Bool, true, false, Option, none, some, List, [], ◌∷◌}
use gate_flow.Prelude.Int.{pos, negsuc, ◌+ℤ◌}
use gate_flow.Prelude.Text.{Text, codes, same}
use gate_flow.Cache
use gate_flow.Cache.{find, get_entry, remove, assign, move_to_end, evict}
use gate_flow.Models.{KeyRecord, Tier}
use gate_flow.Auth
use gate_flow.Auth.{
  Config, Moment, key_secrets, is_expired, resolve_key_id, vetted, keep_tier, look_up_tier, recall,
  identified, authenticate, invalidate_key,
}
use gate_flow.Store.Keys.{
  no_fields, Keys, returned, raised, write, validate, validate_fields, count_row, count_hash,
  save_key_record, backfill, look_in_redis, look_up, get_key_record, delete_row, delete_key_record,
  increment_request_count,
}
use gate_flow.Store.Keys.Phases
use gate_flow.Store.Keys.Phases.{
  Phase, absent, broken, stored, phase_of, phase_of_hash, view, save, get, delete, increment, got,
  deleted, counted, saved, apply, run, replay,
}
use gate_flow.Store.Keys.Refines.{run-replay}
use gate_flow.Store.Keys.Outage.{delete_key_record-revived}
use gate_flow.Auth.Identity.{IsHashOf}
use gate_flow.Store.Keys.Coherence.{
  directory, found, warmed, login, call, log_in, after, login-IsRow,
}

abbrev ann : Bool → KeyRecord
ann active = record {
  user_id = codes "ann";
  tier = codes "free";
  active = active;
  expires_at = none;
  rate_limit_custom = negsuc 0;
  rate_limit_custom_refill = none;
  request_count_lifetime = pos 0;
  allowed_ips = [];
}

abbrev nothing : Keys
nothing = record { rows = λ k. none; hashes = λ k. none; caches = record { keys = []; tiers = [] } }

abbrev k : Text
k = codes "k"

-- A key that is saved, counted and deleted, and the hash that a late count leaves.
abbrev ops : List Phases.Op
ops = save k (ann true) ∷ increment k ∷ get k ∷ delete k ∷ get k ∷ increment k ∷ get k ∷ []

run-ops :
    (run ops nothing).1
    ≡ saved (returned tt)
      ∷ counted
      ∷ got (returned (some (record (ann true) { request_count_lifetime = pos 1 })))
      ∷ deleted (returned true)
      ∷ got (returned none)
      ∷ counted
      ∷ got raised
      ∷ []
unfolding run apply save_key_record get_key_record look_up look_in_redis backfill delete_key_record
    delete_row increment_request_count count_row count_hash validate validate_fields write same ◌+ℤ◌
run-ops = refl

run-replay_example :
    (view (run ops nothing).0 ≡ (replay ops (view nothing)).0)
    × ((run ops nothing).1 ≡ (replay ops (view nothing)).1)
run-replay_example = run-replay ops nothing

abbrev kept : Keys
kept = (save_key_record true k (ann true) nothing).0

delete_key_record-revived_example :
    let (s', out) = delete_key_record false k kept in
    let (s'', out') = get_key_record true k s' in
    (out ≡ raised)
    × (s'.rows k ≡ none)
    × (out' ≡ returned (some (ann true)))
    × (view s'' k ≡ stored (ann true))
unfolding save_key_record write validate validate_fields same
delete_key_record-revived_example =
    delete_key_record-revived k kept (ann true) (ann true) (write (ann true) no_fields) refl refl
      refl

abbrev free : Tier
free = record { capacity = 10; refill_rate = 1000000; monthly_quota = pos 5 }

abbrev config : Config
config = record {
  key_secret = codes "s";
  key_secret_versions = [];
  hmac = λ secret api_key. api_key;
  addresses = record { is_address = λ ip. true; in_network = λ ip rule. same ip rule };
  default_tier = free;
  cache = record { ttl = 60; maxsize = 100 };
}

abbrev tiers : ℕ → Text → Option Tier
tiers now name = some free

abbrev moment : ℕ → Moment
moment now = record { asked_at = now; read_at = now; stored_at = now; clock = 0 }

-- A key that was used and then changed is accepted as it is now.
login-IsRow_example :
    let s' =
      (login config tiers (moment 2) k none (
        after config tiers
          (call (save k (ann true))
            ∷ log_in (moment 1) k none
            ∷ call (save k (record (ann true) { tier = codes "pro" }))
            ∷ [])
          nothing)).0 in
    (s'.rows k ≡ some (record (ann true) { tier = codes "pro" }))
    × IsHashOf config
        (directory tiers s')
        (moment 2)
        k
        (key_secrets config (directory tiers s') (moment 2))
        k
unfolding after login warmed apply save_key_record get_key_record look_up look_in_redis backfill
    invalidate_key Cache.delete remove found phase_of find get_entry Cache.get assign move_to_end
    evict Cache.set same is_expired resolve_key_id vetted keep_tier look_up_tier Auth.load recall
    identified authenticate
login-IsRow_example =
    login-IsRow config tiers
      (call (save k (ann true))
        ∷ log_in (moment 1) k none
        ∷ call (save k (record (ann true) { tier = codes "pro" }))
        ∷ [])
      nothing (moment 2) k none (record (ann true) { tier = codes "pro" }) free k refl refl
