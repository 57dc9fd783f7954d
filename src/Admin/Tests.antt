-- ===== src/Admin/Tests.antt =====
-- Requests to the admin API, and its theorem at a concrete input.
use gate_flow.Prelude.{◌≡◌, ◌≢◌, ◌⊎◌, refl, true, false, Option, none, some, List, [], ◌∷◌}
use gate_flow.Prelude.Int.{pos, negsuc}
use gate_flow.Prelude.Text.{Text, codes, same}
use gate_flow.Prelude.Split.{split_on}
use gate_flow.Prelude.Strip.{strip, strip_start}
use gate_flow.Auth.Address.{entries, non_empty, is_whitespace}
use gate_flow.Cache
use gate_flow.Cache.{remove}
use gate_flow.Models.{KeyRecord}
use gate_flow.Auth.{invalidate_key}
use gate_flow.Store.Keys.{
  save_key_record, get_key_record, look_up, look_in_redis, delete_key_record, delete_row,
}
use gate_flow.Admin.{
  Config, State, Response, Command, get_key, create_key, delete_key, shown, created, deleted,
  conflict, unauthorized, not_found, server_error, handle, dispatch, check_admin_rate_limit,
  unless_refused, admin_authorized, is_among, compare_digest, unless_equal, is_ascii, resolve,
  resolve_or_404, or_404, show_record, show_id, show_key, add_unless, add_key, remove_key,
}
use gate_flow.Admin.Guard.{IsSame, handle-IsAuthorised}

abbrev ann : KeyRecord
ann = record {
  user_id = codes "ann";
  tier = codes "free";
  active = true;
  expires_at = none;
  rate_limit_custom = negsuc 0;
  rate_limit_custom_refill = none;
  request_count_lifetime = pos 0;
  allowed_ips = [];
}

abbrev config : Config
config = record {
  admin_key = codes "root";
  admin_read_keys = codes "see,";
  rate_limit_enabled = false;
  limit = record { capacity = 10; refill_rate = 1000000 };
  digest = λ t. t;
  hmac = λ secret api_key. api_key;
  key_secret = codes "s";
  key_secret_versions = [];
}

abbrev nothing : State
nothing = record {
  keys = record { rows = λ k. none; hashes = λ k. none; caches = record { keys = []; tiers = [] } };
  buckets = λ name. none;
}

abbrev answers : List (Option Text × Command) → State → List Response
answers [] s = []
answers ((key, command) ∷ rest) s =
    let (s', response) = handle config 0 true key command s in response ∷ answers rest s'

requests :
    answers
      ((some (codes "see"), create_key (codes "k") ann)
        ∷ (some (codes "root"), create_key (codes "k") ann)
        ∷ (some (codes "root"), create_key (codes "k") ann)
        ∷ (some (codes "see"), get_key (codes "k"))
        ∷ (some (codes "root"), delete_key (codes "k"))
        ∷ (some (codes "see"), get_key (codes "k"))
        ∷ (some (200 ∷ []), get_key (codes "k"))
        ∷ [])
      nothing
    ≡ unauthorized
      ∷ created (codes "k") ann
      ∷ conflict
      ∷ shown (codes "k") ann
      ∷ deleted (codes "k")
      ∷ not_found
      ∷ server_error
      ∷ []
unfolding handle dispatch check_admin_rate_limit unless_refused admin_authorized is_among
    compare_digest unless_equal is_ascii resolve resolve_or_404 or_404 show_record show_id show_key
    add_unless add_key remove_key save_key_record get_key_record look_up look_in_redis
    delete_key_record delete_row invalidate_key Cache.delete remove same entries non_empty split_on
    strip strip_start is_whitespace
requests = refl

handle-IsAuthorised_example :
    IsSame
      (nothing.keys)
      (handle config 0 true (some (codes "root")) (create_key (codes "k") ann) nothing).0.keys
    ⊎ ((some (codes "root") ≡ some config.admin_key) × (config.admin_key ≢ []))
handle-IsAuthorised_example =
    handle-IsAuthorised config 0 true (some (codes "root")) (create_key (codes "k") ann) nothing
