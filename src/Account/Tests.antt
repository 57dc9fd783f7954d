-- ===== src/Account/Tests.antt =====
-- A rotation, and its theorem at a concrete input.
use gate_flow.Prelude.{ℕ, ◌≡◌, refl, inl, true, Option, none, some, []}
use gate_flow.Prelude.Int.{pos, negsuc}
use gate_flow.Prelude.Text.{Text, codes, same, update}
use gate_flow.Prelude.Split.{split_on}
use gate_flow.Prelude.Strip.{strip, strip_start}
use gate_flow.Auth.Address.{entries, non_empty}
use gate_flow.Cache
use gate_flow.Cache.{find, get_entry, remove, assign, move_to_end, evict}
use gate_flow.Models.{KeyRecord, Tier, AuthError, refused}
use gate_flow.Auth
use gate_flow.Auth.{
  Config, Moment, is_expired, resolve_key_id, vetted, keep_tier, look_up_tier, recall, identified,
  authenticate, invalidate_key,
}
use gate_flow.Store.Keys.{Keys, save_key_record, get_key_record, look_up, look_in_redis}
use gate_flow.Store.Keys.Phases.{absent, stored, phase_of, view}
use gate_flow.Store.Keys.Coherence.{found, warmed, login, identify}
use gate_flow.Account.{rotated, rotate_api_key}
use gate_flow.Account.Rotation.{rotate_api_key-replaces}

abbrev ann : KeyRecord
ann = record {
  user_id = codes "ann";
  tier = codes "free";
  active = true;
  expires_at = none;
  rate_limit_custom = negsuc 0;
  rate_limit_custom_refill = none;
  request_count_lifetime = pos 0;
  allowed_ips = [];
}

abbrev free : Tier
free = record { capacity = 10; refill_rate = 1000000; monthly_quota = pos 5 }

abbrev config : Config
config = record {
  key_secret = codes "s";
  key_secret_versions = [];
  hmac = λ secret api_key. api_key;
  addresses = record { is_address = λ ip. true; in_network = λ ip rule. same ip rule };
  default_tier = free;
  cache = record { ttl = 60; maxsize = 100 };
}

abbrev tiers : ℕ → Text → Option Tier
tiers now name = some free

abbrev moment : ℕ → Moment
moment now = record { asked_at = now; read_at = now; stored_at = now; clock = 0 }

-- The old key is "o", the new one "n".
abbrev kept : Keys
kept =
    (save_key_record true (codes "o") ann (record {
      rows = λ k. none;
      hashes = λ k. none;
      caches = record { keys = []; tiers = [] };
    })).0

rotate_api_key-replaces_example :
    let s1 = (login config tiers (moment 1) (codes "o") none kept).0 in
    let (s', reply) =
      rotate_api_key config tiers true (moment 1) (codes "n") (some (codes "o")) none kept in
    (reply ≡ rotated (codes "n") (codes "ann") (codes "free"))
    × (view s' ≡ update (update (view s1) (codes "n") (stored ann)) (codes "o") absent)
    × (identify config tiers (moment 2) (codes "n") s' ≡ some (codes "n"))
    × ((login config tiers (moment 2) (codes "o") none s').1 ≡ refused AuthError.invalid)
unfolding login warmed get_key_record look_up look_in_redis save_key_record invalidate_key
    Cache.delete remove phase_of find get_entry Cache.get assign move_to_end evict Cache.set same
    is_expired resolve_key_id vetted keep_tier look_up_tier Auth.load recall identified authenticate
    found entries non_empty split_on strip strip_start
rotate_api_key-replaces_example =
    rotate_api_key-replaces config tiers (moment 1) (moment 2) 111 [] (codes "n") (codes "o") none
      none ann ann free kept refl refl refl refl (inl refl, tt)
