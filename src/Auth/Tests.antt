-- ===== src/Auth/Tests.antt =====
-- Calls of `authenticate`, and its theorems at concrete inputs.
use gate_flow.Prelude.{
  ℕ, ◌≡◌, if◌then◌else◌, refl, Bool, true, false, not, none, some, [], ◌∷◌, arith, ltb,
}
use gate_flow.Prelude.Int.{pos, negsuc}
use gate_flow.Prelude.Text.{Text, codes, same}
use gate_flow.Prelude.Split.{split_on}
use gate_flow.Prelude.Strip.{strip, strip_start}
use gate_flow.Http.{Headers, header, lower_char}
use gate_flow.Cache.{find, get_entry, get, remove, assign, move_to_end, evict, set, delete}
use gate_flow.Models.{KeyRecord, Tier, AuthError}
use gate_flow.Models.{refused, known}
use gate_flow.Auth.Address.{
  is_whitespace, non_empty, entries, Addresses, matches, is_trusted_proxy_ip, get_client_ip,
}
use gate_flow.Auth.{
  Directory, Config, Caches, is_expired, resolve_key_id, vetted, keep_tier, look_up_tier, load,
  recall, identified, authenticate, invalidate_key, invalidate_tier,
}
use gate_flow.Auth.Forwarded.{get_client_ip-last}
use gate_flow.Auth.Identity.{IsIdentified}
use gate_flow.Auth.Acceptance.{IsGranted}
use gate_flow.Auth.Sessions.{Login, login, forget_tier, moment_of, empty, run, run-IsGranted}
use gate_flow.Auth.Revocation.{authenticate-invalidate_key}

-- Networks of one address.
abbrev addresses : Addresses
addresses = record { is_address = λ ip. not (same ip []); in_network = λ ip rule. same ip rule }

abbrev proxy : Text
proxy = codes "10.0.0.1"

abbrev chain : Text → Headers
chain forwarded = (codes "x-forwarded-for", forwarded) ∷ []

get_client_ip-last_example :
    get_client_ip addresses (some proxy) proxy (chain (codes "1.1.1.1,9.9.9.9, 10.0.0.1"))
    ≡ some (codes "9.9.9.9")
unfolding is_trusted_proxy_ip matches strip strip_start is_whitespace split_on same header
    lower_char entries non_empty
get_client_ip-last_example =
    get_client_ip-last addresses proxy proxy (codes "9.9.9.9") (codes "1.1.1.1")
      (codes "9.9.9.9, 10.0.0.1") [] (proxy ∷ []) (chain (codes "1.1.1.1,9.9.9.9, 10.0.0.1")) refl
      refl refl refl refl (refl, tt)

abbrev ann : Bool → KeyRecord
ann active = record {
  user_id = codes "ann";
  tier = codes "free";
  active = active;
  expires_at = none;
  rate_limit_custom = negsuc 0;
  rate_limit_custom_refill = none;
  request_count_lifetime = pos 0;
  allowed_ips = [];
}

abbrev limits : ℕ → Tier
limits capacity = record { capacity = capacity; refill_rate = 1000000; monthly_quota = pos 5 }

-- The key is active and its tier has 10 tokens before the time 20, and from then on it is not and
-- the tier has 1.
abbrev store : Directory
store = record {
  get_key_record = λ now key_id. some (ann (ltb now 20));
  get_tier_config = λ now name. some (limits (if ltb now 20 then 10 else 1));
}

abbrev config : Config
config = record {
  key_secret = codes "s";
  key_secret_versions = [];
  hmac = λ secret api_key. api_key;
  addresses = addresses;
  default_tier = limits 10;
  cache = record { ttl = 60; maxsize = 100 };
}

abbrev key : Text
key = codes "k"

abbrev after_ticks : ℕ → Login
after_ticks wait = record {
  wait = wait;
  reading = 1;
  storing = 1;
  clock = 0;
  api_key = key;
  client_ip = none;
}

-- The second call, 50 ticks after the first one, is answered from the cache: with the old record,
-- and with the old limits though the tier was removed from its cache.
abbrev held : Caches
held = (run config store 0 (login (after_ticks 5) ∷ forget_tier (codes "free") ∷ []) empty).1

answered_from_cache :
    (authenticate config store (moment_of 7 (after_ticks 50)) key none held).1
    ≡ known (ann true) (limits 10) key
unfolding find get_entry get remove assign move_to_end evict set delete same is_expired
    resolve_key_id vetted keep_tier look_up_tier load recall identified authenticate invalidate_tier
    run
answered_from_cache = refl

run-IsGranted_example :
    let out = (authenticate config store (moment_of 7 (after_ticks 50)) key none held).1 in
    IsGranted config store 1 (moment_of 7 (after_ticks 50)) none out
    × IsIdentified config store (moment_of 7 (after_ticks 50)) key out
unfolding run
run-IsGranted_example =
    run-IsGranted config store 1 (login (after_ticks 5) ∷ forget_tier (codes "free") ∷ [])
      (after_ticks 50) (ground arith, (tt, tt)) (ground arith)

authenticate-invalidate_key_example :
    (authenticate config store (moment_of 7 (after_ticks 50)) key none (invalidate_key key held)).1
    ≡ refused AuthError.inactive
unfolding find get_entry get remove assign move_to_end evict set delete same is_expired
    resolve_key_id vetted keep_tier look_up_tier load recall identified authenticate invalidate_tier
    run
authenticate-invalidate_key_example =
    authenticate-invalidate_key config store (moment_of 7 (after_ticks 50)) key none key (ann false)
      held (tt, tt) refl refl refl
