-- ===== src/Auth.antt =====
-- `authenticate` of gateflow/auth.py, with the two caches of gateflow/cache.py. What the store
-- answers is an input: it may change with time in any way.
mod Tests
pub mod Address
pub mod Forwarded
pub mod Staleness
pub mod Acceptance
pub mod Sessions
pub mod Revocation
pub mod Contents
pub mod Identity
use gate_flow.Prelude.{
  ℕ, zero, suc, Bool, true, false, ◌&&◌, ◌||◌, not, Option, none, some, List, [], ◌∷◌, ◌++◌, leb,
  if◌then◌else◌,
}
use gate_flow.Prelude.Int.{negsuc}
use gate_flow.Prelude.Text.{Text, codes, same}
use gate_flow.Cache.{Data, get, set, delete}
use gate_flow.Cache
use gate_flow.Models.{KeyRecord, Tier, AuthError}
use gate_flow.Models.{Authed, refused, known}
use Address.{Addresses, entries, is_ip_allowed}

-- get_key_record and get_tier_config at a time of the clock of the caches.
pub record Directory : Type 0 where
  pub get_key_record : ℕ → Text → Option KeyRecord
  pub get_tier_config : ℕ → Text → Option Tier

-- `hmac` takes the secret first and returns hexadecimal digits.
pub record Config : Type 0 where
  pub key_secret : Text
  pub key_secret_versions : Text
  pub hmac : Text → Text → Text
  pub addresses : Addresses
  pub default_tier : Tier
  pub cache : Cache.Settings

pub record Caches : Type 0 where
  pub keys : Data (KeyRecord × Tier)
  pub tiers : Data Tier

-- When the call looks into the caches, when it reads the store, when it sets the caches, and what
-- `int(time.time())` is at the end.
pub record Moment : Type 0 where
  pub asked_at : ℕ
  pub read_at : ℕ
  pub stored_at : ℕ
  pub clock : ℕ

abbrev pub key_name : Text → Text
key_name key_id = codes "key:" ++ key_id

abbrev pub tier_name : Text → Text
tier_name tier = codes "tier:" ++ tier

unfoldable pub is_expired : Option ℕ → ℕ → Bool
is_expired none clock = false
is_expired (some zero) clock = false
is_expired (some (suc n)) clock = leb (suc n) clock

abbrev pub or_empty : Option Text → Text
or_empty none = []
or_empty (some s) = s

abbrev pub or_default : Tier → Option Tier → Tier
or_default d none = d
or_default d (some t) = t

module _ (config : Config) (store : Directory) (moment : Moment) where
  open moment use {asked_at, read_at, stored_at, clock}

  -- _key_secrets
  abbrev pub key_secrets : List Text
  key_secrets = config.key_secret ∷ entries config.key_secret_versions

  abbrev pub if_known : Option KeyRecord → Text → Option Text → Option Text
  if_known none key_id rest = rest
  if_known (some r) key_id rest = some key_id

  unfoldable pub resolve_key_id : Text → List Text → Option Text
  resolve_key_id api_key [] = none
  resolve_key_id api_key (secret ∷ secrets) =
      let key_id = config.hmac secret api_key in
      if_known (store.get_key_record asked_at key_id) key_id (resolve_key_id api_key secrets)

  -- The tests of the record, once it is there.
  unfoldable pub vetted : Option Text → KeyRecord → Tier → Text → Authed
  vetted client_ip r tier key_id =
      if not r.active
      then refused AuthError.inactive
      else if is_expired r.expires_at clock
      then refused AuthError.expired
      else if not (same r.allowed_ips [])
          && not (is_ip_allowed config.addresses (or_empty client_ip) r.allowed_ips)
      then refused AuthError.wrong_address
      else known r tier key_id

  unfoldable pub keep_tier : Text → Data Tier × Option Tier → Data Tier × Tier
  keep_tier name (tiers, some tier) = (tiers, tier)
  keep_tier name (tiers, none) =
      let tier = or_default config.default_tier (store.get_tier_config read_at name) in
      (set config.cache stored_at (tier_name name) tier tiers, tier)

  unfoldable pub look_up_tier : Text → Data Tier → Data Tier × Tier
  look_up_tier name tiers = keep_tier name (get read_at (tier_name name) tiers)

  -- What follows get_key_record.
  unfoldable pub load : Option Text → Text → Option KeyRecord → Caches → Caches × Authed
  load client_ip key_id none c = (c, refused AuthError.invalid)
  load client_ip key_id (some r) c =
      let (tiers, tier) = look_up_tier r.tier c.tiers in
      (
        record {
          keys = set config.cache stored_at (key_name key_id) (r, tier) c.keys;
          tiers = tiers;
        },
        vetted client_ip r tier key_id,
      )

  -- What follows the look into the cache of keys.
  unfoldable pub recall :
      Option Text
      → Text
      → Data Tier
      → Data (KeyRecord × Tier) × Option (KeyRecord × Tier)
      → Caches × Authed
  recall client_ip key_id tiers (keys, some (r, tier)) =
      (record { keys = keys; tiers = tiers }, vetted client_ip r tier key_id)
  recall client_ip key_id tiers (keys, none) =
      load client_ip key_id (store.get_key_record read_at key_id)
        (record { keys = keys; tiers = tiers })

  unfoldable pub identified : Option Text → Option Text → Caches → Caches × Authed
  identified client_ip none c = (c, refused AuthError.invalid)
  identified client_ip (some key_id) c =
      recall client_ip key_id c.tiers (get asked_at (key_name key_id) c.keys)

  unfoldable pub authenticate : Text → Option Text → Caches → Caches × Authed
  authenticate api_key client_ip c = identified client_ip (resolve_key_id api_key key_secrets) c

-- invalidate_key and invalidate_tier.
unfoldable pub invalidate_key : Text → Caches → Caches
invalidate_key key_id c = record c { keys = delete (key_name key_id) c.keys }

unfoldable pub invalidate_tier : Text → Caches → Caches
invalidate_tier tier c = record c { tiers = delete (tier_name tier) c.tiers }
