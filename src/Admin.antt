-- ===== src/Admin.antt =====
-- gateflow/admin/common.py and the handlers of single keys in gateflow/admin/keys.py. The bodies of
-- the requests have passed the framework's validation, and the log of audit events is left out.
mod Tests
pub mod Guard
pub mod Routes
use gate_flow.Prelude.{
  ℕ, Bool, true, false, ◌&&◌, not, Option, none, some, List, [], ◌∷◌, leb, if◌then◌else◌, any,
}
use gate_flow.Prelude.Text.{Text, codes, same, update}
use gate_flow.Models.{KeyRecord}
use gate_flow.Auth.Address.{entries}
use gate_flow.Redis.Key.{Key}
use gate_flow.Redis.TokenBucket.{Bucket, Limit, check_rate_limit}
use gate_flow.Proxy.Admission.{bucket_key}
use gate_flow.Store.Keys.{
  Keys, Outcome, returned, raised, get_key_record, save_key_record, delete_key_record,
}

-- `digest` is sha256 in hexadecimal, and `hmac` the hash of a key with a secret.
pub record Config : Type 0 where
  pub admin_key : Text
  pub admin_read_keys : Text
  pub rate_limit_enabled : Bool
  pub limit : Limit
  pub digest : Text → Text
  pub hmac : Text → Text → Text
  pub key_secret : Text
  pub key_secret_versions : Text

pub record State : Type 0 where
  pub keys : Keys
  pub buckets : Text → Option (Key Bucket)

pub data Response : Type 0 where
  too_many unauthorized not_found conflict : Response
  -- An exception that the handler lets through (500).
  server_error : Response
  shown : (key_id : Text) → KeyRecord → Response
  created updated : (key_id : Text) → KeyRecord → Response
  deleted : (key_id : Text) → Response

pub data Command : Type 0 where
  get_key delete_key : (api_key : Text) → Command
  create_key update_key : (api_key : Text) → KeyRecord → Command

-- `hmac.compare_digest` on two strings: a TypeError, unless both are ASCII.
unfoldable pub is_ascii : Text → Bool
is_ascii s = not (any (leb 128) s)

unfoldable pub compare_digest : Text → Text → Option Bool
compare_digest a b = if is_ascii a && is_ascii b then some (same a b) else none

unfoldable pub unless_equal : Option Bool → Option Bool → Option Bool
unless_equal none rest = none
unless_equal (some true) rest = some true
unless_equal (some false) rest = rest

-- `any(constant_time_compare(key, k) for k in allowed if k)`
unfoldable pub is_among : Text → List Text → Option Bool
is_among key [] = some false
is_among key ([] ∷ allowed) = is_among key allowed
is_among key ((c ∷ k) ∷ allowed) = unless_equal (compare_digest key (c ∷ k)) (is_among key allowed)

unfoldable pub admin_authorized : Option Text → List Text → Option Bool
admin_authorized none allowed = some false
admin_authorized (some []) allowed = some false
admin_authorized (some (c ∷ key)) allowed = is_among (c ∷ key) allowed

module _ (config : Config) (now : ℕ) (online : Bool) where
  abbrev pub read_keys : List Text
  read_keys = config.admin_key ∷ entries config.admin_read_keys

  -- _check_admin_rate_limit: the buckets, and whether it lets the request through.
  unfoldable pub check_admin_rate_limit :
      Option Text → (Text → Option (Key Bucket)) → (Text → Option (Key Bucket)) × Bool
  check_admin_rate_limit none buckets = (buckets, true)
  check_admin_rate_limit (some []) buckets = (buckets, true)
  check_admin_rate_limit (some (c ∷ key)) buckets =
      let name = bucket_key (config.digest (c ∷ key)) (codes "admin") in
      let (b, verdict) = check_rate_limit config.limit 1 now (buckets name) in
      if config.rate_limit_enabled
      then (update buckets name (some b), verdict.allowed)
      else (buckets, true)

  -- What follows the test of the admin key.
  unfoldable pub unless_refused : Option Bool → (Keys → Keys × Response) → Keys → Keys × Response
  unless_refused none handler s = (s, server_error)
  unless_refused (some false) handler s = (s, unauthorized)
  unless_refused (some true) handler s = handler s

  abbrev pub after {ℓ} :
      {A : Type ℓ} → Keys × Outcome A → (A → Keys → Keys × Response) → Keys × Response
  after (s, raised) next = (s, server_error)
  after (s, returned a) next = next a s

  -- resolve_key_id over the secrets.
  abbrev pub or_next :
      Keys × Outcome (Option KeyRecord)
      → Text
      → (Keys → Keys × Outcome (Option Text))
      → Keys × Outcome (Option Text)
  or_next (s, raised) key_id next = (s, raised)
  or_next (s, returned none) key_id next = next s
  or_next (s, returned (some r)) key_id next = (s, returned (some key_id))

  unfoldable pub resolve : Text → List Text → Keys → Keys × Outcome (Option Text)
  resolve api_key [] s = (s, returned none)
  resolve api_key (secret ∷ secrets) s =
      or_next (get_key_record online (config.hmac secret api_key) s) (config.hmac secret api_key)
        (resolve api_key secrets)

  abbrev pub secrets : List Text
  secrets = config.key_secret ∷ entries config.key_secret_versions

  unfoldable pub or_404 : (Text → Keys → Keys × Response) → Option Text → Keys → Keys × Response
  or_404 next none s = (s, not_found)
  or_404 next (some key_id) s = next key_id s

  -- _resolve_or_404, and what follows it.
  unfoldable pub resolve_or_404 : Text → (Text → Keys → Keys × Response) → Keys → Keys × Response
  resolve_or_404 api_key next s = after (resolve api_key secrets s) (or_404 next)

  unfoldable pub show_record : Text → Option KeyRecord → Keys → Keys × Response
  show_record key_id none s = (s, not_found)
  show_record key_id (some r) s = (s, shown key_id r)

  unfoldable pub show_id : Text → Keys → Keys × Response
  show_id key_id s = after (get_key_record online key_id s) (show_record key_id)

  unfoldable pub show_key : Text → Keys → Keys × Response
  show_key api_key = resolve_or_404 api_key show_id

  unfoldable pub add_unless : Text → KeyRecord → Option Text → Keys → Keys × Response
  add_unless key_id r (some other) s = (s, conflict)
  add_unless key_id r none s =
      after (save_key_record online key_id r s) (λ _ s'. (s', created key_id r))

  unfoldable pub add_key : Text → KeyRecord → Keys → Keys × Response
  add_key api_key r s =
      after (resolve api_key secrets s) (add_unless (config.hmac config.key_secret api_key) r)

  unfoldable pub change_key : Text → KeyRecord → Keys → Keys × Response
  change_key api_key r =
      resolve_or_404 api_key
        (λ key_id s. after (save_key_record online key_id r s) (λ _ s'. (s', updated key_id r)))

  unfoldable pub remove_key : Text → Keys → Keys × Response
  remove_key api_key =
      resolve_or_404 api_key
        (λ key_id s. after (delete_key_record online key_id s) (λ _ s'. (s', deleted key_id)))

  -- require_admin_read or require_admin_write, and the handler.
  unfoldable pub dispatch : Option Text → Command → Keys → Keys × Response
  dispatch admin_key (get_key api_key) =
      unless_refused (admin_authorized admin_key read_keys) (show_key api_key)
  dispatch admin_key (create_key api_key r) =
      unless_refused (admin_authorized admin_key (config.admin_key ∷ [])) (add_key api_key r)
  dispatch admin_key (update_key api_key r) =
      unless_refused (admin_authorized admin_key (config.admin_key ∷ [])) (change_key api_key r)
  dispatch admin_key (delete_key api_key) =
      unless_refused (admin_authorized admin_key (config.admin_key ∷ [])) (remove_key api_key)

  unfoldable pub handle : Option Text → Command → State → State × Response
  handle admin_key command s =
      let (buckets, allowed) = check_admin_rate_limit admin_key s.buckets in
      let (keys, response) = dispatch admin_key command s.keys in
      if allowed
      then (record { keys = keys; buckets = buckets }, response)
      else (record s { buckets = buckets }, too_many)
