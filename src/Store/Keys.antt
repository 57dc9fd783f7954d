-- ===== src/Store/Keys.antt =====
-- The keys of gateflow/store.py: rows of the database, hashes of Redis, and the cache of keys of one
-- process. The hash of a key holds texts, which only `to_hash` and HINCRBY write: here it has
-- what these texts stand for. The database answers; Redis may be out of reach for the length of a call.
mod Tests
pub mod Phases
pub mod Refines
pub mod Outage
pub mod Coherence
use gate_flow.Prelude.{ℕ, Bool, true, false, Option, none, some, List, [], ◌∷◌, if◌then◌else◌}
use gate_flow.Prelude.Int.{ℤ, pos, negsuc, ◌+ℤ◌}
use gate_flow.Prelude.Text.{Text, update}
use gate_flow.Models.{KeyRecord}
use gate_flow.Auth.{Caches, invalidate_key}

-- The fields of a hash, each there or not.
pub record KeyHash : Type 0 where
  pub user_id : Option Text
  pub tier : Option Text
  pub active : Option Bool
  pub expires_at : Option ℕ
  pub rate_limit_custom : Option ℤ
  pub rate_limit_custom_refill : Option ℕ
  pub request_count_lifetime : Option ℤ
  pub allowed_ips : Option Text

abbrev pub no_fields : KeyHash
no_fields = record {
  user_id = none;
  tier = none;
  active = none;
  expires_at = none;
  rate_limit_custom = none;
  rate_limit_custom_refill = none;
  request_count_lifetime = none;
  allowed_ips = none;
}

pub record Keys : Type 0 where
  pub rows : Text → Option KeyRecord
  pub hashes : Text → Option KeyHash
  pub caches : Caches

-- What a call returns, or that it raises an exception.
pub data Outcome {ℓ} (A : Type ℓ) : Type ℓ where
  returned : A → Outcome A
  raised : Outcome A

abbrev pub or_keep {ℓ} : {A : Type ℓ} → Option A → Option A → Option A
or_keep (some a) old = some a
or_keep none old = old

abbrev pub or_empty : Option KeyHash → KeyHash
or_empty none = no_fields
or_empty (some h) = h

-- HSET of `to_hash`, which leaves out what is None: such a field stays as it was.
unfoldable pub write : KeyRecord → KeyHash → KeyHash
write r h = record {
  user_id = some r.user_id;
  tier = some r.tier;
  active = some r.active;
  expires_at = or_keep r.expires_at h.expires_at;
  rate_limit_custom = some r.rate_limit_custom;
  rate_limit_custom_refill = or_keep r.rate_limit_custom_refill h.rate_limit_custom_refill;
  request_count_lifetime = some r.request_count_lifetime;
  allowed_ips = some r.allowed_ips;
}

abbrev pub or_value {ℓ} : {A : Type ℓ} → A → Option A → A
or_value a none = a
or_value a (some b) = b

-- APIKeyRecord.model_validate, on the fields that have no default and on the others.
unfoldable pub validate_fields :
    KeyHash → Option Text → Option Text → Option Bool → Option KeyRecord
validate_fields h (some user_id) (some tier) (some active) = some (record {
  user_id = user_id;
  tier = tier;
  active = active;
  expires_at = h.expires_at;
  rate_limit_custom = or_value (negsuc 0) h.rate_limit_custom;
  rate_limit_custom_refill = h.rate_limit_custom_refill;
  request_count_lifetime = or_value (pos 0) h.request_count_lifetime;
  allowed_ips = or_value [] h.allowed_ips;
})
validate_fields h _ _ _ = none

unfoldable pub validate : KeyHash → Option KeyRecord
validate h = validate_fields h h.user_id h.tier h.active

abbrev pub set_row : Text → Option KeyRecord → Keys → Keys
set_row k r s = record s { rows = update s.rows k r }

abbrev pub set_hash : Text → Option KeyHash → Keys → Keys
set_hash k h s = record s { hashes = update s.hashes k h }

abbrev pub drop_cached : Text → Keys → Keys
drop_cached k s = record s { caches = invalidate_key k s.caches }

abbrev pub count_one : ℤ → ℤ
count_one n = n +ℤ pos 1

-- UPDATE on the row, if there is one.
unfoldable pub count_row : Option KeyRecord → Option KeyRecord
count_row none = none
count_row (some r) = some (record r { request_count_lifetime = count_one r.request_count_lifetime })

-- HINCRBY, which makes a hash where there is none.
unfoldable pub count_hash : KeyHash → KeyHash
count_hash h = record h {
  request_count_lifetime = some (count_one (or_value (pos 0) h.request_count_lifetime));
}

module _ (online : Bool) where
  -- save_key_record
  unfoldable pub save_key_record : Text → KeyRecord → Keys → Keys × Outcome (Unit {0})
  save_key_record k r s =
      let s' = set_row k (some r) s in
      if online
      then (drop_cached k (set_hash k (some (write r (or_empty (s.hashes k)))) s'), returned tt)
      else (s', raised)

  -- What get_key_record does with the hash, which is put into the database.
  unfoldable pub backfill : Text → Option KeyRecord → Keys → Keys × Outcome (Option KeyRecord)
  backfill k none s = (s, raised)
  backfill k (some r) s = ((save_key_record k r s).0, returned (some r))

  unfoldable pub look_in_redis : Text → Option KeyHash → Keys → Keys × Outcome (Option KeyRecord)
  look_in_redis k none s = (s, returned none)
  look_in_redis k (some h) s = if online then backfill k (validate h) s else (s, returned none)

  unfoldable pub look_up : Text → Option KeyRecord → Keys → Keys × Outcome (Option KeyRecord)
  look_up k (some r) s = (s, returned (some r))
  look_up k none s = look_in_redis k (s.hashes k) s

  unfoldable pub get_key_record : Text → Keys → Keys × Outcome (Option KeyRecord)
  get_key_record k s = look_up k (s.rows k) s

  -- delete_key_record, on the row.
  unfoldable pub delete_row : Text → Option KeyRecord → Keys → Keys × Outcome Bool
  delete_row k none s = (s, returned false)
  delete_row k (some r) s =
      let s' = set_row k none s in
      if online then (drop_cached k (set_hash k none s'), returned true) else (s', raised)

  unfoldable pub delete_key_record : Text → Keys → Keys × Outcome Bool
  delete_key_record k s = delete_row k (s.rows k) s

  -- increment_request_count by one; an exception of Redis is caught.
  unfoldable pub increment_request_count : Text → Keys → Keys
  increment_request_count k s =
      let s' = set_row k (count_row (s.rows k)) s in
      if online
      then drop_cached k (set_hash k (some (count_hash (or_empty (s.hashes k)))) s')
      else s'
