-- ===== src/Store/Keys/Outage.antt =====
-- Calls of the store while Redis is out of reach.
use gate_flow.Prelude.{◌≡◌, refl, true, false, none, some}
use gate_flow.Prelude.Text.{Text, same_refl}
use gate_flow.Models.{KeyRecord}
use gate_flow.Store.Keys.{
  KeyHash, Keys, returned, raised, validate, save_key_record, backfill, look_in_redis, look_up,
  get_key_record, delete_row, delete_key_record,
}
use gate_flow.Store.Keys.Phases.{stored, phase_of, view}

-- A key with a row and a hash that is deleted while Redis is out of reach: the call raises an
-- exception when the row is gone, and the next lookup with Redis finds the hash, returns the record
-- in it and puts the key back into the database.
pub delete_key_record-revived :
    (k : Text) (s : Keys) (r r' : KeyRecord) (h : KeyHash)
    → s.rows k ≡ some r
    → s.hashes k ≡ some h
    → validate h ≡ some r'
    → let (s', out) = delete_key_record false k s in
      let (s'', out') = get_key_record true k s' in
      (out ≡ raised) × (s'.rows k ≡ none) × (out' ≡ returned (some r')) × (view s'' k ≡ stored r')
unfolding delete_key_record delete_row get_key_record look_up look_in_redis backfill save_key_record
    phase_of
delete_key_record-revived k s r r' h row hash valid =
    rw (row, delete_row, same_refl k, hash, valid, same_refl k) (refl, refl, refl, refl)
