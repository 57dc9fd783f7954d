-- ===== src/Auth/Revocation.antt =====
-- What a change of a key does to its next request.
use gate_flow.Prelude.{ℕ, ◌≡◌, refl, false, Option, none, some}
use gate_flow.Prelude.Text.{Text}
use gate_flow.Cache.{Data, get_entry, get, delete, remove}
use gate_flow.Cache.Entries.{HasDistinctKeys, remove-IsAbsent}
use gate_flow.Cache.Kept.{find_absent}
use gate_flow.Models.{KeyRecord, Tier, AuthError}
use gate_flow.Models.{refused}
use gate_flow.Auth.{
  Directory, Config, Caches, Moment, key_name, key_secrets, resolve_key_id, vetted, load, recall,
  identified, authenticate, invalidate_key,
}

-- A key that is gone from the dictionary is not found.
get-delete :
    {A : Type 0} (now : ℕ) (k : Text) (d : Data A)
    → HasDistinctKeys d
    → get now k (delete k d) ≡ (delete k d, none)
unfolding get get_entry delete
get-delete now k d h = rw (find_absent k (remove k d) (remove-IsAbsent k d h)) refl

vetted_inactive :
    (config : Config) (store : Directory) (moment : Moment) (client_ip : Option Text)
    (r : KeyRecord) (tier : Tier) (key_id : Text)
    → r.active ≡ false
    → vetted config store moment client_ip r tier key_id ≡ refused AuthError.inactive
unfolding vetted
vetted_inactive config store moment client_ip r tier key_id h = rw h refl

-- If the store has a key as inactive and invalidate_key has been called for it, the next request
-- with that key is refused, whatever else the caches hold. The keys of the cache are distinct, as
-- those of a dictionary are.
pub authenticate-invalidate_key :
    (config : Config) (store : Directory) (moment : Moment) (api_key : Text)
    (client_ip : Option Text) (key_id : Text) (r : KeyRecord) (c : Caches)
    → HasDistinctKeys c.keys
    → resolve_key_id config store moment api_key (key_secrets config store moment) ≡ some key_id
    → store.get_key_record moment.read_at key_id ≡ some r
    → r.active ≡ false
    → (authenticate config store moment api_key client_ip (invalidate_key key_id c)).1
      ≡ refused AuthError.inactive
unfolding authenticate identified invalidate_key recall load
authenticate-invalidate_key config store moment api_key client_ip key_id r c d named there
      inactive =
    rw (named, get-delete moment.asked_at (key_name key_id) c.keys d, there)
      (vetted_inactive config store moment client_ip r _ key_id inactive)
