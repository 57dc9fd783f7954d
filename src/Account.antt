-- ===== src/Account.antt =====
-- The handlers of gateflow/portal.py that change keys: rotate_api_key. `secrets.token_urlsafe` is an
-- input, the new key. Redis answers the authentication, and what follows it or not.
mod Tests
pub mod Rotation
use gate_flow.Prelude.{ℕ, Bool, true, false, Option, none, some, [], ◌∷◌}
use gate_flow.Prelude.Text.{Text}
use gate_flow.Models.{KeyRecord, Tier, AuthError, Authed, refused, known}
use gate_flow.Auth.{Config, Moment}
use gate_flow.Store.Keys.{
  Keys, Outcome, returned, raised, get_key_record, save_key_record, delete_key_record,
}
use gate_flow.Store.Keys.Coherence.{login}

-- What the caller gets: the key is missing (401), the error of `authenticate`, a collision (409), the
-- error of a failed call (500), or the new key.
pub data Reply : Type 0 where
  missing_key : Reply
  auth_error : AuthError → Reply
  collision : Reply
  server_error : Reply
  rotated : (api_key user_id tier : Text) → Reply

module _ (online : Bool) (new_key new_id : Text) where
  -- After the old key is deleted.
  unfoldable pub answered : KeyRecord → Keys × Outcome Bool → Keys × Reply
  answered r (s, raised) = (s, server_error)
  answered r (s, returned deleted) = (s, rotated new_key r.user_id r.tier)

  -- After the new key is saved.
  unfoldable pub replaced : KeyRecord → Text → Keys × Outcome (Unit {0}) → Keys × Reply
  replaced r old_id (s, raised) = (s, server_error)
  replaced r old_id (s, returned _) = answered r (delete_key_record online old_id s)

  -- After the lookup of the new key.
  unfoldable pub unless_taken : KeyRecord → Text → Keys × Outcome (Option KeyRecord) → Keys × Reply
  unless_taken r old_id (s, raised) = (s, server_error)
  unless_taken r old_id (s, returned (some _)) = (s, collision)
  unless_taken r old_id (s, returned none) = replaced r old_id (save_key_record online new_id r s)

  -- After the authentication.
  unfoldable pub reissued : Keys × Authed → Keys × Reply
  reissued (s, refused e) = (s, auth_error e)
  reissued (s, known r tier old_id) = unless_taken r old_id (get_key_record online new_id s)

module _ (config : Config) (tiers : ℕ → Text → Option Tier) (online : Bool) where
  unfoldable pub rotate_api_key :
      Moment → (new_key : Text) → Option Text → (client_ip : Option Text) → Keys → Keys × Reply
  rotate_api_key moment new_key none client_ip s = (s, missing_key)
  rotate_api_key moment new_key (some []) client_ip s = (s, missing_key)
  rotate_api_key moment new_key (some (c ∷ api_key)) client_ip s =
      reissued online new_key (config.hmac config.key_secret new_key)
        (login config tiers moment (c ∷ api_key) client_ip s)
