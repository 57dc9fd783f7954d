-- ===== src/Auth/Identity.antt =====
-- The id under which a key is accepted belongs to that key.
use gate_flow.Prelude.{◌≡◌, ◌⊎◌, refl, inl, inr, Option, some, List, [], ◌∷◌, Option-cases}
use gate_flow.Prelude.Text.{Text}
use gate_flow.Cache.{get}
use gate_flow.Models.{KeyRecord, Authed, refused, known}
use gate_flow.Auth.{
  Directory, Config, Caches, Moment, key_name, key_secrets, if_known, resolve_key_id, recall,
  identified, authenticate,
}
use gate_flow.Auth.Contents.{IsBacked, recall-id}

-- One of the secrets hashes the key to the id, under which the store has a record at the call.
abbrev pub IsHashOf : Config → Directory → Moment → Text → List Text → Text → Type 0
IsHashOf config store moment api_key [] key_id = ⊥
IsHashOf config store moment api_key (secret ∷ secrets) key_id =
    ((config.hmac secret api_key ≡ key_id)
      × ((r : KeyRecord) × (store.get_key_record moment.asked_at key_id ≡ some r)))
    ⊎ IsHashOf config store moment api_key secrets key_id

module _ (config : Config) (store : Directory) (moment : Moment) (api_key : Text) where
  -- A key is refused, or its id is a hash of it.
  abbrev pub IsIdentified : Authed → Type 0
  IsIdentified (refused e) = Unit
  IsIdentified (known r tier key_id) =
      IsHashOf config store moment api_key (key_secrets config store moment) key_id

  resolve_key_id-IsHashOf :
      (secrets : List Text) (key_id : Text)
      → resolve_key_id config store moment api_key secrets ≡ some key_id
      → IsHashOf config store moment api_key secrets key_id
  unfolding resolve_key_id if_known
  resolve_key_id-IsHashOf [] key_id h = cc
  resolve_key_id-IsHashOf (secret ∷ secrets) key_id h =
      elim (Option-cases (store.get_key_record moment.asked_at (config.hmac secret api_key))) [
        | inl e ↦ inr (resolve_key_id-IsHashOf secrets key_id (rw e at h))
        | inr (r, e) ↦
            let found : some (config.hmac secret api_key) ≡ some key_id = rw e at h in
            let same_id : config.hmac secret api_key ≡ key_id = cc in
            inl (same_id, (r, rw same_id at e))
      ]

  backed_id :
      (out : Authed) (key_id : Text)
      → IsBacked (λ k r. k ≡ key_id) out
      → IsHashOf config store moment api_key (key_secrets config store moment) key_id
      → IsIdentified out
  backed_id (refused e) key_id b h = tt
  backed_id (known r tier k) key_id b h = rw (b r tier k refl) h

  pub authenticate-IsIdentified :
      (client_ip : Option Text) (c : Caches)
      → IsIdentified (authenticate config store moment api_key client_ip c).1
  unfolding authenticate identified
  authenticate-IsIdentified client_ip c =
      elim (Option-cases
        (resolve_key_id config store moment api_key (key_secrets config store moment))) [
          | inl e ↦ rw e tt
          | inr (key_id, e) ↦
              let x = get moment.asked_at (key_name key_id) c.keys in
              let out = (recall config store moment client_ip key_id c.tiers x).1 in
              rw e (
                backed_id out key_id
                  (recall-id (λ k r. k ≡ key_id) config store moment client_ip key_id c.tiers x
                    (λ r. refl))
                  (resolve_key_id-IsHashOf (key_secrets config store moment) key_id e))
        ]
