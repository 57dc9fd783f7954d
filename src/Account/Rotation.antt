-- ===== src/Account/Rotation.antt =====
-- What the rotation of a key leaves.
use mathlib.Core.Path.{subst}
use gate_flow.Cache.Entries.{same-false_sym}
use gate_flow.Prelude.{
  ℕ, ◌≡◌, ◌⊎◌, refl, sym, ap, ◌∙◌, inl, inr, true, false, Option, none, some, List, [], ◌∷◌, All,
  All-map, Bool-cases, Option-cases,
}
use gate_flow.Prelude.Text.{Text, same, same_refl, update}
use gate_flow.Models.{KeyRecord, Tier, AuthError, Authed, refused, known}
use gate_flow.Auth.{
  Directory, Config, Moment, key_secrets, resolve_key_id, identified, authenticate,
}
use gate_flow.Store.Keys.{
  KeyHash, Keys, returned, validate, get_key_record, save_key_record, delete_key_record, delete_row,
  look_up, look_in_redis,
}
use gate_flow.Store.Keys.Phases.{
  Phase, absent, broken, cached, stored, phase_of_hash, phase_of, view, save, delete, apply, Phases,
  step, remove,
}
use gate_flow.Store.Keys.Refines.{apply-Matches}
use gate_flow.Store.Keys.Coherence.{found, directory, identify, login, warmed}
use gate_flow.Account.{Reply, rotated, answered, replaced, unless_taken, reissued, rotate_api_key}

-- A key that is absent has no row and no hash.
absent-lookup :
    (k : Text) (s : Keys) (row : Option KeyRecord) (h : Option KeyHash)
    → s.hashes k ≡ h
    → phase_of row h ≡ absent
    → look_up true k row s ≡ (s, returned none)
unfolding look_up look_in_redis phase_of
absent-lookup k s (some r) h e a = cc
absent-lookup k s none none e a = rw e refl
absent-lookup k s none (some h) e a = elim (Option-cases (validate h)) [
  | inl v ↦
      absurd (let no : ◌≡◌ {A = Phase} broken absent = unfold phase_of_hash in (rw v at a) in cc)
  | inr (r, v) ↦
      absurd
        (let no : ◌≡◌ {A = Phase} (cached r) absent = unfold phase_of_hash in (rw v at a) in cc)
]

stored-row : (k : Text) (s : Keys) (r : KeyRecord) → s.rows k ≡ some r → view s k ≡ stored r
unfolding phase_of
stored-row k s r e = rw e refl

delete_returned :
    (k : Text) (s : Keys) (r : KeyRecord)
    → s.rows k ≡ some r
    → delete_key_record true k s ≡ ((apply (delete k) s).0, returned true)
unfolding apply delete_key_record delete_row
delete_returned k s r e = rw e refl

-- The two calls that replace a key by another one.
module _ (s : Keys) (new_id old_id : Text) (r r' : KeyRecord) where
  abbrev saved_state : Keys
  saved_state = (apply (save new_id r) s).0

  abbrev pub swapped : Keys
  swapped = (apply (delete old_id) saved_state).0

  old_row : s.rows old_id ≡ some r' → same new_id old_id ≡ false → saved_state.rows old_id ≡ some r'
  unfolding apply save_key_record
  old_row e d = rw (d) e

  view-swapped :
      s.rows old_id ≡ some r'
      → same new_id old_id ≡ false
      → view swapped ≡ update (update (view s) new_id (stored r)) old_id absent
  unfolding step remove
  view-swapped e d =
      (apply-Matches (delete old_id) saved_state).0
      ∙ (rw (stored-row old_id saved_state r' (old_row e d)) refl)
      ∙ ap (λ v. update v old_id absent) (apply-Matches (save new_id r) s).0

  replaced_lem :
      (new_key : Text)
      → s.rows old_id ≡ some r'
      → same new_id old_id ≡ false
      → replaced true new_key new_id r old_id (save_key_record true new_id r s)
        ≡ (swapped, rotated new_key r.user_id r.tier)
  unfolding replaced answered apply save_key_record
  replaced_lem new_key e d =
      ap (answered true new_key new_id r)
        (delete_returned old_id (save_key_record true new_id r s).0 r' (rw (d) e))

-- A key that no secret gives the id of a record is not identified.
resolve_none :
    (config : Config) (store : Directory) (moment : Moment) (api_key : Text) (secrets : List Text)
    → All
        (λ secret. store.get_key_record moment.asked_at (config.hmac secret api_key) ≡ none)
        secrets
    → resolve_key_id config store moment api_key secrets ≡ none
unfolding resolve_key_id
resolve_none config store moment api_key [] h = refl
resolve_none config store moment api_key (secret ∷ secrets) h =
    rw (h.0) (resolve_none config store moment api_key secrets h.1)

resolve-first :
    (config : Config) (store : Directory) (moment : Moment) (api_key secret : Text)
    (secrets : List Text) (r : KeyRecord)
    → store.get_key_record moment.asked_at (config.hmac secret api_key) ≡ some r
    → resolve_key_id config store moment api_key (secret ∷ secrets)
      ≡ some (config.hmac secret api_key)
unfolding resolve_key_id
resolve-first config store moment api_key secret secrets r h = rw h refl

reissued_lem :
    (x : Keys × Authed) (new_key new_id old_id : Text) (r r' : KeyRecord) (tier : Tier)
    → x.1 ≡ known r tier old_id
    → x.0.rows old_id ≡ some r'
    → view x.0 new_id ≡ absent
    → same new_id old_id ≡ false
    → reissued true new_key new_id x
      ≡ (swapped x.0 new_id old_id r r', rotated new_key r.user_id r.tier)
unfolding reissued unless_taken get_key_record
reissued_lem (s, a) new_key new_id old_id r r' tier accepted row free differ =
    rw (accepted, absent-lookup new_id s (s.rows new_id) (s.hashes new_id) refl free)
      (replaced_lem s new_id old_id r r' new_key row differ)

login_unknown :
    (config : Config) (tiers : ℕ → Text → Option Tier) (moment : Moment) (api_key : Text)
    (client_ip : Option Text) (s : Keys)
    → identify config tiers moment api_key s ≡ none
    → (login config tiers moment api_key client_ip s).1 ≡ refused AuthError.invalid
unfolding login warmed authenticate identified
login_unknown config tiers moment api_key client_ip s h = rw (h, h) refl

-- What lookups find after two changes.
module _ (f : Phases) (new_id old_id : Text) (r : KeyRecord)
    (differ : same new_id old_id ≡ false) where
  abbrev exchanged : Phases
  exchanged = update (update f new_id (stored r)) old_id absent

  found_new : found (exchanged new_id) ≡ some r
  unfolding found
  found_new = rw (same-false_sym new_id old_id differ, same_refl new_id) refl

  found_old :
      (k : Text)
      → (k ≡ old_id) ⊎ ((f k ≡ absent) × (same new_id k ≡ false))
      → found (exchanged k) ≡ none
  unfolding found
  found_old k (inl e) = rw (e, same_refl old_id) refl
  found_old k (inr (a, d)) = elim (Bool-cases (same old_id k)) [
    | inl t ↦ rw t refl
    | inr t ↦ rw (t, d, a) refl
  ]

-- A key that is replaced: the rotation answers with the new key, which has the record that the
-- old one was accepted with; the old key is nowhere, and every other key is as it was. From then on
-- the new key is identified, and the old one is refused at once, if no other secret of the gateway
-- gives it the id of a record. The old key has a row, and the new one was not there.
pub rotate_api_key-replaces :
    (config : Config) (tiers : ℕ → Text → Option Tier) (moment moment' : Moment) (c : ℕ)
    (old_key new_key old_id : Text) (client_ip client_ip' : Option Text) (r r' : KeyRecord)
    (tier : Tier) (s : Keys)
    → (login config tiers moment (c ∷ old_key) client_ip s).1 ≡ known r tier old_id
    → let s1 = (login config tiers moment (c ∷ old_key) client_ip s).0 in
      let new_id = config.hmac config.key_secret new_key in
      s1.rows old_id ≡ some r'
      → view s1 new_id ≡ absent
      → same new_id old_id ≡ false
      → All
          (λ secret.
            let key_id = config.hmac secret (c ∷ old_key) in
            (key_id ≡ old_id) ⊎ ((view s1 key_id ≡ absent) × (same new_id key_id ≡ false)))
          (key_secrets config (directory tiers s1) moment)
      → let (s', reply) =
          rotate_api_key config tiers true moment new_key (some (c ∷ old_key)) client_ip s in
        (reply ≡ rotated new_key r.user_id r.tier)
        × (view s' ≡ update (update (view s1) new_id (stored r)) old_id absent)
        × (identify config tiers moment' new_key s' ≡ some new_id)
        × ((login config tiers moment' (c ∷ old_key) client_ip' s').1 ≡ refused AuthError.invalid)
unfolding rotate_api_key
rotate_api_key-replaces config tiers moment moment' c old_key new_key old_id client_ip client_ip' r
      r' tier s accepted row free differ others =
    let x = login config tiers moment (c ∷ old_key) client_ip s in
    let new_id = config.hmac config.key_secret new_key in
    let v = swapped x.0 new_id old_id r r' in
    let same_view = view-swapped x.0 new_id old_id r r' row differ in
    let identified_new : identify config tiers moment' new_key v ≡ some new_id =
      resolve-first config (directory tiers v) moment' new_key config.key_secret _ r
        (ap (λ f. found (f new_id)) same_view ∙ found_new (view x.0) new_id old_id r differ) in
    let unknown : identify config tiers moment' (c ∷ old_key) v ≡ none =
      resolve_none config (directory tiers v) moment' (c ∷ old_key)
        (key_secrets config (directory tiers v) moment')
        (All-map
          (λ secret o.
            let key_id = config.hmac secret (c ∷ old_key) in
            ap (λ f. found (f key_id)) same_view
            ∙ found_old (view x.0) new_id old_id r differ key_id o)
          (key_secrets config (directory tiers v) moment') others) in
    subst
      (λ (y : Keys × Reply).
        (y.1 ≡ rotated new_key r.user_id r.tier)
        × (view y.0 ≡ update (update (view x.0) new_id (stored r)) old_id absent)
        × (identify config tiers moment' new_key y.0 ≡ some new_id)
        × ((login config tiers moment' (c ∷ old_key) client_ip' y.0).1 ≡ refused AuthError.invalid))
      (sym (reissued_lem x new_key new_id old_id r r' tier accepted row free differ))
      (
        refl,
        same_view,
        identified_new,
        login_unknown config tiers moment' (c ∷ old_key) client_ip' v unknown,
      )
