-- ===== src/Auth/Contents.antt =====
-- What a call of `authenticate` leaves in the cache of keys, and which record it accepts a key with.
use mathlib.Core.Path.{subst}
use gate_flow.Prelude.{
  ◌≡◌, refl, ap, inl, inr, Bool, true, false, ◌&&◌, not, Option, none, some, if◌then◌else◌, All,
  Option-cases, drop,
}
use gate_flow.Prelude.Text.{Text}
use gate_flow.Cache.{Entry, Data, get}
use gate_flow.Cache.Entries.{HasDistinctKeys}
use gate_flow.Cache.Holding.{get-All, set-All, get-found}
use gate_flow.Cache.Distinct.{get-HasDistinctKeys, set-HasDistinctKeys}
use gate_flow.Models.{KeyRecord, Tier, AuthError, Authed, refused, known}
use gate_flow.Auth.{
  Directory, Config, Caches, Moment, key_name, key_secrets, resolve_key_id, vetted, look_up_tier,
  load, recall, identified, authenticate,
}

abbrev pub KeyEntry : Type 0
KeyEntry = Entry (KeyRecord × Tier)

-- A predicate on the records that the cache has for key ids.
abbrev pub IsListed : (Text → KeyRecord → Type 0) → Text × KeyEntry → Type 0
IsListed Q (k, e) = (key_id : Text) → k ≡ key_name key_id → Q key_id e.value.0

pub record IsKept (Q : Text → KeyRecord → Type 0) (d : Data (KeyRecord × Tier)) : Type 0 where
  pub distinct : HasDistinctKeys d
  pub listed : All (IsListed Q) d

-- A key is accepted only with such a record.
abbrev pub IsBacked : (Text → KeyRecord → Type 0) → Authed → Type 0
IsBacked Q out =
    (r : KeyRecord) (tier : Tier) (key_id : Text) → out ≡ known r tier key_id → Q key_id r

module _ (Q : Text → KeyRecord → Type 0) where
  pub refused-IsBacked : (e : AuthError) → IsBacked Q (refused e)
  refused-IsBacked e r tier key_id h = cc

  known-IsBacked :
      (r : KeyRecord) (tier : Tier) (key_id : Text) → Q key_id r → IsBacked Q (known r tier key_id)
  known-IsBacked r tier key_id q r' tier' key_id' h =
      subst (λ k. Q k r') (ap id_of h) (subst (λ v. Q key_id v) (ap record_of h) q)
    where
      id_of : Authed → Text
      id_of (refused e) = key_id
      id_of (known u t k) = k

      record_of : Authed → KeyRecord
      record_of (refused e) = r
      record_of (known u t k) = u

  tests-IsBacked :
      (active expired anywhere allowed : Bool) (r : KeyRecord) (tier : Tier) (key_id : Text)
      → Q key_id r
      → IsBacked Q (
          if not active
          then refused AuthError.inactive
          else if expired
          then refused AuthError.expired
          else if not anywhere && not allowed
          then refused AuthError.wrong_address
          else known r tier key_id)
  tests-IsBacked false expired anywhere allowed r tier key_id q =
      refused-IsBacked AuthError.inactive
  tests-IsBacked true true anywhere allowed r tier key_id q = refused-IsBacked AuthError.expired
  tests-IsBacked true false true allowed r tier key_id q = known-IsBacked r tier key_id q
  tests-IsBacked true false false true r tier key_id q = known-IsBacked r tier key_id q
  tests-IsBacked true false false false r tier key_id q = refused-IsBacked AuthError.wrong_address

  module _ (config : Config) (store : Directory) (moment : Moment) where
    open moment use {asked_at, read_at, stored_at, clock}

    vetted-IsBacked :
        (client_ip : Option Text) (r : KeyRecord) (tier : Tier) (key_id : Text)
        → Q key_id r
        → IsBacked Q (vetted config store moment client_ip r tier key_id)
    unfolding vetted
    vetted-IsBacked client_ip r tier key_id q = tests-IsBacked _ _ _ _ r tier key_id q

    load-IsKept :
        (client_ip : Option Text) (key_id : Text) (o : Option KeyRecord) (c : Caches)
        → ((r : KeyRecord) → o ≡ some r → Q key_id r)
        → IsKept Q c.keys
        → let (c', out) = load config store moment client_ip key_id o c in
          IsKept Q c'.keys × IsBacked Q out
    unfolding load
    load-IsKept client_ip key_id none c q h = (h, refused-IsBacked AuthError.invalid)
    load-IsKept client_ip key_id (some r) c q h =
        let tier = (look_up_tier config store moment r.tier c.tiers).1 in
        (
          record {
            distinct =
                set-HasDistinctKeys config.cache stored_at (key_name key_id) (r, tier) c.keys
                  h.distinct;
            listed =
                set-All (IsListed Q) config.cache stored_at (key_name key_id) (r, tier) c.keys
                  (λ other n. subst (λ k. Q k r) (ap (drop 4) n) (q r refl)) h.listed;
          },
          vetted-IsBacked client_ip r tier key_id (q r refl),
        )

    recall-IsKept :
        (client_ip : Option Text) (key_id : Text) (c : Caches)
        → ((r : KeyRecord) → store.get_key_record read_at key_id ≡ some r → Q key_id r)
        → IsKept Q c.keys
        → let (c', out) =
            recall config store moment client_ip key_id c.tiers
              (get asked_at (key_name key_id) c.keys) in
          IsKept Q c'.keys × IsBacked Q out
    unfolding recall
    recall-IsKept client_ip key_id c q h =
        recalled (get asked_at (key_name key_id) c.keys) refl (record {
          distinct = get-HasDistinctKeys asked_at (key_name key_id) c.keys h.distinct;
          listed = get-All (IsListed Q) asked_at (key_name key_id) c.keys h.listed;
        })
      where
        recalled :
            (x : Data (KeyRecord × Tier) × Option (KeyRecord × Tier))
            → get asked_at (key_name key_id) c.keys ≡ x
            → IsKept Q x.0
            → let (c', out) = recall config store moment client_ip key_id c.tiers x in
              IsKept Q c'.keys × IsBacked Q out
        recalled (keys, none) e k =
            load-IsKept client_ip key_id (store.get_key_record read_at key_id)
              (record { keys = keys; tiers = c.tiers }) q k
        recalled (keys, some (r, tier)) e k =
            let (entry, same_value, l, t) =
              get-found (IsListed Q) asked_at (key_name key_id) (r, tier) c.keys (ap (λ x. x.1) e)
                h.listed in
            (
              k,
              vetted-IsBacked client_ip r tier key_id
                  (subst (λ v. Q key_id v.0) same_value (t key_id refl)),
            )

    pub authenticate-IsKept :
        (api_key : Text) (client_ip : Option Text) (c : Caches)
        → ((key_id : Text) (r : KeyRecord)
            → resolve_key_id config store moment api_key (key_secrets config store moment)
              ≡ some key_id
            → store.get_key_record read_at key_id ≡ some r
            → Q key_id r)
        → IsKept Q c.keys
        → let (c', out) = authenticate config store moment api_key client_ip c in
          IsKept Q c'.keys × IsBacked Q out
    unfolding authenticate identified
    authenticate-IsKept api_key client_ip c q h =
        elim (Option-cases
          (resolve_key_id config store moment api_key (key_secrets config store moment))) [
            | inl e ↦ rw e (h, refused-IsBacked AuthError.invalid)
            | inr (key_id, e) ↦
                rw (e, identified)
                  (recall-IsKept client_ip key_id c (λ r there. q key_id r e there) h)
          ]

    -- A key is accepted under the id that resolve_key_id found for it, in the store or in the cache.
    pub recall-id :
        (client_ip : Option Text) (key_id : Text) (tiers : Data Tier)
        (x : Data (KeyRecord × Tier) × Option (KeyRecord × Tier))
        → ((r : KeyRecord) → Q key_id r)
        → IsBacked Q (recall config store moment client_ip key_id tiers x).1
    unfolding recall
    recall-id client_ip key_id tiers (keys, some (r, tier)) q =
        vetted-IsBacked client_ip r tier key_id (q r)
    recall-id client_ip key_id tiers (keys, none) q =
        of_record (store.get_key_record read_at key_id)
      where
        of_record :
            (o : Option KeyRecord)
            → IsBacked Q
                (load config store moment client_ip key_id o
                  (record { keys = keys; tiers = tiers })).1
        of_record none = unfold load in refused-IsBacked AuthError.invalid
        of_record (some r) = unfold load in vetted-IsBacked client_ip r _ key_id (q r)
