-- ===== src/Auth/Acceptance.antt =====
-- What a key shows that `authenticate` accepts.
use mathlib.Core.Path.{subst}
use gate_flow.Prelude.{
  ℕ, ◌+◌, ◌≤◌, ◌≡◌, ◌⊎◌, refl, ap, inl, inr, Bool, true, false, ◌&&◌, not, Option, none, some, [],
  arith, if◌then◌else◌, All, Option-cases,
}
use gate_flow.Prelude.Text.{Text, same}
use gate_flow.Cache.{Data, get}
use gate_flow.Models.{KeyRecord, Tier, AuthError}
use gate_flow.Models.{Authed, refused, known}
use gate_flow.Auth.Address.{is_ip_allowed}
use gate_flow.Auth.{
  Directory, Config, Caches, Moment, key_name, is_expired, or_empty, vetted, look_up_tier, load,
  recall, identified, authenticate, resolve_key_id, key_secrets,
}
use gate_flow.Cache.Holding.{get-All, set-All, get-found}
use gate_flow.Auth.Staleness.{
  keeps, IsKeyOf, IsTierOf, IsTrueKey, IsTrue, IsOrdered, later_tier, later_keys, later_tiers,
  look_up_tier-IsTrue, key_name-rest,
}

module _ (config : Config) (store : Directory) (lag : ℕ) where
  -- The limits of a tier pass through both caches.
  abbrev limit : ℕ
  limit = keeps config store lag + keeps config store lag

  module _ (moment : Moment) where
    open moment use {asked_at, read_at, stored_at, clock}

    -- What an accepted key has to show.
    pub record IsVouched (client_ip : Option Text) (r : KeyRecord) (tier : Tier) (key_id : Text)
        : Type 0 where
      pub active : r.active ≡ true
      pub unexpired : is_expired r.expires_at clock ≡ false
      pub address :
          (same r.allowed_ips [] ≡ true)
          ⊎ (is_ip_allowed config.addresses (or_empty client_ip) r.allowed_ips ≡ true)
      pub key : IsKeyOf config store lag stored_at asked_at key_id r
      pub limits : IsTierOf config store lag stored_at asked_at limit r.tier tier

    -- A key is turned away, or vouched for.
    pub data IsGranted (client_ip : Option Text) : Authed → Type 0 where
      denied : (e : AuthError) → IsGranted client_ip (refused e)
      accepted :
          (r : KeyRecord) (tier : Tier) (key_id : Text)
          → IsVouched client_ip r tier key_id
          → IsGranted client_ip (known r tier key_id)

    tests-IsGranted :
        (active expired anywhere allowed : Bool) (client_ip : Option Text) (r : KeyRecord)
        (tier : Tier) (key_id : Text)
        → (active ≡ true
            → expired ≡ false
            → (anywhere ≡ true) ⊎ (allowed ≡ true)
            → IsVouched client_ip r tier key_id)
        → IsGranted client_ip (
            if not active
            then refused AuthError.inactive
            else if expired
            then refused AuthError.expired
            else if not anywhere && not allowed
            then refused AuthError.wrong_address
            else known r tier key_id)
    tests-IsGranted false expired anywhere allowed client_ip r tier key_id h = denied _
    tests-IsGranted true true anywhere allowed client_ip r tier key_id h = denied _
    tests-IsGranted true false true allowed client_ip r tier key_id h =
        accepted r tier key_id (h refl refl (inl refl))
    tests-IsGranted true false false true client_ip r tier key_id h =
        accepted r tier key_id (h refl refl (inr refl))
    tests-IsGranted true false false false client_ip r tier key_id h = denied _

    vetted-IsGranted :
        (client_ip : Option Text) (r : KeyRecord) (tier : Tier) (key_id : Text)
        → IsKeyOf config store lag stored_at asked_at key_id r
        → IsTierOf config store lag stored_at asked_at limit r.tier tier
        → IsGranted client_ip (vetted config store moment client_ip r tier key_id)
    unfolding vetted
    vetted-IsGranted client_ip r tier key_id k t =
        tests-IsGranted _ _ _ _ client_ip r tier key_id
          (λ a x i. record { active = a; unexpired = x; address = i; key = k; limits = t })

    module _ (ordered : IsOrdered config store lag moment) where
      load-IsGranted :
          (now : ℕ) (client_ip : Option Text) (key_id : Text) (c : Caches)
          → now ≤ stored_at
          → IsTrue config store lag now c
          → let (c', out) =
              load config store moment client_ip key_id (store.get_key_record read_at key_id) c in
            IsTrue config store lag stored_at c' × IsGranted client_ip out
      unfolding load
      load-IsGranted now client_ip key_id c h v = loaded (store.get_key_record read_at key_id) refl
        where
          true_keys : All (IsTrueKey config store lag stored_at) c.keys
          true_keys = later_keys config store lag now stored_at c.keys h v.keys

          loaded :
              (o : Option KeyRecord)
              → store.get_key_record read_at key_id ≡ o
              → let (c', out) = load config store moment client_ip key_id o c in
                IsTrue config store lag stored_at c' × IsGranted client_ip out
          loaded none e = (
            record {
              keys = true_keys;
              tiers = later_tiers config store lag now stored_at c.tiers h v.tiers;
            },
            denied AuthError.invalid,
          )
          loaded (some r) e =
              let (true_tiers, t) =
                look_up_tier-IsTrue config store lag moment ordered now r.tier c.tiers h v.tiers in
              let tier = (look_up_tier config store moment r.tier c.tiers).1 in
              let key : (asked : ℕ)
                  → asked ≤ read_at + keeps config store lag
                  → IsKeyOf config store lag stored_at asked key_id r =
                λ asked l. record {
                  had_at = read_at;
                  past = ordered.reads_first;
                  recent = l;
                  there = e;
                } in
              let limits : (asked : ℕ)
                  → asked ≤ read_at + keeps config store lag
                  → IsTierOf config store lag stored_at asked limit r.tier tier =
                λ asked l. record {
                  had_at = t.had_at;
                  past = t.past;
                  recent = omega (arith, l, t.recent);
                  there = t.there;
                } in
              (
                record {
                  keys =
                      set-All (IsTrueKey config store lag stored_at) config.cache stored_at
                        (key_name key_id) (r, tier) c.keys
                        (λ other n. (
                          subst
                              (λ o.
                                IsKeyOf config store lag stored_at (stored_at + config.cache.ttl) o
                                  r)
                              (key_name-rest key_id other n)
                              (key (stored_at + config.cache.ttl) (omega (arith, ordered.soon))),
                          limits (stored_at + config.cache.ttl) (omega (arith, ordered.soon)),
                        ))
                        true_keys;
                  tiers = true_tiers;
                },
                vetted-IsGranted client_ip r tier key_id
                    (key asked_at (omega (arith, ordered.asks_first)))
                    (limits asked_at (omega (arith, ordered.asks_first))),
              )

      recall-IsGranted :
          (now : ℕ) (client_ip : Option Text) (key_id : Text) (c : Caches)
          → now ≤ asked_at
          → IsTrue config store lag now c
          → let (c', out) =
              recall config store moment client_ip key_id c.tiers
                (get asked_at (key_name key_id) c.keys) in
            IsTrue config store lag stored_at c' × IsGranted client_ip out
      unfolding recall
      recall-IsGranted now client_ip key_id c h v =
          recalled (get asked_at (key_name key_id) c.keys) refl
            (get-All (IsTrueKey config store lag now) asked_at (key_name key_id) c.keys v.keys)
        where
          end : now ≤ stored_at
          end = omega (arith, h, ordered.asks_first, ordered.reads_first)

          recalled :
              (x : Data (KeyRecord × Tier) × Option (KeyRecord × Tier))
              → get asked_at (key_name key_id) c.keys ≡ x
              → All (IsTrueKey config store lag now) x.0
              → let (c', out) = recall config store moment client_ip key_id c.tiers x in
                IsTrue config store lag stored_at c' × IsGranted client_ip out
          recalled (keys, none) e a =
              load-IsGranted now client_ip key_id (record { keys = keys; tiers = c.tiers }) end
                (record { keys = a; tiers = v.tiers })
          recalled (keys, some (r, tier)) e a =
              let (entry, same_value, l, t) =
                get-found (IsTrueKey config store lag stored_at) asked_at (key_name key_id)
                  (r, tier) c.keys (ap (λ x. x.1) e)
                  (later_keys config store lag now stored_at c.keys end v.keys) in
              let (k, m) = t key_id refl in
              let key : IsKeyOf config store lag stored_at asked_at key_id r =
                subst (λ w. IsKeyOf config store lag stored_at asked_at key_id w.0) same_value
                  (record {
                    had_at = k.had_at;
                    past = k.past;
                    recent = omega (arith, l, k.recent);
                    there = k.there;
                  }) in
              let limits : IsTierOf config store lag stored_at asked_at limit r.tier tier =
                subst (λ w. IsTierOf config store lag stored_at asked_at limit w.0.tier w.1)
                  same_value
                  (later_tier config store lag stored_at stored_at entry.expires asked_at limit
                    entry.value.0.tier entry.value.1 (omega arith) l m) in
              (
                record {
                  keys = later_keys config store lag now stored_at keys end a;
                  tiers = later_tiers config store lag now stored_at c.tiers end v.tiers;
                },
                vetted-IsGranted client_ip r tier key_id key limits,
              )

      pub authenticate-IsGranted :
          (now : ℕ) (api_key : Text) (client_ip : Option Text) (c : Caches)
          → now ≤ asked_at
          → IsTrue config store lag now c
          → let (c', out) = authenticate config store moment api_key client_ip c in
            IsTrue config store lag stored_at c' × IsGranted client_ip out
      unfolding authenticate identified
      authenticate-IsGranted now api_key client_ip c h v =
          elim (Option-cases
            (resolve_key_id config store moment api_key (key_secrets config store moment))) [
              | inl e ↦ rw e (
                record {
                  keys = later_keys config store lag now stored_at c.keys end v.keys;
                  tiers = later_tiers config store lag now stored_at c.tiers end v.tiers;
                },
                denied AuthError.invalid,
              )
              | inr (key_id, e) ↦ rw (e, identified) (recall-IsGranted now client_ip key_id c h v)
            ]
        where
          end : now ≤ stored_at
          end = omega (arith, h, ordered.asks_first, ordered.reads_first)
