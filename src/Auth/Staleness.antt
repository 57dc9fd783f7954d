-- ===== src/Auth/Staleness.antt =====
-- How old the entries of the caches of keys and tiers may be.
use mathlib.Core.Path.{subst}
use gate_flow.Prelude.{ℕ, ◌+◌, ◌≤◌, ◌≡◌, refl, ap, Option, none, some, arith, drop, All, All-map}
use gate_flow.Prelude.Text.{Text}
use gate_flow.Cache.{Entry, Data, get}
use gate_flow.Models.{KeyRecord, Tier}
use gate_flow.Auth.{
  Directory, Config, Caches, Moment, key_name, tier_name, or_default, keep_tier, look_up_tier,
}
use gate_flow.Cache.Holding.{get-All, set-All, get-found}

-- The name of a key or a tier behind "key:" or "tier:".
pub key_name-rest : (a b : Text) → key_name a ≡ key_name b → a ≡ b
key_name-rest a b e = ap (drop 4) e

pub tier_name-rest : (a b : Text) → tier_name a ≡ tier_name b → a ≡ b
tier_name-rest a b e = ap (drop 5) e

module _ (config : Config) (store : Directory) (lag : ℕ) where
  -- How long after the store was read the caches may still have what it answered.
  abbrev pub keeps : ℕ
  keeps = config.cache.ttl + lag

  abbrev pub tier_at : ℕ → Text → Tier
  tier_at t name = or_default config.default_tier (store.get_tier_config t name)

  -- The store had the record of the key, up to `now`, and not longer ago than the limit from
  -- `asked`.
  pub record IsKeyOf (now asked : ℕ) (key_id : Text) (r : KeyRecord) : Type 0 where
    pub had_at : ℕ
    pub past : had_at ≤ now
    pub recent : asked ≤ had_at + keeps
    pub there : store.get_key_record had_at key_id ≡ some r

  -- The same of the limits of a tier, for a limit of its own.
  pub record IsTierOf (now asked limit : ℕ) (name : Text) (tier : Tier) : Type 0 where
    pub had_at : ℕ
    pub past : had_at ≤ now
    pub recent : asked ≤ had_at + limit
    pub there : tier_at had_at name ≡ tier

  abbrev pub IsTrueTier : ℕ → Text × Entry Tier → Type 0
  IsTrueTier now (k, e) =
      (name : Text) → k ≡ tier_name name → IsTierOf now e.expires keeps name e.value

  abbrev pub IsTrueKey : ℕ → Text × Entry (KeyRecord × Tier) → Type 0
  IsTrueKey now (k, e) =
      (key_id : Text)
      → k ≡ key_name key_id
      → IsKeyOf now e.expires key_id e.value.0
        × IsTierOf now e.expires (keeps + keeps) e.value.0.tier e.value.1

  -- Every entry was in the store when it was set, or as much as `lag` before.
  pub record IsTrue (now : ℕ) (c : Caches) : Type 0 where
    pub keys : All (IsTrueKey now) c.keys
    pub tiers : All (IsTrueTier now) c.tiers

  pub later_key :
      (now end asked : ℕ) (key_id : Text) (r : KeyRecord)
      → now ≤ end
      → IsKeyOf now asked key_id r
      → IsKeyOf end asked key_id r
  later_key now end asked key_id r h v = record {
    had_at = v.had_at;
    past = omega (arith, h, v.past);
    recent = v.recent;
    there = v.there;
  }

  pub later_tier :
      (now end asked sooner limit : ℕ) (name : Text) (tier : Tier)
      → now ≤ end
      → sooner ≤ asked
      → IsTierOf now asked limit name tier
      → IsTierOf end sooner limit name tier
  later_tier now end asked sooner limit name tier h l v = record {
    had_at = v.had_at;
    past = omega (arith, h, v.past);
    recent = omega (arith, l, v.recent);
    there = v.there;
  }

  pub later_keys :
      (now end : ℕ) (d : Data (KeyRecord × Tier))
      → now ≤ end
      → All (IsTrueKey now) d
      → All (IsTrueKey end) d
  later_keys now end d h =
      All-map
        (λ e v key_id n. (
          later_key now end e.1.expires key_id e.1.value.0 h (v key_id n).0,
          later_tier now end e.1.expires e.1.expires (keeps + keeps) e.1.value.0.tier e.1.value.1 h
              (omega arith) (v key_id n).1,
        ))
        d

  pub later_tiers :
      (now end : ℕ) (d : Data Tier) → now ≤ end → All (IsTrueTier now) d → All (IsTrueTier end) d
  later_tiers now end d h =
      All-map
        (λ e v name n.
          later_tier now end e.1.expires e.1.expires keeps name e.1.value h (omega arith)
            (v name n))
        d

  -- The order of the times of a call, with a bound on the time between reading and setting.
  pub record IsOrdered (moment : Moment) : Type 0 where
    pub asks_first : moment.asked_at ≤ moment.read_at
    pub reads_first : moment.read_at ≤ moment.stored_at
    pub soon : moment.stored_at ≤ moment.read_at + lag

  module _ (moment : Moment) (ordered : IsOrdered moment) where
    open moment use {asked_at, read_at, stored_at, clock}

    pub look_up_tier-IsTrue :
        (now : ℕ) (name : Text) (d : Data Tier)
        → now ≤ stored_at
        → All (IsTrueTier now) d
        → let (d', tier) = look_up_tier config store moment name d in
          All (IsTrueTier stored_at) d' × IsTierOf stored_at read_at keeps name tier
    unfolding look_up_tier keep_tier
    look_up_tier-IsTrue now name d h v =
        looked (get read_at (tier_name name) d) refl
          (get-All (IsTrueTier stored_at) read_at (tier_name name) d true_then)
      where
        true_then : All (IsTrueTier stored_at) d
        true_then = later_tiers now stored_at d h v

        looked :
            (x : Data Tier × Option Tier)
            → get read_at (tier_name name) d ≡ x
            → All (IsTrueTier stored_at) x.0
            → let (d', tier) = keep_tier config store moment name x in
              All (IsTrueTier stored_at) d' × IsTierOf stored_at read_at keeps name tier
        looked (d', some tier) e a =
            let (entry, same_value, l, t) =
              get-found (IsTrueTier stored_at) read_at (tier_name name) tier d (ap (λ x. x.1) e)
                true_then in
            (
              a,
              subst (IsTierOf stored_at read_at keeps name) same_value (
                  later_tier stored_at stored_at entry.expires read_at keeps name entry.value
                    (omega arith) l (t name refl)),
            )
        looked (d', none) e a =
            let fresh : (limit : ℕ)
                → IsTierOf stored_at (read_at + limit) limit name (tier_at read_at name) =
              λ limit. record {
                had_at = read_at;
                past = ordered.reads_first;
                recent = omega arith;
                there = refl;
              } in
            (
              set-All (IsTrueTier stored_at) config.cache stored_at (tier_name name)
                  (tier_at read_at name) d'
                  (λ other n.
                    subst
                      (λ o.
                        IsTierOf stored_at (stored_at + config.cache.ttl) keeps o
                          (tier_at read_at name))
                      (tier_name-rest name other n)
                      (later_tier stored_at stored_at (read_at + keeps)
                        (stored_at + config.cache.ttl) keeps name (tier_at read_at name)
                        (omega arith) (omega (arith, ordered.soon)) (fresh keeps)))
                  a,
              later_tier stored_at stored_at (read_at + keeps) read_at keeps name
                  (tier_at read_at name) (omega arith) (omega arith) (fresh keeps),
            )
