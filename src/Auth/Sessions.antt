-- ===== src/Auth/Sessions.antt =====
-- Calls of `authenticate` one after another, with calls of invalidate_key and invalidate_tier of
-- gateflow/cache.py between them, from empty caches.
use gate_flow.Prelude.{ℕ, ◌+◌, ◌≤◌, Option, List, [], ◌∷◌, arith, All}
use gate_flow.Prelude.Text.{Text}
use gate_flow.Cache.{delete}
use gate_flow.Cache.Entries.{All-remove}
use gate_flow.Auth.{
  Directory, Config, Caches, Moment, key_name, tier_name, authenticate, invalidate_key,
  invalidate_tier,
}
use gate_flow.Auth.Staleness.{IsTrue, IsTrueKey, IsTrueTier, IsOrdered}
use gate_flow.Auth.Identity.{IsIdentified, authenticate-IsIdentified}
use gate_flow.Auth.Acceptance.{IsGranted, authenticate-IsGranted}

-- A call with the ticks before it, up to the reads of the store, and from there to its end.
pub record Login : Type 0 where
  pub wait : ℕ
  pub reading : ℕ
  pub storing : ℕ
  pub clock : ℕ
  pub api_key : Text
  pub client_ip : Option Text

pub data Op : Type 0 where
  login : Login → Op
  forget_key forget_tier : Text → Op

abbrev pub moment_of : ℕ → Login → Moment
moment_of now l = record {
  asked_at = now + l.wait;
  read_at = now + l.wait + l.reading;
  stored_at = now + l.wait + l.reading + l.storing;
  clock = l.clock;
}

abbrev pub empty : Caches
empty = record { keys = []; tiers = [] }

-- No call takes longer than `lag` from its reads of the store to its end.
abbrev pub IsPrompt : ℕ → Op → Type 0
IsPrompt lag (login l) = l.storing ≤ lag
IsPrompt lag _ = Unit

module _ (config : Config) (store : Directory) where
  -- The time at the end, and the caches.
  unfoldable pub run : ℕ → List Op → Caches → ℕ × Caches
  run now [] c = (now, c)
  run now (login l ∷ ops) c =
      let moment = moment_of now l in
      run moment.stored_at ops (authenticate config store moment l.api_key l.client_ip c).0
  run now (forget_key key_id ∷ ops) c = run now ops (invalidate_key key_id c)
  run now (forget_tier name ∷ ops) c = run now ops (invalidate_tier name c)

  module _ (lag : ℕ) where
    moment_of-IsOrdered :
        (now : ℕ) (l : Login) → l.storing ≤ lag → IsOrdered config store lag (moment_of now l)
    moment_of-IsOrdered now l h = record {
      asks_first = omega arith;
      reads_first = omega arith;
      soon = omega (arith, h);
    }

    run-IsTrue :
        (now : ℕ) (ops : List Op) (c : Caches)
        → All (IsPrompt lag) ops
        → IsTrue config store lag now c
        → let (end, c') = run now ops c in IsTrue config store lag end c'
    unfolding run invalidate_key invalidate_tier delete
    run-IsTrue now [] c p v = v
    run-IsTrue now (login l ∷ ops) c p v =
        let moment = moment_of now l in
        run-IsTrue moment.stored_at ops _ p.1
          (authenticate-IsGranted config store lag moment (moment_of-IsOrdered now l p.0) now
            l.api_key l.client_ip c (omega arith) v).0
    run-IsTrue now (forget_key key_id ∷ ops) c p v = run-IsTrue now ops _ p.1 (record {
      keys = All-remove (IsTrueKey config store lag now) (key_name key_id) c.keys v.keys;
      tiers = v.tiers;
    })
    run-IsTrue now (forget_tier name ∷ ops) c p v = run-IsTrue now ops _ p.1 (record {
      keys = v.keys;
      tiers = All-remove (IsTrueTier config store lag now) (tier_name name) c.tiers v.tiers;
    })

    -- After any calls, a key is accepted only under the hash that one of the secrets gives it and
    -- under which the store has a record, and only if the store had the record of that hash as it is
    -- used, at most the time to live of the caches and `lag` before, the limits of its tier at
    -- most twice as long before, and if the record is active, has not expired and allows the
    -- address. The calls follow one another, and each takes at most `lag` from its reads of the
    -- store to its end.
    pub run-IsGranted :
        (ops : List Op) (l : Login)
        → All (IsPrompt lag) ops
        → l.storing ≤ lag
        → let (now, c) = run 0 ops empty in
          let moment = moment_of now l in
          let out = (authenticate config store moment l.api_key l.client_ip c).1 in
          IsGranted config store lag moment l.client_ip out
          × IsIdentified config store moment l.api_key out
    run-IsGranted ops l p prompt =
        let (now, c) = run 0 ops empty in
        (
          (authenticate-IsGranted config store lag (moment_of now l)
              (moment_of-IsOrdered now l prompt) now l.api_key l.client_ip c (omega arith)
              (run-IsTrue 0 ops empty p (record { keys = tt; tiers = tt }))).1,
          authenticate-IsIdentified config store (moment_of now l) l.api_key l.client_ip c,
        )
