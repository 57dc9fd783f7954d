-- ===== src/Cache.antt =====
-- TTLCache of gateflow/cache.py. The lock makes each operation one step, so a run is a sequence of
-- operations. `_data`, the OrderedDict, is a list with its first entry first: keys, each with its
-- value and the time at which it expires. Times count ticks of time.monotonic(), which never goes
-- back, and the time to live counts the same ticks.
mod Tests
pub mod Entries
pub mod Bounds
pub mod Kept
pub mod Holding
pub mod Distinct
pub mod Reads
pub mod Recency
use gate_flow.Prelude.{
  ℕ, ◌+◌, Bool, true, false, Option, none, some, List, [], ◌∷◌, ◌++◌, ltb, if◌then◌else◌, length,
}
use gate_flow.Prelude.Text.{Text, same}

pub record Entry {ℓ} (A : Type ℓ) : Type ℓ where
  pub value : A
  pub expires : ℕ

abbrev pub Data {ℓ} : Type ℓ → Type ℓ
Data A = List (Text × Entry A)

pub record Settings : Type 0 where
  pub ttl : ℕ
  pub maxsize : ℕ

module _ {ℓ} {A : Type ℓ} where
  -- `_data.get(key)`
  unfoldable pub find : Text → Data A → Option (Entry A)
  find k [] = none
  find k ((j, e) ∷ d) = if same j k then some e else find k d

  -- `_data.pop(key, None)`
  unfoldable pub remove : Text → Data A → Data A
  remove k [] = []
  remove k ((j, e) ∷ d) = let rest = remove k d in if same j k then d else (j, e) ∷ rest

  -- `_data[key] = entry`, which leaves a key that is there in its place.
  unfoldable pub assign : Text → Entry A → Data A → Data A
  assign k e [] = (k, e) ∷ []
  assign k e ((j, f) ∷ d) =
      let rest = assign k e d in if same j k then (j, e) ∷ d else (j, f) ∷ rest

  abbrev pub at_end : Text → Option (Entry A) → Data A → Data A
  at_end k none d = d
  at_end k (some e) d = remove k d ++ (k, e) ∷ []

  -- `_data.move_to_end(key)`
  unfoldable pub move_to_end : Text → Data A → Data A
  move_to_end k d = at_end k (find k d) d

  -- `get`, on the entry that the dictionary has for the key.
  unfoldable pub get_entry : ℕ → Text → Option (Entry A) → Data A → Data A × Option A
  get_entry now k none d = (d, none)
  get_entry now k (some e) d =
      if ltb e.expires now then (remove k d, none) else (move_to_end k d, some e.value)

  unfoldable pub get : ℕ → Text → Data A → Data A × Option A
  get now k d = get_entry now k (find k d) d

  -- `while len(self._data) > self.maxsize: self._data.popitem(last=False)`
  unfoldable pub evict : ℕ → Data A → Data A
  evict maxsize [] = []
  evict maxsize (e ∷ d) =
      let rest = evict maxsize d in if ltb maxsize (length (e ∷ d)) then rest else e ∷ d

  unfoldable pub set : Settings → ℕ → Text → A → Data A → Data A
  set s now k v d =
      evict s.maxsize (move_to_end k (assign k (record { value = v; expires = now + s.ttl }) d))

  unfoldable pub delete : Text → Data A → Data A
  delete k d = remove k d

  unfoldable pub clear : Data A → Data A
  clear d = []

-- A call of one of the four methods.
pub data Op {ℓ} (A : Type ℓ) : Type ℓ where
  get_op : Text → Op A
  set_op : Text → A → Op A
  delete_op : Text → Op A
  clear_op : Op A

module _ {ℓ} {A : Type ℓ} (s : Settings) where
  unfoldable pub apply : ℕ → Op A → Data A → Data A
  apply now (get_op k) d = (get now k d).0
  apply now (set_op k v) d = set s now k v d
  apply now (delete_op k) d = delete k d
  apply now clear_op d = clear d

  -- Calls in the order of their times, each with the ticks since the last one, from the time `now`.
  unfoldable pub run : ℕ → List (ℕ × Op A) → Data A → Data A
  run now [] d = d
  run now ((wait, op) ∷ ops) d = run (now + wait) ops (apply (now + wait) op d)
