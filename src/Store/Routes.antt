-- ===== src/Store/Routes.antt =====
-- The routes of gateflow/store.py: rows of the database, the hash of Redis with a record per prefix, and
-- the route cache of one process, which gateflow/redis_client.py reloads. The database answers;
-- Redis is within reach for the whole of a call or not at all.
mod Tests
pub mod Entries
pub mod Current
pub mod Processes
pub mod Settled
pub mod Finish
use gate_flow.Prelude.{Bool, true, false, Option, none, some, List, [], ◌∷◌, if◌then◌else◌}
use gate_flow.Prelude.Text.{Text, same}
use gate_flow.Router.{Route, Routes}
use gate_flow.Router.Records.{RouteData, sorted_methods, to_json, from_json}
use gate_flow.Store.Keys.{Outcome, returned, raised}

pub record RouteStore : Type 0 where
  pub rows : Routes
  pub hash : List (Text × RouteData)
  pub cache : Routes

module _ {ℓ} {A : Type ℓ} where
  unfoldable pub value_at : Text → List (Text × A) → Option A
  value_at p [] = none
  value_at p ((q, a) ∷ entries) = let rest = value_at p entries in if same q p then some a else rest

  -- A new one stands last.
  unfoldable pub with_value : Text → A → List (Text × A) → List (Text × A)
  with_value p a [] = (p, a) ∷ []
  with_value p a ((q, b) ∷ entries) =
      let rest = with_value p a entries in if same q p then (q, a) ∷ entries else (q, b) ∷ rest

  unfoldable pub without_value : Text → List (Text × A) → List (Text × A)
  without_value p [] = []
  without_value p ((q, b) ∷ entries) =
      let rest = without_value p entries in if same q p then rest else (q, b) ∷ rest

-- _row_from_route and _to_route: the methods of a row are sorted.
abbrev pub row_of : Route → Route
row_of r = record r { allowed_methods = sorted_methods r.allowed_methods }

-- Entries that cannot be read are left out.
unfoldable pub add_read : Text → Option Route → Routes → Routes
add_read p none routes = routes
add_read p (some r) routes = (p, r) ∷ routes

unfoldable pub read_hash : List (Text × RouteData) → Routes
read_hash [] = []
read_hash ((p, value) ∷ hash) = add_read p (from_json p value) (read_hash hash)

-- save_route with `skip_redis_publish`, while Redis is within reach.
unfoldable pub save_quietly : Route → RouteStore → RouteStore
save_quietly r s = record s {
  rows = with_value r.prefix (row_of r) s.rows;
  hash = with_value r.prefix (to_json r) s.hash;
}

unfoldable pub save_all : Routes → RouteStore → RouteStore
save_all [] s = s
save_all ((p, r) ∷ routes) s = save_all routes (save_quietly r s)

module _ (online : Bool) where
  -- What list_routes does without a row.
  unfoldable pub list_from_hash : Routes → RouteStore → RouteStore × Routes
  list_from_hash routes s = if online then (save_all routes s, routes) else (s, [])

  unfoldable pub list_rows : Routes → RouteStore → RouteStore × Routes
  list_rows [] s = list_from_hash (read_hash s.hash) s
  list_rows (e ∷ rows) s = (s, e ∷ rows)

  unfoldable pub list_routes : RouteStore → RouteStore × Routes
  list_routes s = list_rows s.rows s

  -- _refresh_routes
  unfoldable pub refresh_routes : RouteStore → RouteStore
  refresh_routes s = let (s', routes) = list_routes s in record s' { cache = routes }

  unfoldable pub save_route : Route → RouteStore → RouteStore × Outcome (Unit {0})
  save_route r s =
      if online
      then (refresh_routes (save_quietly r s), returned tt)
      else (record s { rows = with_value r.prefix (row_of r) s.rows }, raised)

  -- What get_route does with a record of Redis.
  unfoldable pub backfill_route : Option Route → RouteStore → RouteStore × Option Route
  backfill_route none s = (s, none)
  backfill_route (some r) s = (save_quietly r s, some r)

  unfoldable pub look_in_hash : Text → Option RouteData → RouteStore → RouteStore × Option Route
  look_in_hash p none s = (s, none)
  look_in_hash p (some value) s = if online then backfill_route (from_json p value) s else (s, none)

  unfoldable pub look_up_route : Text → Option Route → RouteStore → RouteStore × Option Route
  look_up_route p (some r) s = (s, some r)
  look_up_route p none s = look_in_hash p (value_at p s.hash) s

  unfoldable pub get_route : Text → RouteStore → RouteStore × Option Route
  get_route p s = look_up_route p (value_at p s.rows) s

  abbrev pub is_there : Option Route → Bool
  is_there none = false
  is_there (some r) = true

  unfoldable pub delete_route : Text → RouteStore → RouteStore × Outcome Bool
  delete_route p s =
      let s' = record s { rows = without_value p s.rows } in
      if online
      then (
        refresh_routes (record s' { hash = without_value p s.hash }),
        returned (is_there (value_at p s.rows)),
      )
      else (s', raised)
