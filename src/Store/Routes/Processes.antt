-- ===== src/Store/Routes/Processes.antt =====
-- The route caches of several processes, and the channel on which a change of routes is published:
-- save_route and delete_route of gateflow/store.py, from their commit on, and the commit by which
-- get_route puts a route of Redis back; reload_routes and _route_reload_listener of
-- gateflow/redis_client.py. Every await is a point where others may go on: HSET and HDEL, which touch
-- neither rows nor caches, lie between a commit and the read of the rows. A call that deletes the last
-- row is left out, so that list_routes returns the rows; listeners keep their connection, and calls of
-- Redis answer.
use gate_flow.Prelude.{
  ℕ, suc, ◌≡◌, ◌≢◌, Option, none, some, List, [], ◌∷◌, ◌++◌, ◌==◌, if◌then◌else◌,
}
use gate_flow.Prelude.Text.{Text}
use gate_flow.Router.{Route, Routes}
use gate_flow.Store.Routes.{with_value, without_value, row_of}

-- A call that has changed the rows: before it reads them for its own cache, with what it has read,
-- and before it publishes.
pub data Stage : Type 0 where
  committed published_next : Stage
  holds : Routes → Stage

-- A call, by the process in which it runs.
pub record Change : Type 0 where
  pub process : ℕ
  pub stage : Stage

-- The messages that the listener has not read, and what it has read from the database for the last.
pub record Process : Type 0 where
  pub cache : Routes
  pub mail : ℕ
  pub reading : Option Routes

-- `backfilled` has the prefixes that were put back since the last commit of a save or a delete.
pub record System : Type 0 where
  pub rows : Routes
  pub backfilled : List Text
  pub changes : List Change
  pub processes : ℕ → Process

abbrev pub set_process : ℕ → Process → (ℕ → Process) → ℕ → Process
set_process j p processes k = if j == k then p else processes k

-- A message to every listener.
abbrev pub notify : (ℕ → Process) → ℕ → Process
notify processes k = record (processes k) { mail = suc (processes k).mail }

abbrev pub at_stage : ℕ → Stage → Change
at_stage j stage = record { process = j; stage = stage }

pub data Step : System → System → Type 0 where
  -- The commit of save_route.
  saves :
      (s : System) (j : ℕ) (r : Route)
      → Step s (record s {
        rows = with_value r.prefix (row_of r) s.rows;
        backfilled = [];
        changes = at_stage j committed ∷ s.changes;
      })
  -- The commit of delete_route.
  deletes :
      (s : System) (j : ℕ) (p : Text)
      → without_value p s.rows ≢ []
      → Step s (record s {
        rows = without_value p s.rows;
        backfilled = [];
        changes = at_stage j committed ∷ s.changes;
      })
  -- The commit of `save_route(route, skip_redis_publish=True)` in get_route, after which nothing is
  -- read and nothing published.
  backfills :
      (s : System) (r : Route)
      → Step s (record s {
        rows = with_value r.prefix (row_of r) s.rows;
        backfilled = r.prefix ∷ s.backfilled;
      })
  -- `routes = await list_routes()` in the call.
  reads :
      (s : System) (j : ℕ) (before later : List Change)
      → s.rows ≢ []
      → s.changes ≡ before ++ at_stage j committed ∷ later
      → Step s (record s { changes = before ++ at_stage j (holds s.rows) ∷ later })
  -- `cls._route_cache = routes` in the call.
  assigns :
      (s : System) (j : ℕ) (routes : Routes) (before later : List Change)
      → s.changes ≡ before ++ at_stage j (holds routes) ∷ later
      → Step s (record s {
        changes = before ++ at_stage j published_next ∷ later;
        processes = set_process j (record (s.processes j) { cache = routes }) s.processes;
      })
  -- `client.publish`, with which the call ends.
  publishes :
      (s : System) (j : ℕ) (before later : List Change)
      → s.changes ≡ before ++ at_stage j published_next ∷ later
      → Step s (record s { changes = before ++ later; processes = notify s.processes })
  -- A listener takes a message, and reads the rows.
  hears :
      (s : System) (j n : ℕ)
      → s.rows ≢ []
      → (s.processes j).mail ≡ suc n
      → (s.processes j).reading ≡ none
      → Step s (record s {
        processes =
            set_process j (record (s.processes j) { mail = n; reading = some s.rows }) s.processes;
      })
  -- It sets the cache.
  settles :
      (s : System) (j : ℕ) (routes : Routes)
      → (s.processes j).reading ≡ some routes
      → Step s (record s {
        processes =
            set_process j (record (s.processes j) { cache = routes; reading = none }) s.processes;
      })

-- The states after any steps.
pub data Reach (s : System) : System → Type 0 where
  here : Reach s s
  next : {t u : System} → Reach s t → Step t u → Reach s u
