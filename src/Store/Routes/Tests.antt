-- ===== src/Store/Routes/Tests.antt =====
-- A route that one process saves and another one reads, and a route that is put back in between.
use gate_flow.Prelude.{◌≢◌, refl, inr, true, none, some, [], ◌∷◌}
use gate_flow.Prelude.Text.{Text, codes}
use gate_flow.Router.{Route, Routes}
use gate_flow.Store.Routes.{with_value, row_of}
use gate_flow.Store.Routes.Processes.{
  committed, published_next, holds, System, set_process, notify, at_stage, saves, backfills, reads,
  assigns, publishes, hears, settles, Reach, here, next,
}
use gate_flow.Store.Routes.Settled.{IsAware, contents, Agrees, Reach-settled}
use gate_flow.Store.Routes.Finish.{with_value-not_empty}

abbrev route_to : Text → Route
route_to url = record {
  prefix = codes "a";
  target_url = url;
  fallback_url = none;
  strip_prefix = true;
  requires_auth = true;
  allowed_methods = [];
}

abbrev extra : Route
extra = record (route_to (codes "w")) { prefix = codes "b" }

abbrev start : System
start = record {
  rows = (codes "a", route_to (codes "u")) ∷ [];
  backfilled = [];
  changes = [];
  processes =
      λ k. record { cache = (codes "a", route_to (codes "u")) ∷ []; mail = 0; reading = none };
}

start-IsAware : IsAware start
start-IsAware = inr (λ j. inr (inr (refl, λ p g. refl)))

abbrev moved : Route
moved = route_to (codes "v")

abbrev rows : Routes
rows = with_value moved.prefix (row_of moved) start.rows

abbrev saved : System
saved = record start { rows = rows; backfilled = []; changes = at_stage 0 committed ∷ [] }

abbrev read : System
read = record saved { changes = at_stage 0 (holds rows) ∷ [] }

abbrev assigned : System
assigned = record read {
  changes = at_stage 0 published_next ∷ [];
  processes = set_process 0 (record (read.processes 0) { cache = rows }) read.processes;
}

abbrev published : System
published = record assigned { changes = []; processes = notify assigned.processes }

abbrev heard : System
heard = record published {
  processes =
      set_process 1 (record (published.processes 1) { mail = 0; reading = some rows })
        published.processes;
}

-- A route of Redis is put back behind the listener's read.
abbrev put_back : System
put_back = record heard {
  rows = with_value extra.prefix (row_of extra) rows;
  backfilled = extra.prefix ∷ [];
}

abbrev settled : System
settled = record put_back {
  processes =
      set_process 1 (record (put_back.processes 1) { cache = rows; reading = none })
        put_back.processes;
}

some_rows : rows ≢ []
some_rows = with_value-not_empty moved.prefix (row_of moved) start.rows

abbrev steps : Reach start published
steps =
    next
      (next (next (next here (saves start 0 moved)) (reads saved 0 [] [] some_rows refl))
        (assigns read 0 rows [] [] refl))
      (publishes assigned 0 [] [] refl)

abbrev more_steps : Reach start settled
more_steps =
    next (next (next steps (hears published 1 0 some_rows refl refl)) (backfills heard extra))
      (settles put_back 1 rows refl)

Reach-settled_example : Agrees (contents settled) (settled.processes 1).cache
Reach-settled_example = Reach-settled start settled 1 start-IsAware more_steps refl refl refl
