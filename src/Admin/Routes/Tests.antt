-- ===== src/Admin/Routes/Tests.antt =====
-- Requests for routes, and their theorems at concrete inputs.
use gate_flow.Prelude.{◌≡◌, refl, true, false, none, some, List, [], ◌∷◌}
use gate_flow.Prelude.Split.{split_on, join_with}
use gate_flow.Prelude.Strip.{strip, strip_start, strip_end}
use gate_flow.Prelude.Text.{Text, codes, same, starts_with}
use gate_flow.Http.{upper_char}
use gate_flow.Auth.Address.{entries, non_empty, is_whitespace}
use gate_flow.Router.{
  Route, less, has, allows, has_dots, collapse, normalise_stripped, normalise_prefix,
}
use gate_flow.Router.Records.{
  RouteData, insert_method, sorted_methods, methods_text, to_json, methods_of, with_prefix,
  from_json, parse_methods,
}
use gate_flow.Router.RoundTrip.{from_json-to_json}
use gate_flow.Store.Routes.{
  RouteStore, value_at, with_value, without_value, add_read, read_hash, save_quietly, save_all,
  list_from_hash, list_rows, list_routes, refresh_routes, save_route, look_in_hash, look_up_route,
  get_route, delete_route, backfill_route,
}
use gate_flow.Store.Routes.Current.{IsCurrent}
use gate_flow.Admin.Routes.{
  Request, read_route, create_route, update_route, remove_route, Response, bad_request, not_found,
  conflict, server_error, shown, created, updated, deleted, route_of, show, create, replace, report,
  serve, handle, run,
}
use gate_flow.Admin.Routes.Refines.{view, run_map, run-run_map}

abbrev payload : Text → RouteData
payload methods = record {
  target_url = codes "http://u/";
  fallback_url = none;
  strip_prefix = true;
  requires_auth = true;
  allowed_methods = methods;
}

abbrev nothing : RouteStore
nothing = record { rows = []; hash = []; cache = [] }

abbrev stored : Text → RouteData
stored methods = record (payload methods) { target_url = codes "http://u" }

abbrev requests : List Request
requests =
    read_route (codes "a")
    ∷ create_route (codes "/a//b/") (payload (codes "put, get,put"))
    ∷ create_route (codes "a/b") (payload (codes "*"))
    ∷ create_route (codes "..") (payload (codes "*"))
    ∷ update_route (codes "a/b") (payload (codes "*"))
    ∷ read_route (codes "a/b")
    ∷ remove_route (codes "a/b")
    ∷ remove_route (codes "a/b")
    ∷ []

abbrev answers : List Response
answers =
    not_found
    ∷ created (codes "a/b") (stored (codes "GET,PUT"))
    ∷ conflict
    ∷ bad_request
    ∷ updated (codes "a/b") (stored (codes "*"))
    ∷ shown (codes "a/b") (stored (codes "*"))
    ∷ deleted (codes "a/b")
    ∷ not_found
    ∷ []

-- A process that has not lost Redis, one that has, and a route that is in Redis alone.
run-requests :
    ((run true requests nothing).1 ≡ answers)
    × (((run false
            (create_route (codes "a") (payload (codes "*")) ∷ read_route (codes "a") ∷ [])
            nothing).1
          ≡ server_error ∷ shown (codes "a") (stored (codes "*")) ∷ [])
        × ((run true
              (read_route (codes "a") ∷ [])
              (record nothing { hash = (codes "a", stored (codes "get")) ∷ [] })).1
            ≡ shown (codes "a") (stored (codes "GET")) ∷ []))
unfolding run handle serve show create replace report save_route get_route delete_route
    refresh_routes list_routes list_rows list_from_hash save_all save_quietly read_hash add_read
    look_up_route look_in_hash backfill_route value_at with_value without_value to_json from_json
    with_prefix methods_of methods_text sorted_methods insert_method parse_methods less same
    normalise_prefix normalise_stripped collapse has_dots starts_with split_on join_with strip
    strip_start strip_end entries non_empty is_whitespace upper_char
run-requests = (refl, (refl, refl))

nothing-IsCurrent : IsCurrent nothing
nothing-IsCurrent = record { covered = λ p h. unfold value_at in refl; cache = refl }

run-run_map_example :
    IsCurrent (run true requests nothing).0
    × ((view (run true requests nothing).0 ≡ (run_map requests (view nothing)).0)
        × ((run true requests nothing).1 ≡ (run_map requests (view nothing)).1))
run-run_map_example = run-run_map requests nothing nothing-IsCurrent

abbrev users : Route
users = route_of (codes "a/b") (payload (codes "put, get"))

from_json-to_json_example :
    let r' = record users { allowed_methods = sorted_methods users.allowed_methods } in
    (from_json users.prefix (to_json users) ≡ some r')
    × (allows r' (codes "get") ≡ allows users (codes "get"))
unfolding normalise_prefix normalise_stripped collapse has_dots starts_with strip strip_start has
    parse_methods entries non_empty is_whitespace upper_char split_on same
from_json-to_json_example =
    from_json-to_json users (codes "/a//b/") (codes "put, get") (codes "get") refl refl refl
