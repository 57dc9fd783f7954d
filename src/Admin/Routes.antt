-- ===== src/Admin/Routes.antt =====
-- The handlers of single routes in gateflow/admin/routes.py, behind their guards. The payload has
-- passed the framework's validation: its URLs are texts, and not empty.
mod Tests
pub mod Refines
use gate_flow.Prelude.{Bool, true, false, Option, none, some, List, [], ◌∷◌}
use gate_flow.Prelude.Text.{Text}
use gate_flow.Prelude.Strip.{strip_end}
use gate_flow.Router.{Route, is_slash, normalise_prefix}
use gate_flow.Router.Records.{RouteData, to_json, parse_methods}
use gate_flow.Store.Keys.{Outcome, returned, raised}
use gate_flow.Store.Routes.{RouteStore, get_route, save_route, delete_route}

-- RoutePayload has the fields of a record of Redis.
pub data Request : Type 0 where
  read_route remove_route : (prefix : Text) → Request
  create_route update_route : (prefix : Text) → (payload : RouteData) → Request

pub data Response : Type 0 where
  bad_request not_found conflict : Response
  -- An exception that the handler lets through (500).
  server_error : Response
  -- RouteOut is the prefix and the fields of a record.
  shown created updated : (prefix : Text) → RouteData → Response
  deleted : (prefix : Text) → Response

abbrev pub trimmed : Option Text → Option Text
trimmed none = none
trimmed (some url) = some (strip_end is_slash url)

abbrev pub route_of : Text → RouteData → Route
route_of prefix payload = record {
  prefix = prefix;
  target_url = strip_end is_slash payload.target_url;
  fallback_url = trimmed payload.fallback_url;
  strip_prefix = payload.strip_prefix;
  requires_auth = payload.requires_auth;
  allowed_methods = parse_methods payload.allowed_methods;
}

module _ (online : Bool) where
  abbrev pub saved_as : Response → RouteStore × Outcome (Unit {0}) → RouteStore × Response
  saved_as response (s, returned _) = (s, response)
  saved_as response (s, raised) = (s, server_error)

  unfoldable pub show : Text → RouteStore × Option Route → RouteStore × Response
  show prefix (s, none) = (s, not_found)
  show prefix (s, some r) = (s, shown r.prefix (to_json r))

  unfoldable pub create : Route → RouteStore × Option Route → RouteStore × Response
  create r (s, some existing) = (s, conflict)
  create r (s, none) = saved_as (created r.prefix (to_json r)) (save_route online r s)

  unfoldable pub replace : Route → RouteStore × Option Route → RouteStore × Response
  replace r (s, none) = (s, not_found)
  replace r (s, some existing) = saved_as (updated r.prefix (to_json r)) (save_route online r s)

  unfoldable pub report : Text → RouteStore × Outcome Bool → RouteStore × Response
  report prefix (s, raised) = (s, server_error)
  report prefix (s, returned true) = (s, deleted prefix)
  report prefix (s, returned false) = (s, not_found)

  -- What follows normalise_prefix.
  unfoldable pub serve : Request → Option Text → RouteStore → RouteStore × Response
  serve request none s = (s, bad_request)
  serve (read_route _) (some prefix) s = show prefix (get_route online prefix s)
  serve (create_route _ payload) (some prefix) s =
      create (route_of prefix payload) (get_route online prefix s)
  serve (update_route _ payload) (some prefix) s =
      replace (route_of prefix payload) (get_route online prefix s)
  serve (remove_route _) (some prefix) s = report prefix (delete_route online prefix s)

  abbrev pub prefix_of : Request → Text
  prefix_of (read_route prefix) = prefix
  prefix_of (remove_route prefix) = prefix
  prefix_of (create_route prefix payload) = prefix
  prefix_of (update_route prefix payload) = prefix

  unfoldable pub handle : Request → RouteStore → RouteStore × Response
  handle request s = serve request (normalise_prefix (prefix_of request)) s

  unfoldable pub run : List Request → RouteStore → RouteStore × List Response
  run [] s = (s, [])
  run (request ∷ requests) s =
      let (s', response) = handle request s in
      let (s'', rest) = run requests s' in (s'', response ∷ rest)
