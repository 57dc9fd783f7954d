-- ===== src/Router/Records.antt =====
-- The record of a route in Redis, with Route.from_json and Route.to_json of gateflow/models.py, and the
-- methods of a payload in gateflow/admin/routes.py. A list of methods stands for the set of its
-- elements, and an object of JSON for the text that json.dumps writes and json.loads reads.
use gate_flow.Prelude.{Bool, Option, none, some, List, [], ◌∷◌, map, if◌then◌else◌}
use gate_flow.Prelude.Text.{Text, same}
use gate_flow.Prelude.Split.{split_on, join_with}
use gate_flow.Prelude.Strip.{strip}
use gate_flow.Http.{upper}
use gate_flow.Auth.Address.{is_whitespace, comma, wildcard, entries}
use gate_flow.Router.{Route, less, normalise_prefix}

pub record RouteData : Type 0 where
  pub target_url : Text
  pub fallback_url : Option Text
  pub strip_prefix : Bool
  pub requires_auth : Bool
  pub allowed_methods : Text

-- `sorted(methods)` of a set: each method once.
unfoldable pub insert_method : Text → List Text → List Text
insert_method m [] = m ∷ []
insert_method m (n ∷ ms) =
    let rest = insert_method m ms in
    if same m n then n ∷ ms else if less m n then m ∷ n ∷ ms else n ∷ rest

unfoldable pub sorted_methods : List Text → List Text
sorted_methods [] = []
sorted_methods (m ∷ ms) = insert_method m (sorted_methods ms)

-- `"*" if not methods else ",".join(sorted(methods))`
unfoldable pub methods_text : List Text → Text
methods_text [] = wildcard
methods_text (m ∷ ms) = join_with comma (sorted_methods (m ∷ ms))

unfoldable pub to_json : Route → RouteData
to_json r = record {
  target_url = r.target_url;
  fallback_url = r.fallback_url;
  strip_prefix = r.strip_prefix;
  requires_auth = r.requires_auth;
  allowed_methods = methods_text r.allowed_methods;
}

unfoldable pub methods_of : Text → List Text
methods_of methods =
    if same methods wildcard
    then []
    else map (λ m. upper (strip is_whitespace m)) (split_on comma methods)

-- The prefix may be refused with a ValueError.
unfoldable pub with_prefix : Option Text → RouteData → Option Route
with_prefix none value = none
with_prefix (some prefix) value = some (record {
  prefix = prefix;
  target_url = value.target_url;
  fallback_url = value.fallback_url;
  strip_prefix = value.strip_prefix;
  requires_auth = value.requires_auth;
  allowed_methods = methods_of value.allowed_methods;
})

unfoldable pub from_json : Text → RouteData → Option Route
from_json prefix value = with_prefix (normalise_prefix prefix) value

-- _parse_methods
unfoldable pub parse_methods : Text → List Text
parse_methods methods =
    if same (strip is_whitespace methods) wildcard then [] else map upper (entries methods)
