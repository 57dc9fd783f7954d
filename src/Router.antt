-- ===== src/Router.antt =====
-- gateflow/router.py, with `normalise_prefix` and `Route` of gateflow/models.py. The route cache is
-- a dictionary from prefix to route: a list of entries in the order in which they came in, each
-- prefix once.
mod Tests
pub mod Order
pub mod Covering
pub mod Matching
pub mod Downstream
pub mod Lookup
pub mod Normal
pub mod Records
pub mod Methods
pub mod RoundTrip
use gate_flow.Prelude.{
  ℕ, suc, ◌-◌, Bool, true, false, ◌&&◌, ◌||◌, not, Option, none, some, List, [], ◌∷◌, ◌++◌, ltb,
  ◌==◌, if◌then◌else◌, length, take, drop,
}
use gate_flow.Prelude.Text.{Text, codes, same, starts_with}
use gate_flow.Prelude.Split.{split_on}
use gate_flow.Prelude.Strip.{strip}
use gate_flow.Http.{upper}

pub record Route : Type 0 where
  pub prefix : Text
  pub target_url : Text
  pub fallback_url : Option Text
  pub strip_prefix : Bool
  pub requires_auth : Bool
  pub allowed_methods : List Text

abbrev pub Routes : Type 0
Routes = List (Text × Route)

abbrev pub slash : ℕ
slash = b'/'

abbrev pub is_slash : ℕ → Bool
is_slash c = c == slash

-- `cache.get(p)`
unfoldable pub lookup : Text → Routes → Option Route
lookup p [] = none
lookup p ((q, r) ∷ cache) = if same q p then some r else lookup p cache

-- `cache.keys()`
unfoldable pub keys : Routes → List Text
keys [] = []
keys ((p, r) ∷ cache) = p ∷ keys cache

-- Equality of two lists of strings.
unfoldable pub same_segments : List Text → List Text → Bool
same_segments [] [] = true
same_segments (a ∷ s) (b ∷ t) = same a b && same_segments s t
same_segments _ _ = false

-- `len(p.split("/"))`
abbrev pub depth : Text → ℕ
depth p = length (split_on slash p)

-- `p < q` on strings: by code points, a prefix first.
unfoldable pub less : Text → Text → Bool
less s [] = false
less [] (b ∷ t) = true
less (a ∷ s) (b ∷ t) = ltb a b || ((a == b) && less s t)

-- Whether the sort key `(-len(p.split("/")), p)` of `p` is below that of `q`.
unfoldable pub goes_first : Text → Text → Bool
goes_first p q = ltb (depth q) (depth p) || ((depth p == depth q) && less p q)

unfoldable pub insert : Text → List Text → List Text
insert p [] = p ∷ []
insert p (q ∷ qs) = let rest = insert p qs in if goes_first q p then q ∷ rest else p ∷ q ∷ qs

unfoldable pub sorted : List Text → List Text
sorted [] = []
sorted (p ∷ ps) = insert p (sorted ps)

-- `segments[: len(prefix_segments)] == prefix_segments`
unfoldable pub covers : List Text → Text → Bool
covers segments p =
    let parts = split_on slash p in same_segments (take (length parts) segments) parts

-- The loop over the candidates.
unfoldable pub first_cover : List Text → List Text → Option Text
first_cover segments [] = none
first_cover segments (p ∷ ps) = if covers segments p then some p else first_cover segments ps

-- `path.strip("/").split("/")`
unfoldable pub segments_of : Text → List Text
segments_of path = split_on slash (strip is_slash path)

-- `cache[prefix]`, for the prefix that the loop found.
abbrev pub route_at : Routes → Option Text → Option Route
route_at cache none = none
route_at cache (some p) = lookup p cache

unfoldable pub match_route : Routes → Text → Option Route
match_route [] path = none
match_route (e ∷ cache) path =
    route_at (e ∷ cache) (first_cover (segments_of path) (sorted (keys (e ∷ cache))))

unfoldable pub build_downstream_path : Route → Text → Text
build_downstream_path route original_path =
    let prefix = slash ∷ route.prefix in
    if not route.strip_prefix
    then original_path
    else if starts_with (prefix ++ slash ∷ []) original_path
    then drop (length prefix) original_path
    else if same original_path prefix
    then slash ∷ []
    else original_path

-- `".." in s`
unfoldable pub has_dots : Text → Bool
has_dots [] = false
has_dots (c ∷ s) = starts_with (codes "..") (c ∷ s) || has_dots s

-- `re.sub(r"/+", "/", s)`; the flag says that the character before was a slash.
unfoldable pub collapse : Bool → Text → Text
collapse in_run [] = []
collapse in_run (c ∷ s) =
    let rest = collapse (is_slash c) s in if in_run && is_slash c then rest else c ∷ rest

-- `none` for a ValueError.
unfoldable pub normalise_stripped : Text → Option Text
normalise_stripped [] = none
normalise_stripped (c ∷ s) = if has_dots (c ∷ s) then none else some (collapse false (c ∷ s))

unfoldable pub normalise_prefix : Text → Option Text
normalise_prefix prefix = normalise_stripped (strip is_slash prefix)

-- `s in names`
unfoldable pub has : Text → List Text → Bool
has s [] = false
has s (t ∷ names) = same s t || has s names

-- `Route.allows`: a route without methods allows all.
unfoldable pub allows_any : List Text → Text → Bool
allows_any [] method = true
allows_any (m ∷ methods) method = has (upper method) (m ∷ methods)

unfoldable pub allows : Route → Text → Bool
allows r method = allows_any r.allowed_methods method
