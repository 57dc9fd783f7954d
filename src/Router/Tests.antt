-- ===== src/Router/Tests.antt =====
-- Runs of the router, and its theorems at concrete inputs.
use gate_flow.Prelude.{◌≡◌, refl, sym, true, none, some, [], ◌∷◌, inl, inr, Bool-cases}
use gate_flow.Prelude.Text.{Text, codes, same, starts_with, eq_of_same}
use gate_flow.Prelude.Split.{split_on}
use gate_flow.Prelude.Strip.{strip, strip_start}
use gate_flow.Router.{
  Route, Routes, lookup, keys, same_segments, less, goes_first, insert, sorted, covers, first_cover,
  segments_of, match_route, build_downstream_path, has_dots, collapse, normalise_stripped,
  normalise_prefix,
}
use gate_flow.Router.Matching.{IsLongestMatch, match_route-IsLongestMatch}
use gate_flow.Router.Normal.{IsNormal, normalise_prefix-IsNormal}
use gate_flow.Router.Lookup.{match_route-lookup}

abbrev route_of : Text → Route
route_of p = record {
  prefix = p;
  target_url = codes "http://users:8000";
  fallback_url = none;
  strip_prefix = true;
  requires_auth = true;
  allowed_methods = [];
}

abbrev users : Text
users = codes "users"

abbrev admins : Text
admins = codes "users/admins"

abbrev cache : Routes
cache = (users, route_of users) ∷ (admins, route_of admins) ∷ []

abbrev turned : Routes
turned = (admins, route_of admins) ∷ (users, route_of users) ∷ []

router_runs :
    (match_route cache (codes "/users/admins/7/") ≡ some (route_of admins))
    × (match_route cache (codes "/users/admin") ≡ some (route_of users))
    × ((match_route cache (codes "/usersx") ≡ none)
        × ((build_downstream_path (route_of users) (codes "/users/7/") ≡ codes "/7/")
            × ((build_downstream_path (route_of users) (codes "/users") ≡ codes "/")
                × ((normalise_prefix (codes "//a///b/") ≡ some (codes "a/b"))
                    × (normalise_prefix (codes "/a/../b") ≡ none)))))
unfolding same starts_with split_on strip strip_start lookup keys same_segments less goes_first
    insert sorted covers first_cover segments_of match_route build_downstream_path has_dots collapse
    normalise_stripped normalise_prefix
router_runs = (refl, refl, (refl, (refl, (refl, (refl, refl)))))

match_route-IsLongestMatch_example :
    IsLongestMatch cache (codes "/users/admins/7") (match_route cache (codes "/users/admins/7"))
match_route-IsLongestMatch_example = match_route-IsLongestMatch cache (codes "/users/admins/7")

turned_same : (p : Text) → lookup p cache ≡ lookup p turned
unfolding lookup
turned_same p = elim (Bool-cases (same users p)) [
  | inl t ↦ let e : users ≡ p = eq_of_same users p t in rw (sym e) (unfold same in refl)
  | inr f ↦ rw f refl
]

match_route-lookup_example :
    match_route cache (codes "/users/admins/7") ≡ match_route turned (codes "/users/admins/7")
match_route-lookup_example = match_route-lookup cache turned (codes "/users/admins/7") turned_same

normalise_prefix-IsNormal_example :
    IsNormal (codes "a/b") × (normalise_prefix (codes "a/b") ≡ some (codes "a/b"))
normalise_prefix-IsNormal_example =
    normalise_prefix-IsNormal (codes "//a///b/") (codes "a/b") router_runs.2.1.1.1.0
