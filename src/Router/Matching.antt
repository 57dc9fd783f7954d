-- ===== src/Router/Matching.antt =====
-- match_route finds the longest prefix.
use gate_flow.Prelude.{
  ◌≡◌, ◌≤◌, ◌⊎◌, inl, inr, refl, true, false, Option, none, some, List, [], ◌∷◌, All, All-map,
  length, Bool-cases,
}
use gate_flow.Prelude.Text.{Text, same, same_refl}
use gate_flow.Prelude.Strip.{strip}
use gate_flow.Router.{
  Route, Routes, is_slash, depth, lookup, keys, sorted, covers, first_cover, segments_of, route_at,
  match_route,
}
use gate_flow.Router.Covering.{IsUnder, covers_iff, shorter_of_shallower}
use gate_flow.Router.Order.{
  All-sorted, All-of_sorted, IsDeepest, first_cover-IsDeepest, first_cover-holds,
  sorted-IsDeepFirst,
}

IsFound : Routes → Text → Type 0
IsFound cache p = (r : Route) × (lookup p cache ≡ some r)

IsFound-behind :
    (p : Text) (r : Route) (cache : Routes) (ps : List Text)
    → All (IsFound cache) ps
    → All (IsFound ((p, r) ∷ cache)) ps
unfolding lookup IsFound
IsFound-behind p r cache [] h = tt
IsFound-behind p r cache (q ∷ ps) h = (
  elim (Bool-cases (same p q)) [ inl e ↦ (r, rw e) | inr e ↦ (h.0.0, rw e (h.0.1)) ],
  IsFound-behind p r cache ps h.1,
)

keys-IsFound : (cache : Routes) → All (IsFound cache) (keys cache)
unfolding keys lookup IsFound
keys-IsFound [] = tt
keys-IsFound ((p, r) ∷ cache) =
    ((r, rw (same_refl p)), IsFound-behind p r cache (keys cache) (keys-IsFound cache))

-- A path is under a prefix if its text without slashes at the ends is.
abbrev pub IsPathUnder : Text → Text → Type 0
IsPathUnder path p = IsUnder p (strip is_slash path)

-- What a routing table promises for a path: no route, where no prefix fits; otherwise the route of
-- a prefix that fits and that no other one that fits is longer than.
abbrev pub IsLongestMatch : Routes → Text → Option Route → Type 0
IsLongestMatch cache path none = All (λ q. ¬ IsPathUnder path q) (keys cache)
IsLongestMatch cache path (some r) =
    (p : Text) × (lookup p cache ≡ some r)
    × (IsPathUnder path p × All (λ q. (¬ IsPathUnder path q) ⊎ (length q ≤ length p)) (keys cache))

not_under : (path q : Text) → covers (segments_of path) q ≡ false → ¬ IsPathUnder path q
unfolding segments_of
not_under path q h u = let c = (covers_iff q (strip is_slash path)).1 u in cc

not_longer :
    (path p q : Text)
    → covers (segments_of path) p ≡ true
    → (covers (segments_of path) q ≡ false) ⊎ (depth q ≤ depth p)
    → (¬ IsPathUnder path q) ⊎ (length q ≤ length p)
unfolding segments_of
not_longer path p q c (inl e) = inl (not_under path q e)
not_longer path p q c (inr d) = elim (Bool-cases (covers (segments_of path) q)) [
  | inl e ↦
      let s = strip is_slash path in
      inr (shorter_of_shallower p q s ((covers_iff p s).0 c) ((covers_iff q s).0 e) d)
  | inr e ↦ inl (not_under path q e)
]

route_at-IsLongestMatch :
    (cache : Routes) (path : Text) (o : Option Text)
    → first_cover (segments_of path) (sorted (keys cache)) ≡ o
    → IsDeepest (segments_of path) (sorted (keys cache)) o
    → IsLongestMatch cache path (route_at cache o)
unfolding IsFound
route_at-IsLongestMatch cache path none e d =
    All-map (not_under path) (keys cache) (All-of_sorted _ (keys cache) d)
route_at-IsLongestMatch cache path (some p) e d =
    let (r, found) =
      first_cover-holds (IsFound cache) (segments_of path) (sorted (keys cache)) p
        (All-sorted (IsFound cache) (keys cache) (keys-IsFound cache)) e in
    let under : IsPathUnder path p =
      unfold segments_of in (covers_iff p (strip is_slash path)).0 (d.0) in
    let longest =
      All-map (λ q. not_longer path p q (d.0)) (keys cache) (All-of_sorted _ (keys cache) (d.1)) in
    rw found (p, found, (under, longest))

-- The route that is found has the longest prefix that the path goes under, and none is found only
-- where the path goes under no prefix.
pub match_route-IsLongestMatch :
    (cache : Routes) (path : Text) → IsLongestMatch cache path (match_route cache path)
unfolding match_route keys
match_route-IsLongestMatch [] path = tt
match_route-IsLongestMatch (e ∷ cache) path = route_at-IsLongestMatch (e ∷ cache) path _ refl (
    first_cover-IsDeepest (segments_of path) (sorted (keys (e ∷ cache)))
      (sorted-IsDeepFirst (keys (e ∷ cache))))
