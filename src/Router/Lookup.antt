-- ===== src/Router/Lookup.antt =====
-- match_route depends on the dictionary alone, not on the order in which its entries came in.
use gate_flow.Prelude.{
  ◌≡◌, ◌≤◌, ◌⊎◌, inl, inr, refl, sym, ap, ◌∙◌, Option, none, some, [], ◌∷◌, arith, All, length,
  take, take-append, Bool-cases,
}
use gate_flow.Prelude.Text.{Text, same, eq_of_same}
use gate_flow.Prelude.Strip.{strip}
use gate_flow.Router.{Route, Routes, slash, is_slash, lookup, keys, match_route}
use gate_flow.Router.Covering.{IsUnder, whole, inside, take_whole}
use gate_flow.Router.Matching.{IsPathUnder, IsLongestMatch, match_route-IsLongestMatch}

lookup-holds {κ} :
    (P : Text → Type κ) (p : Text) (r : Route) (cache : Routes)
    → lookup p cache ≡ some r
    → All P (keys cache)
    → P p
unfolding lookup keys
lookup-holds P p r [] e h = cc
lookup-holds P p r ((q, s) ∷ cache) e h = elim (Bool-cases (same q p)) [
  | inl t ↦ let same_key : q ≡ p = eq_of_same q p t in rw same_key at (h.0)
  | inr t ↦ lookup-holds P p r cache (rw t at e) h.1
]

under-take : {p s : Text} → IsUnder p s → take (length p) s ≡ p
under-take {p} (whole e) = rw e (take_whole p)
under-take {p} (inside rest e) = rw e (take-append p (slash ∷ rest))

same_length_same : (p q s : Text) → IsUnder p s → IsUnder q s → length p ≡ length q → p ≡ q
same_length_same p q s u v e = sym (under-take u) ∙ ap (λ n. take n s) e ∙ under-take v

when_under :
    (P : Text → Type 0) (path p : Text) → IsPathUnder path p → (¬ IsPathUnder path p) ⊎ P p → P p
when_under P path p u (inl n) = absurd (n u)
when_under P path p u (inr h) = h

unique :
    (c d : Routes) (path : Text) (o o' : Option Route)
    → ((p : Text) → lookup p c ≡ lookup p d)
    → IsLongestMatch c path o
    → IsLongestMatch d path o'
    → o ≡ o'
unique c d path none none e h k = refl
unique c d path none (some r) e h (p, found, (under, longest)) =
    absurd (lookup-holds (λ q. ¬ IsPathUnder path q) p r c (e p ∙ found) h under)
unique c d path (some r) none e (p, found, (under, longest)) k =
    absurd (lookup-holds (λ q. ¬ IsPathUnder path q) p r d (sym (e p) ∙ found) k under)
unique c d path (some r) (some r') e (p, found, (under, longest)) (q, found', (under', longest')) =
    let le : length p ≤ length q =
      when_under (λ t. length t ≤ length q) path p under
        (lookup-holds (λ t. (¬ IsPathUnder path t) ⊎ (length t ≤ length q)) p r d
          (sym (e p) ∙ found) longest') in
    let ge : length q ≤ length p =
      when_under (λ t. length t ≤ length p) path q under'
        (lookup-holds (λ t. (¬ IsPathUnder path t) ⊎ (length t ≤ length p)) q r' c (e q ∙ found')
          longest) in
    let pq : p ≡ q =
      same_length_same p q (strip is_slash path) under under' (omega (arith, le, ge)) in
    sym found ∙ e p ∙ ap (λ t. lookup t d) pq ∙ found'

-- Two caches that give every prefix the same route match every path to the same route.
pub match_route-lookup :
    (c d : Routes) (path : Text)
    → ((p : Text) → lookup p c ≡ lookup p d)
    → match_route c path ≡ match_route d path
match_route-lookup c d path e =
    unique c d path _ _ e (match_route-IsLongestMatch c path) (match_route-IsLongestMatch d path)
