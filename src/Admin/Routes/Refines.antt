-- ===== src/Admin/Routes/Refines.antt =====
-- The handlers of routes as operations on a map from prefixes to routes.
use mathlib.Core.Path.{fun_ext}
use gate_flow.Prelude.{
  ◌≡◌, refl, sym, ap, ◌∙◌, inl, inr, Bool, true, false, Option, none, some, List, [], ◌∷◌,
  if◌then◌else◌, Bool-cases,
}
use gate_flow.Prelude.Text.{Text, same, eq_of_same, update}
use gate_flow.Router.{Route, lookup, normalise_prefix}
use gate_flow.Router.Records.{to_json}
use gate_flow.Store.Keys.{Outcome, returned, raised}
use gate_flow.Store.Routes.{
  RouteStore, value_at, row_of, save_route, get_route, is_there, delete_route,
}
use gate_flow.Store.Routes.Entries.{lookup-value_at, value_at-with_value, value_at-without_value}
use gate_flow.Store.Routes.Current.{
  IsCurrent, save_route-IsCurrent, delete_route-IsCurrent, get_route-IsCurrent,
}
use gate_flow.Admin.Routes.{
  Request, read_route, remove_route, create_route, update_route, Response, bad_request, not_found,
  conflict, shown, created, updated, deleted, route_of, saved_as, show, create, replace, report,
  serve, prefix_of, handle, run,
}

-- What `match_route` looks into.
abbrev pub RouteMap : Type 0
RouteMap = Text → Option Route

abbrev pub view : RouteStore → RouteMap
view s p = lookup p s.cache

unfoldable pub shown_of : Option Route → Response
shown_of none = not_found
shown_of (some r) = shown r.prefix (to_json r)

unfoldable pub added : Route → Option Route → RouteMap → RouteMap × Response
added r (some existing) f = (f, conflict)
added r none f = (update f r.prefix (some (row_of r)), created r.prefix (to_json r))

unfoldable pub changed : Route → Option Route → RouteMap → RouteMap × Response
changed r none f = (f, not_found)
changed r (some existing) f = (update f r.prefix (some (row_of r)), updated r.prefix (to_json r))

unfoldable pub removed : Text → Option Route → RouteMap → RouteMap × Response
removed p none f = (f, not_found)
removed p (some existing) f = (update f p none, deleted p)

unfoldable pub promise : Request → Option Text → RouteMap → RouteMap × Response
promise request none f = (f, bad_request)
promise (read_route _) (some p) f = (f, shown_of (f p))
promise (create_route _ payload) (some p) f = added (route_of p payload) (f p) f
promise (update_route _ payload) (some p) f = changed (route_of p payload) (f p) f
promise (remove_route _) (some p) f = removed p (f p) f

unfoldable pub run_map : List Request → RouteMap → RouteMap × List Response
run_map [] f = (f, [])
run_map (request ∷ requests) f =
    let (f', response) = promise request (normalise_prefix (prefix_of true request)) f in
    let (f'', rest) = run_map requests f' in (f'', response ∷ rest)

-- A state and an answer are those of the map.
record Matches (x : RouteMap × Response) (y : RouteStore × Response) : Type 0 where
  current : IsCurrent y.0
  map : view y.0 ≡ x.0
  answer : y.1 ≡ x.1

view-rows : (s : RouteStore) → IsCurrent s → view s ≡ (λ p. value_at p s.rows)
view-rows s h = fun_ext (λ p. lookup-value_at p s.cache ∙ ap (value_at p) h.cache)

row_at : (p : Text) (s : RouteStore) → IsCurrent s → value_at p s.rows ≡ view s p
row_at p s h = sym (ap (λ f. f p) (view-rows s h))

view-save_route :
    (r : Route) (s : RouteStore)
    → IsCurrent s
    → view (save_route true r s).0 ≡ update (view s) r.prefix (some (row_of r))
view-save_route r s h =
    let (now, ok, rows) = save_route-IsCurrent r s h in
    view-rows (save_route true r s).0 now
    ∙ fun_ext (λ p.
      ap (value_at p) rows
      ∙ value_at-with_value r.prefix p (row_of r) s.rows
      ∙ ap (λ x. if same r.prefix p then some (row_of r) else x) (row_at p s h))

view-delete_route :
    (q : Text) (s : RouteStore)
    → IsCurrent s
    → view (delete_route true q s).0 ≡ update (view s) q none
view-delete_route q s h =
    let (now, ok, rows) = delete_route-IsCurrent q s h in
    view-rows (delete_route true q s).0 now
    ∙ fun_ext (λ p.
      ap (value_at p) rows
      ∙ value_at-without_value q p s.rows
      ∙ ap (λ x. if same q p then none else x) (row_at p s h))

saved_as_returned :
    (response : Response) (x : RouteStore × Outcome (Unit {0}))
    → x.1 ≡ returned tt
    → saved_as true response x ≡ (x.0, response)
saved_as_returned response (s, raised) h = cc
saved_as_returned response (s, returned _) h = refl

saved-Matches :
    (response : Response) (r : Route) (s : RouteStore)
    → IsCurrent s
    → Matches
        (update (view s) r.prefix (some (row_of r)), response)
        (saved_as true response (save_route true r s))
saved-Matches response r s h =
    let (now, ok, rows) = save_route-IsCurrent r s h in
    rw (saved_as_returned response (save_route true r s) ok)
      (record { current = now; map = view-save_route r s h; answer = refl })

same-Matches :
    (response : Response) (s : RouteStore) → IsCurrent s → Matches (view s, response) (s, response)
same-Matches response s h = record { current = h; map = refl; answer = refl }

create-Matches :
    (r : Route) (o : Option Route) (s : RouteStore)
    → IsCurrent s
    → Matches (added r o (view s)) (create true r (s, o))
unfolding added create
create-Matches r none s h = saved-Matches (created r.prefix (to_json r)) r s h
create-Matches r (some existing) s h = same-Matches conflict s h

replace-Matches :
    (r : Route) (o : Option Route) (s : RouteStore)
    → IsCurrent s
    → Matches (changed r o (view s)) (replace true r (s, o))
unfolding changed replace
replace-Matches r none s h = same-Matches not_found s h
replace-Matches r (some existing) s h = saved-Matches (updated r.prefix (to_json r)) r s h

update-none : (f : RouteMap) (p : Text) → f p ≡ none → update f p none ≡ f
update-none f p e = fun_ext (λ q. elim (Bool-cases (same p q)) [
  | inl t ↦ let at_q : f q ≡ none = rw (eq_of_same p q t) at e in rw (t, at_q) refl
  | inr n ↦ rw n refl
])

report_returned :
    (p : Text) (x : RouteStore × Outcome Bool) (b : Bool)
    → x.1 ≡ returned b
    → report true p x ≡ (x.0, if b then deleted p else not_found)
unfolding report
report_returned p (s, raised) b h = cc
report_returned p (s, returned true) true h = refl
report_returned p (s, returned true) false h = cc
report_returned p (s, returned false) true h = cc
report_returned p (s, returned false) false h = refl

remove-Matches :
    (p : Text) (s : RouteStore) (o : Option Route)
    → view s p ≡ o
    → IsCurrent s
    → Matches (removed p o (view s)) (report true p (delete_route true p s))
remove-Matches p s o e h =
    let (now, ok, rows) = delete_route-IsCurrent p s h in
    let ok' : (delete_route true p s).1 ≡ returned (is_there true o) =
      ok ∙ ap (λ x. returned (is_there true x)) (row_at p s h ∙ e) in
    rw (report_returned p (delete_route true p s) (is_there true o) ok') (of_row o e now)
  where
    of_row :
        (o' : Option Route)
        → view s p ≡ o'
        → IsCurrent (delete_route true p s).0
        → Matches
            (removed p o' (view s))
            ((delete_route true p s).0, if is_there true o' then deleted p else not_found)
    of_row none e' now =
        unfold removed in
        record {
          current = now;
          map = view-delete_route p s h ∙ update-none (view s) p e';
          answer = refl;
        }
    of_row (some r) e' now =
        unfold removed in record { current = now; map = view-delete_route p s h; answer = refl }

show-Matches :
    (p : Text) (o : Option Route) (s : RouteStore)
    → IsCurrent s
    → Matches (view s, shown_of o) (show true p (s, o))
unfolding shown_of show
show-Matches p none s h = same-Matches not_found s h
show-Matches p (some r) s h = same-Matches (shown r.prefix (to_json r)) s h

got : (p : Text) (s : RouteStore) → IsCurrent s → get_route true p s ≡ (s, view s p)
got p s h = get_route-IsCurrent p s h ∙ ap (λ o. (s, o)) (row_at p s h)

serve-Matches :
    (request : Request) (o : Option Text) (s : RouteStore)
    → IsCurrent s
    → Matches (promise request o (view s)) (serve true request o s)
unfolding promise serve
serve-Matches request none s h = same-Matches bad_request s h
serve-Matches (read_route q) (some p) s h = rw (got p s h) (show-Matches p (view s p) s h)
serve-Matches (create_route q payload) (some p) s h =
    rw (got p s h) (create-Matches (route_of p payload) (view s p) s h)
serve-Matches (update_route q payload) (some p) s h =
    rw (got p s h) (replace-Matches (route_of p payload) (view s p) s h)
serve-Matches (remove_route q) (some p) s h = remove-Matches p s (view s p) refl h

-- While Redis is within reach, the handlers of routes answer, and leave the route cache from which
-- requests are routed, as they do on a map from prefixes to routes: a change counts as soon
-- as it is answered. At first the cache has the rows, and Redis no prefix without a row; the handlers
-- keep that.
pub run-run_map :
    (requests : List Request) (s : RouteStore)
    → IsCurrent s
    → IsCurrent (run true requests s).0
      × ((view (run true requests s).0 ≡ (run_map requests (view s)).0)
          × ((run true requests s).1 ≡ (run_map requests (view s)).1))
unfolding run run_map handle
run-run_map [] s h = (h, (refl, refl))
run-run_map (request ∷ requests) s h =
    let one = serve-Matches request (normalise_prefix (prefix_of true request)) s h in
    let y = handle true request s in
    let f = (promise request (normalise_prefix (prefix_of true request)) (view s)) in
    let (now, (map, answers)) = run-run_map requests y.0 one.current in
    (
      now,
      (
        map ∙ ap (λ v. (run_map requests v).0) one.map,
        ap (λ x. x ∷ (run true requests y.0).1) one.answer
            ∙ ap (λ rest. f.1 ∷ rest) (answers ∙ ap (λ v. (run_map requests v).1) one.map),
      ),
    )
