-- ===== src/Store/Routes/Current.antt =====
-- The route cache beside rows and hash, while Redis is within reach.
use gate_flow.Prelude.{
  ◌≡◌, refl, sym, ◌∙◌, inl, inr, Bool, true, false, Option, none, some, [], ◌∷◌, if◌then◌else◌,
  Option-cases,
}
use gate_flow.Prelude.Text.{Text, same}
use gate_flow.Router.{Route, Routes}
use gate_flow.Router.Records.{to_json}
use gate_flow.Store.Keys.{returned}
use gate_flow.Store.Routes.{
  RouteStore, value_at, with_value, without_value, row_of, read_hash, save_quietly, save_all,
  list_from_hash, list_rows, list_routes, refresh_routes, save_route, look_in_hash, look_up_route,
  get_route, is_there, delete_route,
}
use gate_flow.Store.Routes.Entries.{value_at-with_value, value_at-without_value, empty_of-value_at}

-- Every prefix in the hash has a row.
abbrev pub IsCovered : RouteStore → Type 0
IsCovered s = (p : Text) → value_at p s.rows ≡ none → value_at p s.hash ≡ none

-- The route cache has the rows as well.
pub record IsCurrent (s : RouteStore) : Type 0 where
  pub covered : IsCovered s
  pub cache : s.cache ≡ s.rows

list_rows-IsCovered :
    (rows : Routes) (s : RouteStore)
    → s.rows ≡ rows
    → IsCovered s
    → list_rows true rows s ≡ (s, rows)
unfolding list_rows list_from_hash
list_rows-IsCovered (e ∷ rows) s h c = refl
list_rows-IsCovered [] s h c =
    let no_hash : s.hash ≡ [] =
      empty_of-value_at s.hash (λ p. c p (rw h (unfold value_at in refl))) in
    rw (no_hash) (unfold read_hash save_all in refl)

refresh_routes-IsCovered :
    (s : RouteStore) → IsCovered s → refresh_routes true s ≡ record s { cache = s.rows }
unfolding refresh_routes list_routes
refresh_routes-IsCovered s c = rw (list_rows-IsCovered s.rows s refl c) refl

-- What holds without both of two rows holds of the others.
if_none :
    {A B : Type 0} (b : Bool) (a : A) (a' : B) (x : Option A) (y : Option B)
    → (x ≡ none → y ≡ none)
    → (if b then some a else x) ≡ none
    → (if b then some a' else y) ≡ none
if_none true a a' x y h e = cc
if_none false a a' x y h e = h e

if_dropped :
    {A B : Type 0} (b : Bool) (x : Option A) (y : Option B)
    → (x ≡ none → y ≡ none)
    → (if b then none else x) ≡ none
    → (if b then none else y) ≡ none
if_dropped true x y h e = refl
if_dropped false x y h e = h e

saved-IsCovered : (r : Route) (s : RouteStore) → IsCovered s → IsCovered (save_quietly r s)
unfolding save_quietly
saved-IsCovered r s c p e =
    value_at-with_value r.prefix p (to_json r) s.hash
    ∙ if_none (same r.prefix p) (row_of r) (to_json r) (value_at p s.rows) (value_at p s.hash) (c p)
        (sym (value_at-with_value r.prefix p (row_of r) s.rows) ∙ e)

-- A call that saves a route puts its row into the cache.
pub save_route-IsCurrent :
    (r : Route) (s : RouteStore)
    → IsCurrent s
    → IsCurrent (save_route true r s).0
      × ((save_route true r s).1 ≡ returned tt)
      × ((save_route true r s).0.rows ≡ with_value r.prefix (row_of r) s.rows)
unfolding save_route
save_route-IsCurrent r s h =
    let c = saved-IsCovered r s h.covered in
    rw (refresh_routes-IsCovered (save_quietly r s) c)
      (record { covered = c; cache = refl }, refl, unfold save_quietly in refl)

deleted-IsCovered :
    (p : Text) (s : RouteStore)
    → IsCovered s
    → IsCovered (record s { rows = without_value p s.rows; hash = without_value p s.hash })
deleted-IsCovered p s c q e =
    value_at-without_value p q s.hash
    ∙ if_dropped (same p q) (value_at q s.rows) (value_at q s.hash) (c q)
        (sym (value_at-without_value p q s.rows) ∙ e)

pub delete_route-IsCurrent :
    (p : Text) (s : RouteStore)
    → IsCurrent s
    → IsCurrent (delete_route true p s).0
      × ((delete_route true p s).1 ≡ returned (is_there true (value_at p s.rows)))
      × ((delete_route true p s).0.rows ≡ without_value p s.rows)
unfolding delete_route
delete_route-IsCurrent p s h =
    let c = deleted-IsCovered p s h.covered in
    let left = record s { rows = without_value p s.rows; hash = without_value p s.hash } in
    rw (refresh_routes-IsCovered left c) (record { covered = c; cache = refl }, refl, refl)

-- A lookup answers with the row, and changes nothing.
pub get_route-IsCurrent :
    (p : Text) (s : RouteStore) → IsCurrent s → get_route true p s ≡ (s, value_at p s.rows)
unfolding get_route look_up_route look_in_hash
get_route-IsCurrent p s h = elim (Option-cases (value_at p s.rows)) [
  | inl e ↦ rw (e, h.covered p e) refl
  | inr (r, e) ↦ rw e refl
]
