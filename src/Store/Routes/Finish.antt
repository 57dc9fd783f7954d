-- ===== src/Store/Routes/Finish.antt =====
-- From any state, calls and listeners can go on until the caches have the rows.
use gate_flow.Prelude.{ℕ, ◌≡◌, ◌≢◌, Bool-cases, inl, inr, none, List, [], ◌∷◌}
use gate_flow.Prelude.Text.{Text, same}
use gate_flow.Router.{Route, Routes}
use gate_flow.Store.Routes.{with_value}
use gate_flow.Store.Routes.Processes.{Change, System, Reach}
use gate_flow.Store.Routes.Settled.{contents}

-- A later state with the same contents in which no call is under way.
record IsQuieter (t u : System) : Type 0 where
  reach : Reach t u
  quiet : u.changes ≡ []
  kept : contents u ≡ contents t

-- One call after another comes to its end.
module _ (changes : List Change) where
  abbrev Finishes : Type 0
  Finishes = (t : System) → t.rows ≢ [] → t.changes ≡ changes → (u : System) × IsQuieter t u

-- A listener that reads all its messages.
record IsCaughtUp (j : ℕ) (t u : System) : Type 0 where
  reach : Reach t u
  quiet : u.changes ≡ []
  kept : contents u ≡ contents t
  mail : (u.processes j).mail ≡ 0
  reading : (u.processes j).reading ≡ none

pub with_value-not_empty : (p : Text) (r : Route) (rows : Routes) → with_value p r rows ≢ []
unfolding with_value
with_value-not_empty p r [] e = cc
with_value-not_empty p r ((q, b) ∷ rows) e = elim (Bool-cases (same q p)) [
  | inl t ↦ let no = rw t at e in cc
  | inr f ↦ let no = rw f at e in cc
]
