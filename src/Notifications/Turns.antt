-- ===== src/Notifications/Turns.antt =====
-- Turns of the worker's loop.
use gate_flow.Prelude.{List, [], ◌∷◌, ◌++◌}
use gate_flow.Prelude.Text.{Text}

-- The entries that are added before the turns.
abbrev pub arrived : List (List Text) → List Text
arrived [] = []
arrived (ids ∷ turns) = ids ++ arrived turns
