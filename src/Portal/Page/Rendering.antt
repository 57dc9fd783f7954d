-- ===== src/Portal/Page/Rendering.antt =====
-- The definition list that `loadQuota` writes into the page, and its reading as a browser reads
-- markup that has no character reference, NUL or carriage return.
use mathlib.Core.List.{append_assoc}
use gate_flow.Prelude.{◌≡◌, List, [], ◌∷◌, ◌++◌, drop}
use gate_flow.Prelude.Text.{Text, codes}
use gate_flow.Prelude.Split.{Without, split_on}
use gate_flow.Portal.Value.{Value, str, to_string}
use gate_flow.Portal.Page.{render_entry, render}

-- The contents of the `dt` and `dd` elements of a list, read between the markup's `<` signs.
read_elements : List Text → List (Text × Text)
read_elements (dt ∷ dt_end ∷ dd ∷ dd_end ∷ ps) = (drop 3 dt, drop 3 dd) ∷ read_elements ps
read_elements _ = []

pub read_list : Text → List (Text × Text)
unfolding read_elements
read_list html = elim (split_on b'<' html) [ [] ↦ [] | _ ∷ ps ↦ read_elements ps ]

-- A text that a browser shows as it is written: none of its characters starts a tag or a character
-- reference, and none is replaced as the page is read.
abbrev pub IsPlain : Text → Type 0
IsPlain s = Without b'<' s × Without b'&' s × Without 0 s × Without 13 s

abbrev pub HasNoMarkup : Text × Value → Type 0
HasNoMarkup e = IsPlain e.0 × IsPlain (to_string e.1)

abbrev pub shown : Text × Value → Text × Text
shown e = (e.0, to_string e.1)

-- The parts of the markup behind each `<`, of one entry and of all.
abbrev parts_of : Text × Value → List Text → List Text
parts_of e ps =
    (codes "dt>" ++ e.0) ∷ codes "/dt>" ∷ (codes "dd>" ++ to_string e.1) ∷ codes "/dd>" ∷ ps

abbrev all_parts : List (Text × Value) → List Text
all_parts [] = []
all_parts (e ∷ es) = parts_of e (all_parts es)

-- Each part with a `<` in front.
abbrev glue : List Text → Text
glue [] = []
glue (p ∷ ps) = b'<' ∷ (p ++ glue ps)

-- A value that holds markup is not text in the page: one entry can show as two.
render_injected :
    (k j s t : Text)
    → render ((k, str (s ++ (codes "</dd><dt>" ++ (j ++ (codes "</dt><dd>" ++ t))))) ∷ [])
      ≡ render ((k, str s) ∷ (j, str t) ∷ [])
unfolding render render_entry to_string
render_injected k j s t = simp append_assoc
