-- ===== src/Portal/Value.antt =====
-- The values that `JSON.parse` returns, and what app.js does with them: template strings,
-- `Object.entries`, and the property `api_key`.
use gate_flow.Prelude.{
  ℕ, suc, Bool, true, false, Option, none, some, List, [], ◌∷◌, ◌++◌, if◌then◌else◌,
}
use gate_flow.Prelude.Text.{Text, codes, same}
use gate_flow.Portal.Decimal.{decimal}

-- A number is given by the text that JavaScript writes for it. The fields of an object stand in
-- the order of `Object.entries`, each name once.
mutual
  pub data Value : Type 0 where
    null : Value
    bool : Bool → Value
    num : Text → Value
    str : Text → Value
    arr : Items → Value
    obj : Fields → Value

  pub data Items : Type 0 where
    nil : Items
    cons : Value → Items → Items

  pub data Fields : Type 0 where
    end : Fields
    field : Text → Value → Fields → Fields

unless_null : Value → Text → Text
unless_null null s = []
unless_null v s = s

-- `${v}`; an array is its elements joined by commas, where null is empty.
unfoldable mutual
  unfolding unless_null

  pub to_string : Value → Text
  to_string null = codes "null"
  to_string (bool true) = codes "true"
  to_string (bool false) = codes "false"
  to_string (num s) = s
  to_string (str s) = s
  to_string (arr vs) = join vs
  to_string (obj fs) = codes "[object Object]"

  pub join : Items → Text
  join nil = []
  join (cons v nil) = unless_null v (to_string v)
  join (cons v (cons w vs)) = unless_null v (to_string v) ++ b',' ∷ join (cons w vs)

index_items : ℕ → Items → List (Text × Value)
index_items i nil = []
index_items i (cons v vs) = (decimal i, v) ∷ index_items (suc i) vs

index_chars : ℕ → Text → List (Text × Value)
index_chars i [] = []
index_chars i (c ∷ s) = (decimal i, str (c ∷ [])) ∷ index_chars (suc i) s

unfoldable pub fields : Fields → List (Text × Value)
fields end = []
fields (field k v fs) = (k, v) ∷ fields fs

-- `Object.entries(data)`; `none` is the TypeError at null.
unfoldable pub object_entries : Value → Option (List (Text × Value))
unfolding index_items index_chars fields
object_entries null = none
object_entries (bool b) = some []
object_entries (num s) = some []
object_entries (str s) = some (index_chars 0 s)
object_entries (arr vs) = some (index_items 0 vs)
object_entries (obj fs) = some (fields fs)

find_field : Text → Fields → Option Value
find_field k end = none
find_field k (field j v fs) = if same j k then some v else find_field k fs

-- `data.name` for a name that only objects can have: the outer `none` is the TypeError at null, the
-- inner one is undefined.
unfoldable pub property : Text → Value → Option (Option Value)
unfolding find_field
property k null = none
property k (obj fs) = some (find_field k fs)
property k v = some none
