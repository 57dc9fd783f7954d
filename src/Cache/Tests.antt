-- ===== src/Cache/Tests.antt =====
-- Runs of the cache, and its theorems at concrete inputs.
use gate_flow.Prelude.{ℕ, ◌+◌, ◌≡◌, refl, none, some, List, [], ◌∷◌, arith}
use gate_flow.Prelude.Text.{Text, codes, same}
use gate_flow.Cache.{
  Data, Settings, find, remove, assign, move_to_end, get_entry, get, evict, set, delete, clear, Op,
  get_op, set_op, apply, run,
}
use gate_flow.Cache.Bounds.{IsValid, duration, run-IsValid}
use gate_flow.Cache.Kept.{IsPart}
use gate_flow.Cache.Reads.{latest, fresh_value, get-latest}

abbrev a : Text
a = codes "a"

abbrev b : Text
b = codes "b"

abbrev c : Text
c = codes "c"

abbrev two : Settings
two = record { ttl = 10; maxsize = 2 }

-- `a` is read, so `b` is the entry that makes room for `c`.
abbrev calls : List (ℕ × Op ℕ)
calls = (0, set_op a 1) ∷ (1, set_op b 2) ∷ (1, get_op a) ∷ (1, set_op c 3) ∷ []

cache_runs :
    (run two 0 calls []
      ≡ (a, record { value = 1; expires = 10 }) ∷ (c, record { value = 3; expires = 13 }) ∷ [])
    × ((get 10 a (run two 0 calls [])).1 ≡ some 1)
    × (((get 11 a (run two 0 calls [])).1 ≡ none) × ((get 4 b (run two 0 calls [])).1 ≡ none))
unfolding same find remove assign move_to_end get_entry get evict set delete clear apply run
cache_runs = (refl, refl, (refl, refl))

run-IsValid_example : IsValid two (0 + duration two calls) (run two 0 calls [])
run-IsValid_example =
    run-IsValid two 0 calls [] (record { keys = tt; size = omega arith; times = tt })

get-latest_example :
    let later = 0 + duration two calls + 2 in
    IsPart (get later b (run two 0 calls [])).1 (fresh_value later (latest two b 0 calls none))
get-latest_example = get-latest two 0 2 b calls

abbrev held : Data ℕ
held = (a, record { value = 1; expires = 10 }) ∷ (b, record { value = 3; expires = 13 }) ∷ []
