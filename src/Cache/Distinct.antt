-- ===== src/Cache/Distinct.antt =====
-- The keys of a cache stay distinct under its methods.
use gate_flow.Prelude.{ℕ, ◌+◌, inl, inr, [], ◌∷◌, ◌++◌, ltb, Bool-cases, Option-cases}
use gate_flow.Prelude.Text.{Text}
use gate_flow.Cache.{Entry, Data, Settings, find, remove, get_entry, get, move_to_end, set}
use gate_flow.Cache.Entries.{
  HasDistinctKeys, remove-IsAbsent, remove-HasDistinctKeys, append-HasDistinctKeys,
  evict-HasDistinctKeys, move_to_end-assign,
}

module _ {ℓ} {A : Type ℓ} where
  moved-HasDistinctKeys :
      (k : Text) (e : Entry A) (d : Data A)
      → HasDistinctKeys d
      → HasDistinctKeys (remove k d ++ (k, e) ∷ [])
  moved-HasDistinctKeys k e d h =
      append-HasDistinctKeys k e (remove k d) (remove-IsAbsent k d h) (remove-HasDistinctKeys k d h)

  pub get-HasDistinctKeys :
      (now : ℕ) (k : Text) (d : Data A) → HasDistinctKeys d → HasDistinctKeys (get now k d).0
  unfolding get get_entry move_to_end
  get-HasDistinctKeys now k d h = elim (Option-cases (find k d)) [
    | inl e ↦ rw e (h)
    | inr (e, f) ↦ elim (Bool-cases (ltb e.expires now)) [
      | inl t ↦ rw (f, get_entry, t) (remove-HasDistinctKeys k d h)
      | inr t ↦ rw (f, get_entry, t, f) (moved-HasDistinctKeys k e d h)
    ]
  ]

  pub set-HasDistinctKeys :
      (s : Settings) (now : ℕ) (k : Text) (a : A) (d : Data A)
      → HasDistinctKeys d
      → HasDistinctKeys (set s now k a d)
  unfolding set
  set-HasDistinctKeys s now k a d h =
      let e : Entry A = record { value = a; expires = now + s.ttl } in
      rw (move_to_end-assign k e d) (
        evict-HasDistinctKeys s.maxsize (remove k d ++ (k, e) ∷ []) (moved-HasDistinctKeys k e d h))
