-- ===== src/Cache/Entries.antt =====
-- The entries of the dictionary: which keys it has, and what its operations leave of them.
use gate_flow.Prelude.{
  ℕ, ◌≡◌, inl, inr, refl, ap, true, false, some, [], ◌∷◌, ◌++◌, ltb, length, All, All-append,
  Bool-cases,
}
use gate_flow.Prelude.Text.{Text, same, same_refl, eq_of_same}
use gate_flow.Cache.{Entry, Data, find, remove, assign, move_to_end, evict}

pub same-false_sym : (j k : Text) → same j k ≡ false → same k j ≡ false
same-false_sym j k h = elim (Bool-cases (same k j)) [
  | inl t ↦ let kj : k ≡ j = eq_of_same k j t in let r : same j k ≡ true = rw kj (same_refl j) in cc
  | inr t ↦ t
]

module _ {ℓ} {A : Type ℓ} where
  abbrev pub IsAbsent : Text → Data A → Type 0
  IsAbsent k d = All (λ e. same e.0 k ≡ false) d

  abbrev pub HasDistinctKeys : Data A → Type 0
  HasDistinctKeys [] = Unit
  HasDistinctKeys (e ∷ d) = IsAbsent e.0 d × HasDistinctKeys d

  pub All-remove {κ} :
      (P : Text × Entry A → Type κ) (k : Text) (d : Data A) → All P d → All P (remove k d)
  unfolding remove
  All-remove P k [] h = tt
  All-remove P k ((j, e) ∷ d) h = elim (Bool-cases (same j k)) [
    | inl t ↦ rw t (h.1)
    | inr t ↦ rw t (h.0, All-remove P k d h.1)
  ]

  pub All-evict {κ} :
      (P : Text × Entry A → Type κ) (m : ℕ) (d : Data A) → All P d → All P (evict m d)
  unfolding evict
  All-evict P m [] h = tt
  All-evict P m (e ∷ d) h = elim (Bool-cases (ltb m (length (e ∷ d)))) [
    | inl t ↦ rw t (All-evict P m d h.1)
    | inr t ↦ rw t (h)
  ]

  pub find-holds {κ} :
      (P : Text × Entry A → Type κ) (k : Text) (e : Entry A) (d : Data A)
      → find k d ≡ some e
      → All P d
      → P (k, e)
  unfolding find
  find-holds P k e [] f h = cc
  find-holds P k e ((j, g) ∷ d) f h = elim (Bool-cases (same j k)) [
    | inl t ↦
        let jk : j ≡ k = eq_of_same j k t in
        let ge : some g ≡ some e = rw t at f in
        let q : ◌≡◌ {A = Text × Entry A} (j, g) (k, e) = cc in rw q at (h.0)
    | inr t ↦ find-holds P k e d (rw t at f) h.1
  ]

  -- The key that is removed stands nowhere else.
  pub remove-IsAbsent : (k : Text) (d : Data A) → HasDistinctKeys d → IsAbsent k (remove k d)
  unfolding remove
  remove-IsAbsent k [] h = tt
  remove-IsAbsent k ((j, e) ∷ d) h = elim (Bool-cases (same j k)) [
    | inl t ↦ rw t (let jk : j ≡ k = eq_of_same j k t in rw jk at (h.0))
    | inr t ↦ rw t (t, remove-IsAbsent k d h.1)
  ]

  pub remove-HasDistinctKeys :
      (k : Text) (d : Data A) → HasDistinctKeys d → HasDistinctKeys (remove k d)
  unfolding remove
  remove-HasDistinctKeys k [] h = tt
  remove-HasDistinctKeys k ((j, e) ∷ d) h = elim (Bool-cases (same j k)) [
    | inl t ↦ rw t (h.1)
    | inr t ↦ rw t (All-remove (λ f. same f.0 j ≡ false) k d h.0, remove-HasDistinctKeys k d h.1)
  ]

  pub evict-HasDistinctKeys : (m : ℕ) (d : Data A) → HasDistinctKeys d → HasDistinctKeys (evict m d)
  unfolding evict
  evict-HasDistinctKeys m [] h = tt
  evict-HasDistinctKeys m (e ∷ d) h = elim (Bool-cases (ltb m (length (e ∷ d)))) [
    | inl t ↦ rw t (evict-HasDistinctKeys m d h.1)
    | inr t ↦ rw t (h)
  ]

  pub append-HasDistinctKeys :
      (k : Text) (e : Entry A) (d : Data A)
      → IsAbsent k d
      → HasDistinctKeys d
      → HasDistinctKeys (d ++ (k, e) ∷ [])
  append-HasDistinctKeys k e [] a h = (tt, tt)
  append-HasDistinctKeys k e ((j, f) ∷ d) a h = (
    All-append (λ g. same g.0 j ≡ false) d ((k, e) ∷ []) h.0 (same-false_sym j k a.0, tt),
    append-HasDistinctKeys k e d a.1 h.1,
  )

  find-assign : (k : Text) (e : Entry A) (d : Data A) → find k (assign k e d) ≡ some e
  unfolding find assign
  find-assign k e [] = rw (same_refl k) refl
  find-assign k e ((j, f) ∷ d) = elim (Bool-cases (same j k)) [
    | inl t ↦ rw (t, find) (rw t refl)
    | inr t ↦ rw (t, find) (rw t (find-assign k e d))
  ]

  remove-assign : (k : Text) (e : Entry A) (d : Data A) → remove k (assign k e d) ≡ remove k d
  unfolding remove assign
  remove-assign k e [] = rw (same_refl k) refl
  remove-assign k e ((j, f) ∷ d) = elim (Bool-cases (same j k)) [
    | inl t ↦ rw (t, remove) (rw t refl)
    | inr t ↦ rw (t, remove) (rw t (ap (◌∷◌ (j, f)) (remove-assign k e d)))
  ]

  -- An assignment that is moved to the end.
  pub move_to_end-assign :
      (k : Text) (e : Entry A) (d : Data A)
      → move_to_end k (assign k e d) ≡ remove k d ++ (k, e) ∷ []
  unfolding move_to_end
  move_to_end-assign k e d = rw (find-assign k e d, remove-assign k e d)
