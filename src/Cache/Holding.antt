-- ===== src/Cache/Holding.antt =====
-- A predicate on the entries of a cache under its methods.
use gate_flow.Prelude.{
  ℕ, ◌+◌, ◌≤◌, ◌≡◌, inl, inr, Option, none, some, [], ◌∷◌, ◌++◌, arith, ltb, All, All-append,
  Bool-cases, Option-cases,
}
use gate_flow.Prelude.Text.{Text}
use gate_flow.Cache.{Entry, Data, find, get_entry, get, set, delete, remove, evict, move_to_end}
use gate_flow.Cache
use gate_flow.Cache.Entries.{All-remove, All-evict, find-holds, move_to_end-assign}

module _ {ℓ κ} {A : Type ℓ} (P : Text × Entry A → Type κ) where
  pub get-All : (now : ℕ) (k : Text) (d : Data A) → All P d → All P (get now k d).0
  unfolding get get_entry move_to_end
  get-All now k d h = elim (Option-cases (find k d)) [
    | inl e ↦ rw e (h)
    | inr (e, f) ↦ elim (Bool-cases (ltb e.expires now)) [
      | inl t ↦ rw (f, get_entry, t) (All-remove P k d h)
      | inr t ↦
          rw (f, get_entry, t, f)
            (All-append P (remove k d) ((k, e) ∷ []) (All-remove P k d h)
              (find-holds P k e d f h, tt))
    ]
  ]

  pub set-All :
      (s : Cache.Settings) (now : ℕ) (k : Text) (a : A) (d : Data A)
      → P (k, record { value = a; expires = now + s.ttl })
      → All P d
      → All P (set s now k a d)
  unfolding set
  set-All s now k a d p h =
      let e : Entry A = record { value = a; expires = now + s.ttl } in
      rw (move_to_end-assign k e d) (
        All-evict P s.maxsize (remove k d ++ (k, e) ∷ [])
          (All-append P (remove k d) ((k, e) ∷ []) (All-remove P k d h) (p, tt)))

  -- What a look into the cache finds is the value of an entry whose time is not over.
  pub get-found :
      (now : ℕ) (k : Text) (a : A) (d : Data A)
      → (get now k d).1 ≡ some a
      → All P d
      → (e : Entry A) × (e.value ≡ a) × (now ≤ e.expires) × P (k, e)
  unfolding get get_entry
  get-found now k a d g h = elim (Option-cases (find k d)) [
    | inl e ↦ absurd (let no : ◌≡◌ {A = Option A} none (some a) = rw e at g in cc)
    | inr (e, f) ↦ found e f (rw f at g)
  ]
    where
      found :
          (e : Entry A)
          → find k d ≡ some e
          → (get_entry now k (some e) d).1 ≡ some a
          → (e : Entry A) × (e.value ≡ a) × (now ≤ e.expires) × P (k, e)
      found e f g = elim (Bool-cases (ltb e.expires now)) [
        | inl t ↦ absurd (let no : ◌≡◌ {A = Option A} none (some a) = rw t at g in cc)
        | inr t ↦
            let v : ◌≡◌ {A = Option A} (some e.value) (some a) = rw t at g in
            (e, cc, ground (arith, t), find-holds P k e d f h)
      ]
