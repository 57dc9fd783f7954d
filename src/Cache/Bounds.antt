-- ===== src/Cache/Bounds.antt =====
-- The cache stays within its bounds.
use gate_flow.Prelude.{
  ℕ, ◌≡◌, ◌≤◌, ◌+◌, inl, inr, refl, Option, none, some, List, [], ◌∷◌, ◌++◌, arith, ltb, length,
  length-append, All, All-append, All-map, Bool-cases,
}
use gate_flow.Prelude.Text.{Text, same}
use gate_flow.Cache.{
  Entry, Data, Settings, find, remove, move_to_end, get_entry, get, evict, set, delete, clear, Op,
  get_op, set_op, delete_op, clear_op, apply, run,
}
use gate_flow.Cache.Entries.{
  HasDistinctKeys, All-remove, All-evict, find-holds, remove-IsAbsent, remove-HasDistinctKeys,
  evict-HasDistinctKeys, append-HasDistinctKeys, move_to_end-assign,
}

module _ {ℓ} {A : Type ℓ} where
  length-evict : (m : ℕ) (d : Data A) → length (evict m d) ≤ m
  unfolding evict
  length-evict m [] = omega arith
  length-evict m (e ∷ d) = elim (Bool-cases (ltb m (length (e ∷ d)))) [
    | inl t ↦ rw t (length-evict m d)
    | inr t ↦ rw t (ground (arith, t))
  ]

  pub length-remove-le : (k : Text) (d : Data A) → length (remove k d) ≤ length d
  unfolding remove
  length-remove-le k [] = omega arith
  length-remove-le k ((j, e) ∷ d) = ground (arith, length-remove-le k d)

  length-remove :
      (k : Text) (e : Entry A) (d : Data A) → find k d ≡ some e → length (remove k d) + 1 ≡ length d
  unfolding find remove
  length-remove k e [] f = cc
  length-remove k e ((j, g) ∷ d) f = elim (Bool-cases (same j k)) [
    | inl t ↦ rw t (omega arith)
    | inr t ↦ rw t (omega (arith, length-remove k e d (rw t at f)))
  ]

module _ {ℓ} {A : Type ℓ} (s : Settings) where
  -- Each key once, no more entries than `maxsize`, and none that outlives a whole time to live.
  pub record IsValid (now : ℕ) (d : Data A) : Type 0 where
    pub keys : HasDistinctKeys d
    pub size : length d ≤ s.maxsize
    pub times : All (λ e. e.1.expires ≤ now + s.ttl) d

  pub IsValid-later : (now wait : ℕ) (d : Data A) → IsValid now d → IsValid (now + wait) d
  IsValid-later now wait d v = record {
    keys = v.keys;
    size = v.size;
    times = All-map (λ e h. omega (arith, h)) d v.times;
  }

  remove-IsValid : (now : ℕ) (k : Text) (d : Data A) → IsValid now d → IsValid now (remove k d)
  remove-IsValid now k d v = record {
    keys = remove-HasDistinctKeys k d v.keys;
    size = omega (arith, length-remove-le k d, v.size);
    times = All-remove (λ e. e.1.expires ≤ now + s.ttl) k d v.times;
  }

  moved-IsValid :
      (now : ℕ) (k : Text) (e : Entry A) (d : Data A)
      → find k d ≡ some e
      → IsValid now d
      → IsValid now (remove k d ++ (k, e) ∷ [])
  moved-IsValid now k e d f v = record {
    keys =
        append-HasDistinctKeys k e (remove k d) (remove-IsAbsent k d v.keys)
          (remove-HasDistinctKeys k d v.keys);
    size = omega (arith, length-append (remove k d) ((k, e) ∷ []), length-remove k e d f, v.size);
    times =
        All-append (λ e. e.1.expires ≤ now + s.ttl) (remove k d) ((k, e) ∷ [])
          (All-remove (λ e. e.1.expires ≤ now + s.ttl) k d v.times)
          (find-holds (λ e. e.1.expires ≤ now + s.ttl) k e d f v.times, tt);
  }

  get_entry-IsValid :
      (now : ℕ) (k : Text) (o : Option (Entry A)) (d : Data A)
      → find k d ≡ o
      → IsValid now d
      → IsValid now (get_entry now k o d).0
  unfolding get_entry move_to_end
  get_entry-IsValid now k none d f v = v
  get_entry-IsValid now k (some e) d f v = elim (Bool-cases (ltb e.expires now)) [
    | inl t ↦ rw t (remove-IsValid now k d v)
    | inr t ↦ rw (t, f) (moved-IsValid now k e d f v)
  ]

  set-IsValid :
      (now : ℕ) (k : Text) (a : A) (d : Data A) → IsValid now d → IsValid now (set s now k a d)
  unfolding set
  set-IsValid now k a d v =
      let e : Entry A = record { value = a; expires = now + s.ttl } in
      rw (move_to_end-assign k e d) (record {
        keys = evict-HasDistinctKeys s.maxsize (remove k d ++ (k, e) ∷ []) (
            append-HasDistinctKeys k e (remove k d) (remove-IsAbsent k d v.keys)
              (remove-HasDistinctKeys k d v.keys));
        size = length-evict s.maxsize (remove k d ++ (k, e) ∷ []);
        times =
            All-evict (λ e. e.1.expires ≤ now + s.ttl) s.maxsize (remove k d ++ (k, e) ∷ [])
              (All-append (λ e. e.1.expires ≤ now + s.ttl) (remove k d) ((k, e) ∷ [])
                (All-remove (λ e. e.1.expires ≤ now + s.ttl) k d v.times) (omega arith, tt));
      })

  pub apply-IsValid :
      (now : ℕ) (op : Op A) (d : Data A) → IsValid now d → IsValid now (apply s now op d)
  unfolding apply get delete clear
  apply-IsValid now (get_op k) d v = get_entry-IsValid now k (find k d) d refl v
  apply-IsValid now (set_op k a) d v = set-IsValid now k a d v
  apply-IsValid now (delete_op k) d v = remove-IsValid now k d v
  apply-IsValid now clear_op d v = record { keys = tt; size = omega arith; times = tt }

  -- The ticks that a run takes.
  unfoldable pub duration : List (ℕ × Op A) → ℕ
  duration [] = 0
  duration ((wait, op) ∷ ops) = wait + duration ops

  -- After any calls on a valid cache, such as the empty one, it has each key once, at most
  -- `maxsize` entries, and no entry whose time ends later than a whole time to live from now.
  pub run-IsValid :
      (now : ℕ) (ops : List (ℕ × Op A)) (d : Data A)
      → IsValid now d
      → IsValid (now + duration ops) (run s now ops d)
  unfolding run duration
  run-IsValid now [] d v = IsValid-later now 0 d v
  run-IsValid now ((wait, op) ∷ ops) d v =
      let e : now + wait + duration ops ≡ now + (wait + duration ops) = omega arith in
      rw e at (
        run-IsValid (now + wait) ops (apply s (now + wait) op d)
          (apply-IsValid (now + wait) op d (IsValid-later now wait d v)))
