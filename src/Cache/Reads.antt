-- ===== src/Cache/Reads.antt =====
-- The cache as a map without bounds that may forget.
use mathlib.Core.Path.{subst}
use gate_flow.Prelude.{
  ℕ, ◌≡◌, ◌<◌, ◌+◌, inl, inr, refl, ap, ◌∙◌, false, Option, none, some, List, [], ◌∷◌, ◌++◌, arith,
  ltb, leb, length, if◌then◌else◌, Bool-cases,
}
use gate_flow.Prelude.Text.{Text, same, eq_of_same}
use gate_flow.Cache.{
  Entry, Data, Settings, find, remove, get_entry, get, evict, set, delete, clear, Op, get_op,
  set_op, delete_op, clear_op, apply, run,
}
use gate_flow.Cache.Entries.{
  IsAbsent, HasDistinctKeys, remove-IsAbsent, remove-HasDistinctKeys, append-HasDistinctKeys,
  move_to_end-assign,
}
use gate_flow.Cache.Bounds.{IsValid, apply-IsValid, IsValid-later, duration}
use gate_flow.Cache.Kept.{
  IsPart, IsPart-trans, find_absent, find-remove, find_last, find_other, find-evict, get-find,
}

-- What a map that keeps everything has for the key: the entry of the last `set`, if no `delete` or
-- `clear` came after it.
module _ {ℓ} {A : Type ℓ} (s : Settings) (k : Text) where
  unfoldable pub note : ℕ → Op A → Option (Entry A) → Option (Entry A)
  note now (get_op j) last = last
  note now (set_op j v) last =
      if same j k then some (record { value = v; expires = now + s.ttl }) else last
  note now (delete_op j) last = if same j k then none else last
  note now clear_op last = none

  unfoldable pub latest : ℕ → List (ℕ × Op A) → Option (Entry A) → Option (Entry A)
  latest now [] last = last
  latest now ((wait, op) ∷ ops) last = latest (now + wait) ops (note (now + wait) op last)

  set-find :
      (now : ℕ) (j : Text) (v : A) (d : Data A) (last : Option (Entry A))
      → HasDistinctKeys d
      → IsPart (find k d) last
      → IsPart (find k (set s now j v d)) (note now (set_op j v) last)
  unfolding set note
  set-find now j v d last h p =
      let e : Entry A = record { value = v; expires = now + s.ttl } in
      let absent = remove-IsAbsent j d h in
      let kept : IsPart (find k (evict s.maxsize (remove j d ++ (j, e) ∷ [])))
          (find k (remove j d ++ (j, e) ∷ [])) =
        find-evict k s.maxsize (remove j d ++ (j, e) ∷ [])
          (append-HasDistinctKeys j e (remove j d) absent (remove-HasDistinctKeys j d h)) in
      rw (move_to_end-assign j e d) (elim (Bool-cases (same j k)) [
        | inl t ↦
            let last_one : find k (remove j d ++ (j, e) ∷ []) ≡ some e =
              subst (λ i. find i (remove j d ++ (j, e) ∷ []) ≡ some e) (eq_of_same j k t)
                (find_last j e (remove j d) absent) in
            rw t (rw last_one at kept)
        | inr t ↦
            let other : find k (remove j d ++ (j, e) ∷ []) ≡ find k d =
              find_other k j e (remove j d) t ∙ find-remove k j d t in
            rw t (IsPart-trans _ _ _ (rw other at kept) p)
      ])

  delete-find :
      (now : ℕ) (j : Text) (d : Data A) (last : Option (Entry A))
      → HasDistinctKeys d
      → IsPart (find k d) last
      → IsPart (find k (delete j d)) (note now (delete_op j) last)
  unfolding delete note
  delete-find now j d last h p = elim (Bool-cases (same j k)) [
    | inl t ↦ rw t (
        inl (
          subst (λ i. find i (remove j d) ≡ none) (eq_of_same j k t)
            (find_absent j (remove j d) (remove-IsAbsent j d h))))
    | inr t ↦ rw (t, find-remove k j d t) p
  ]

  apply-IsPart :
      (now : ℕ) (op : Op A) (d : Data A) (last : Option (Entry A))
      → HasDistinctKeys d
      → IsPart (find k d) last
      → IsPart (find k (apply s now op d)) (note now op last)
  unfolding apply get note clear find
  apply-IsPart now (get_op j) d last h p =
      IsPart-trans _ _ _ (get-find now k j (find j d) d h refl) p
  apply-IsPart now (set_op j v) d last h p = set-find now j v d last h p
  apply-IsPart now (delete_op j) d last h p = delete-find now j d last h p
  apply-IsPart now clear_op d last h p = inl refl

  run-IsPart :
      (now : ℕ) (ops : List (ℕ × Op A)) (d : Data A) (last : Option (Entry A))
      → IsValid s now d
      → IsPart (find k d) last
      → IsPart (find k (run s now ops d)) (latest now ops last)
  unfolding run latest
  run-IsPart now [] d last v p = p
  run-IsPart now ((wait, op) ∷ ops) d last v p =
      let v' = IsValid-later s now wait d v in
      run-IsPart (now + wait) ops (apply s (now + wait) op d) (note (now + wait) op last)
        (apply-IsValid s (now + wait) op d v') (apply-IsPart (now + wait) op d last v'.keys p)

-- The value of an entry that has not expired.
unfoldable pub fresh_value {ℓ} : {A : Type ℓ} → ℕ → Option (Entry A) → Option A
fresh_value now none = none
fresh_value now (some e) = if ltb e.expires now then none else some e.value

module _ {ℓ} {A : Type ℓ} where
  get_entry-value :
      (now : ℕ) (k : Text) (o : Option (Entry A)) (d : Data A)
      → (get_entry now k o d).1 ≡ fresh_value now o
  unfolding get_entry fresh_value
  get_entry-value now k none d = refl
  get_entry-value now k (some e) d = elim (Bool-cases (ltb e.expires now)) [
    | inl t ↦ rw t refl
    | inr t ↦ rw t refl
  ]

  fresh_value-IsPart :
      (now : ℕ) (o l : Option (Entry A))
      → IsPart o l
      → IsPart (fresh_value now o) (fresh_value now l)
  fresh_value-IsPart now o l (inl e) = inl (ap (fresh_value now) e ∙ unfold fresh_value in refl)
  fresh_value-IsPart now o l (inr e) = inr (ap (fresh_value now) e)

  -- After any calls on an empty cache, whatever was evicted: a `get` returns nothing, or exactly
  -- what a map that keeps everything would return, the value of the last `set` while its time to
  -- live runs.
  pub get-latest :
      (s : Settings) (now wait : ℕ) (k : Text) (ops : List (ℕ × Op A))
      → let later = now + duration s ops + wait in
        IsPart (get later k (run s now ops [])).1 (fresh_value later (latest s k now ops none))
  unfolding get
  get-latest s now wait k ops =
      let later = now + duration s ops + wait in
      let p =
        run-IsPart s k now ops [] none (record { keys = tt; size = omega arith; times = tt })
          (inl (unfold find in refl)) in
      rw (get_entry-value later k (find k (run s now ops [])) (run s now ops []))
        (fresh_value-IsPart later (find k (run s now ops [])) (latest s k now ops none) p)

  find_last-evict :
      (m : ℕ) (k : Text) (e : Entry A) (d : Data A)
      → 0 < m
      → IsAbsent k d
      → find k (evict m (d ++ (k, e) ∷ [])) ≡ some e
  unfolding evict
  find_last-evict m k e [] p h =
      let keeps : ltb m 1 ≡ false = ground (arith, p) in rw keeps (find_last k e [] tt)
  find_last-evict m k e (f ∷ d) p h = elim (Bool-cases (ltb m (length (f ∷ (d ++ (k, e) ∷ []))))) [
    | inl t ↦ rw t (find_last-evict m k e d p h.1)
    | inr t ↦ rw t (find_last k e (f ∷ d) h)
  ]

  -- With room for one entry, and each key once, a value that was set is there for a whole time to
  -- live, the last tick included, and gone behind it.
  set_then_get :
      (s : Settings) (now wait : ℕ) (k : Text) (v : A) (d : Data A)
      → 0 < s.maxsize
      → HasDistinctKeys d
      → (get (now + wait) k (set s now k v d)).1 ≡ (if leb wait s.ttl then some v else none)
  unfolding get set
  set_then_get s now wait k v d p h =
      let e : Entry A = record { value = v; expires = now + s.ttl } in
      let found : find k (evict s.maxsize (remove k d ++ (k, e) ∷ [])) ≡ some e =
        find_last-evict s.maxsize k e (remove k d) p (remove-IsAbsent k d h) in
      rw (move_to_end-assign k e d, get_entry-value, found) (unfold fresh_value in ground arith)
