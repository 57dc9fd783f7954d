-- ===== src/Cache/Recency.antt =====
-- Which entries stay: the order of the dictionary is the order of last use.
use gate_flow.Prelude.{
  ℕ, ◌≡◌, ◌≤◌, ◌<◌, ◌+◌, inl, inr, refl, ◌∙◌, false, Option, none, some, List, [], ◌∷◌, ◌++◌, arith,
  ltb, length, length-append, All, if◌then◌else◌, Bool-cases,
}
use gate_flow.Prelude.Text.{Text, same, eq_of_same}
use gate_flow.Cache.{
  Entry, Data, Settings, find, remove, move_to_end, get_entry, get, evict, set, delete, Op, get_op,
  set_op, delete_op, clear_op, apply, run,
}
use gate_flow.Cache.Entries.{move_to_end-assign}
use gate_flow.Cache.Bounds.{length-remove-le}
use gate_flow.Cache.Kept.{find-remove, find_other}

module _ {ℓ} {A : Type ℓ} (k : Text) where
  -- How many entries stand behind that of `k`.
  unfoldable pub behind : Data A → ℕ
  behind [] = 0
  behind ((j, e) ∷ d) = if same j k then length d else behind d

  behind-remove : (j : Text) (d : Data A) → same j k ≡ false → behind (remove j d) ≤ behind d
  unfolding behind remove
  behind-remove j [] n = omega arith
  behind-remove j ((i, e) ∷ d) n = elim (Bool-cases (same i j)) [
    | inl t ↦ let other : same i k ≡ false = rw (eq_of_same i j t) n in rw (t, other) (omega arith)
    | inr t ↦
        rw (t, behind)
          (elim (Bool-cases (same i k)) [
            | inl u ↦ rw u (length-remove-le j d)
            | inr u ↦ rw u (behind-remove j d n)
          ])
  ]

  behind-append :
      (j : Text) (e : Entry A) (d : Data A)
      → same j k ≡ false
      → behind (d ++ (j, e) ∷ []) ≤ behind d + 1
  unfolding behind
  behind-append j e [] n = ground (arith, n)
  behind-append j e ((i, f) ∷ d) n =
      ground (arith, n, behind-append j e d n, length-append d ((j, e) ∷ []))

  -- The entry `e` is there, with at most `n` others behind it.
  abbrev pub Stays : Entry A → ℕ → Data A → Type ℓ
  Stays e n d = (find k d ≡ some e) × (behind d ≤ n)

  moved-Stays :
      (e f : Entry A) (j : Text) (n : ℕ) (d : Data A)
      → same j k ≡ false
      → Stays e n d
      → Stays e (n + 1) (remove j d ++ (j, f) ∷ [])
  moved-Stays e f j n d h s = (
    find_other k j f (remove j d) h ∙ find-remove k j d h ∙ s.0,
    omega (arith, behind-append j f (remove j d) h, behind-remove j d h, s.1),
  )

  evict-Stays : (e : Entry A) (m n : ℕ) (d : Data A) → n < m → Stays e n d → Stays e n (evict m d)
  unfolding find behind evict
  evict-Stays e m n [] h s = s
  evict-Stays e m n ((j, f) ∷ d) h s = elim (Bool-cases (ltb m (length ((j, f) ∷ d)))) [
    | inr t ↦ rw t (s)
    | inl t ↦ rw t (elim (Bool-cases (same j k)) [
      | inl u ↦ let le : length d ≤ n = rw u at (s.1) in ground (arith, t, le, h)
      | inr u ↦ evict-Stays e m n d h (rw u at s)
    ])
  ]

  get_entry-Stays :
      (now : ℕ) (e : Entry A) (j : Text) (o : Option (Entry A)) (n : ℕ) (d : Data A)
      → find j d ≡ o
      → same j k ≡ false
      → Stays e n d
      → Stays e (n + 1) (get_entry now j o d).0
  unfolding get_entry move_to_end
  get_entry-Stays now e j none n d f h s = (s.0, omega (arith, s.1))
  get_entry-Stays now e j (some g) n d f h s = elim (Bool-cases (ltb g.expires now)) [
    | inl t ↦ rw t (find-remove k j d h ∙ s.0, omega (arith, behind-remove j d h, s.1))
    | inr t ↦ rw (t, f) (moved-Stays e g j n d h s)
  ]

  -- A call that uses or deletes another key.
  abbrev pub IsElsewhere : Op A → Type 0
  IsElsewhere (get_op j) = same j k ≡ false
  IsElsewhere (set_op j v) = same j k ≡ false
  IsElsewhere (delete_op j) = same j k ≡ false
  IsElsewhere clear_op = ⊥

  module _ (s : Settings) where
    apply-Stays :
        (now : ℕ) (e : Entry A) (op : Op A) (n : ℕ) (d : Data A)
        → n + 1 < s.maxsize
        → IsElsewhere op
        → Stays e n d
        → Stays e (n + 1) (apply s now op d)
    unfolding apply get set delete
    apply-Stays now e (get_op j) n d m h p = get_entry-Stays now e j (find j d) n d refl h p
    apply-Stays now e (set_op j v) n d m h p =
        let f : Entry A = record { value = v; expires = now + s.ttl } in
        rw (move_to_end-assign j f d) (
          evict-Stays e s.maxsize (n + 1) (remove j d ++ (j, f) ∷ []) m (moved-Stays e f j n d h p))
    apply-Stays now e (delete_op j) n d m h p =
        (find-remove k j d h ∙ p.0, omega (arith, behind-remove j d h, p.1))
    apply-Stays now e clear_op n d m h p = absurd h

    -- An entry with at most `n` others behind it stays where `n` and the number of calls, all of
    -- them for other keys and none a `clear`, are together below `maxsize`.
    recent_stays :
        (now : ℕ) (e : Entry A) (ops : List (ℕ × Op A)) (n : ℕ) (d : Data A)
        → n + length ops < s.maxsize
        → All (λ c. IsElsewhere c.1) ops
        → find k d ≡ some e
        → behind d ≤ n
        → find k (run s now ops d) ≡ some e
    unfolding run
    recent_stays now e [] n d m h f b = f
    recent_stays now e ((wait, op) ∷ ops) n d m h f b =
        let p = apply-Stays (now + wait) e op n d (omega (arith, m)) h.0 (f, b) in
        recent_stays (now + wait) e ops (n + 1) (apply s (now + wait) op d) (omega (arith, m)) h.1
          p.0 p.1
