-- ===== src/Cache/Kept.antt =====
-- What each method leaves of the entry of a key.
use mathlib.Core.Path.{subst}
use gate_flow.Prelude.{
  ℕ, ◌≡◌, ◌⊎◌, inl, inr, refl, sym, ◌∙◌, false, Option, none, some, [], ◌∷◌, ◌++◌, ltb, length,
  Bool-cases,
}
use gate_flow.Prelude.Text.{Text, same, same_refl, eq_of_same}
use gate_flow.Cache.{Entry, Data, find, remove, move_to_end, get_entry, evict}
use gate_flow.Cache.Entries.{IsAbsent, HasDistinctKeys, remove-IsAbsent}

-- The left one is missing, or both are the same.
abbrev pub IsPart {ℓ} : {A : Type ℓ} → Option A → Option A → Type ℓ
IsPart o l = (o ≡ none) ⊎ (o ≡ l)

pub IsPart-trans {ℓ} : {A : Type ℓ} (o p q : Option A) → IsPart o p → IsPart p q → IsPart o q
IsPart-trans o p q (inl e) k = inl e
IsPart-trans o p q (inr e) (inl f) = inl (e ∙ f)
IsPart-trans o p q (inr e) (inr f) = inr (e ∙ f)

module _ {ℓ} {A : Type ℓ} where
  pub find_absent : (k : Text) (d : Data A) → IsAbsent k d → find k d ≡ none
  unfolding find
  find_absent k [] h = refl
  find_absent k (e ∷ d) h = rw (h.0) (find_absent k d h.1)

  pub find-remove : (j k : Text) (d : Data A) → same k j ≡ false → find j (remove k d) ≡ find j d
  unfolding find remove
  find-remove j k [] n = refl
  find-remove j k ((i, e) ∷ d) n = elim (Bool-cases (same i k)) [
    | inl t ↦
        let ik : i ≡ k = eq_of_same i k t in let f : same i j ≡ false = rw ik n in rw (t, f) refl
    | inr t ↦
        rw (t, find)
          (elim (Bool-cases (same i j)) [ inl u ↦ rw u refl | inr u ↦ rw u (find-remove j k d n) ])
  ]

  pub find_last :
      (k : Text) (e : Entry A) (d : Data A) → IsAbsent k d → find k (d ++ (k, e) ∷ []) ≡ some e
  unfolding find
  find_last k e [] h = rw (same_refl k) refl
  find_last k e (f ∷ d) h = rw (h.0) (find_last k e d h.1)

  pub find_other :
      (j k : Text) (e : Entry A) (d : Data A)
      → same k j ≡ false
      → find j (d ++ (k, e) ∷ []) ≡ find j d
  unfolding find
  find_other j k e [] n = rw n refl
  find_other j k e ((i, f) ∷ d) n = elim (Bool-cases (same i j)) [
    | inl t ↦ rw t refl
    | inr t ↦ rw t (find_other j k e d n)
  ]

  -- Eviction keeps an entry or drops it.
  pub find-evict :
      (k : Text) (m : ℕ) (d : Data A) → HasDistinctKeys d → IsPart (find k (evict m d)) (find k d)
  unfolding find evict
  find-evict k m [] h = inl refl
  find-evict k m ((j, e) ∷ d) h = elim (Bool-cases (ltb m (length ((j, e) ∷ d)))) [
    | inr t ↦ rw t (inr refl)
    | inl t ↦ rw t (elim (Bool-cases (same j k)) [
      | inr u ↦ rw u (find-evict k m d h.1)
      | inl u ↦
          let jk : j ≡ k = eq_of_same j k u in
          let gone : find k d ≡ none = find_absent k d (rw jk at (h.0)) in
          inl (elim (find-evict k m d h.1) [ inl f ↦ f | inr f ↦ f ∙ gone ])
    ])
  ]

  -- A `get` leaves every entry as it is or drops one.
  pub get-find :
      (now : ℕ) (k j : Text) (o : Option (Entry A)) (d : Data A)
      → HasDistinctKeys d
      → find j d ≡ o
      → IsPart (find k (get_entry now j o d).0) (find k d)
  unfolding get_entry move_to_end
  get-find now k j none d h f = inr refl
  get-find now k j (some e) d h f = elim (Bool-cases (same j k)) [
    | inl t ↦
        let jk : j ≡ k = eq_of_same j k t in
        elim (Bool-cases (ltb e.expires now)) [
          | inl u ↦ rw u (
              inl (
                subst (λ i. find i (remove j d) ≡ none) jk
                  (find_absent j (remove j d) (remove-IsAbsent j d h))))
          | inr u ↦
              let last : find k (remove j d ++ (j, e) ∷ []) ≡ some e =
                subst (λ i. find i (remove j d ++ (j, e) ∷ []) ≡ some e) jk
                  (find_last j e (remove j d) (remove-IsAbsent j d h)) in
              let was : find k d ≡ some e = subst (λ i. find i d ≡ some e) jk f in
              rw (u, f) (inr (last ∙ sym was))
        ]
    | inr t ↦ elim (Bool-cases (ltb e.expires now)) [
      | inl u ↦ rw u (inr (find-remove k j d t))
      | inr u ↦ rw (u, f) (inr (find_other k j e (remove j d) t ∙ find-remove k j d t))
    ]
  ]
