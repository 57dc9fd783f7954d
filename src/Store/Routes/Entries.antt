-- ===== src/Store/Routes/Entries.antt =====
-- Rows and records by their prefix.
use gate_flow.Cache.Entries.{same-false_sym}
use gate_flow.Prelude.{
  ◌≡◌, refl, sym, inl, inr, false, none, some, List, [], ◌∷◌, if◌then◌else◌, Bool-cases,
}
use gate_flow.Prelude.Text.{Text, same, same_refl, eq_of_same}
use gate_flow.Router.{Routes, lookup}
use gate_flow.Store.Routes.{value_at, with_value, without_value}

pub lookup-value_at : (p : Text) (cache : Routes) → lookup p cache ≡ value_at p cache
unfolding lookup value_at
lookup-value_at p [] = refl
lookup-value_at p ((q, r) ∷ cache) = rw (lookup-value_at p cache) refl

module _ {ℓ} {A : Type ℓ} where
  pub value_at-with_value :
      (p q : Text) (a : A) (entries : List (Text × A))
      → value_at q (with_value p a entries) ≡ (if same p q then some a else value_at q entries)
  unfolding value_at with_value
  value_at-with_value p q a [] = refl
  value_at-with_value p q a ((k, b) ∷ entries) = elim (Bool-cases (same k p)) [
    | inl t ↦
        rw (t, eq_of_same k p t)
          (elim (Bool-cases (same p q)) [ inl u ↦ rw u refl | inr u ↦ rw u refl ])
    | inr f ↦ elim (Bool-cases (same k q)) [
      | inr u ↦ rw (f, u) (value_at-with_value p q a entries)
      | inl u ↦
          let other : same p q ≡ false = rw (sym (eq_of_same k q u)) (same-false_sym k p f) in
          rw (f, u, other) refl
    ]
  ]

  pub value_at-without_value :
      (p q : Text) (entries : List (Text × A))
      → value_at q (without_value p entries) ≡ (if same p q then none else value_at q entries)
  unfolding value_at without_value
  value_at-without_value p q [] = elim (Bool-cases (same p q)) [
    | inl u ↦ rw u refl
    | inr u ↦ rw u refl
  ]
  value_at-without_value p q ((k, b) ∷ entries) = elim (Bool-cases (same k p)) [
    | inl t ↦
        rw (t, value_at-without_value p q entries, eq_of_same k p t)
          (elim (Bool-cases (same p q)) [ inl u ↦ rw u refl | inr u ↦ rw u refl ])
    | inr f ↦ elim (Bool-cases (same k q)) [
      | inr u ↦ rw (f, u) (value_at-without_value p q entries)
      | inl u ↦
          let other : same p q ≡ false = rw (sym (eq_of_same k q u)) (same-false_sym k p f) in
          rw (f, u, other) refl
    ]
  ]

  pub empty_of-value_at :
      (entries : List (Text × A)) → ((p : Text) → value_at p entries ≡ none) → entries ≡ []
  unfolding value_at
  empty_of-value_at [] h = refl
  empty_of-value_at ((q, a) ∷ entries) h =
      absurd (let no : some a ≡ none = rw (same_refl q) at (h q) in cc)
