-- ===== src/Router/Order.antt =====
-- The sorted candidates: deeper prefixes first.
use gate_flow.Prelude.{
  ℕ, ◌≡◌, ◌≤◌, ◌⊎◌, inl, inr, true, false, Option, none, some, List, [], ◌∷◌, arith, All,
  Bool-cases,
}
use gate_flow.Prelude.Text.{Text}
use gate_flow.Router.{depth, goes_first, insert, sorted, covers, first_cover}

module _ {κ} (P : Text → Type κ) where
  All-insert : (p : Text) (ps : List Text) → P p → All P ps → All P (insert p ps)
  unfolding insert
  All-insert p [] h hs = (h, tt)
  All-insert p (q ∷ ps) h hs = elim (Bool-cases (goes_first q p)) [
    | inl e ↦ rw e (hs.0, All-insert p ps h hs.1)
    | inr e ↦ rw e (h, hs)
  ]

  pub All-sorted : (ps : List Text) → All P ps → All P (sorted ps)
  unfolding sorted
  All-sorted [] h = tt
  All-sorted (p ∷ ps) h = All-insert p (sorted ps) h.0 (All-sorted ps h.1)

  All-of_insert : (p : Text) (ps : List Text) → All P (insert p ps) → P p × All P ps
  unfolding insert
  All-of_insert p [] h = h
  All-of_insert p (q ∷ ps) h = elim (Bool-cases (goes_first q p)) [
    | inl e ↦
        let k : P q × All P (insert p ps) = rw e at h in
        let (a, b) = All-of_insert p ps k.1 in (a, (k.0, b))
    | inr e ↦ rw e at h
  ]

  pub All-of_sorted : (ps : List Text) → All P (sorted ps) → All P ps
  unfolding sorted
  All-of_sorted [] h = tt
  All-of_sorted (p ∷ ps) h = let (a, b) = All-of_insert p (sorted ps) h in (a, All-of_sorted ps b)

-- Each entry is at least as deep as those behind it.
abbrev pub IsDeepFirst : List Text → Type 0
IsDeepFirst [] = Unit
IsDeepFirst (p ∷ ps) = All (λ q. depth q ≤ depth p) ps × IsDeepFirst ps

goes_first-depth : (p q : Text) → goes_first p q ≡ true → depth q ≤ depth p
unfolding goes_first
goes_first-depth p q h = ground arith

not_first-depth : (p q : Text) → goes_first p q ≡ false → depth p ≤ depth q
unfolding goes_first
not_first-depth p q h = ground arith

All-le : (m n : ℕ) (ps : List Text) → m ≤ n → All (λ q. depth q ≤ m) ps → All (λ q. depth q ≤ n) ps
All-le m n [] h k = tt
All-le m n (p ∷ ps) h k = (omega (arith, h, k.0), All-le m n ps h k.1)

insert-IsDeepFirst : (p : Text) (ps : List Text) → IsDeepFirst ps → IsDeepFirst (insert p ps)
unfolding insert
insert-IsDeepFirst p [] h = (tt, tt)
insert-IsDeepFirst p (q ∷ ps) h = elim (Bool-cases (goes_first q p)) [
  | inl e ↦ rw e (
    All-insert (λ r. depth r ≤ depth q) p ps (goes_first-depth q p e) h.0,
    insert-IsDeepFirst p ps h.1,
  )
  | inr e ↦
      let d : depth q ≤ depth p = not_first-depth q p e in
      rw e ((d, All-le (depth q) (depth p) ps d h.0), h)
]

pub sorted-IsDeepFirst : (ps : List Text) → IsDeepFirst (sorted ps)
unfolding sorted
sorted-IsDeepFirst [] = tt
sorted-IsDeepFirst (p ∷ ps) = insert-IsDeepFirst p (sorted ps) (sorted-IsDeepFirst ps)

-- What the loop finds in `ps`: nothing covers, or a cover that is as deep as any.
abbrev pub IsDeepest : List Text → List Text → Option Text → Type 0
IsDeepest segments ps none = All (λ q. covers segments q ≡ false) ps
IsDeepest segments ps (some p) =
    (covers segments p ≡ true) × All (λ q. (covers segments q ≡ false) ⊎ (depth q ≤ depth p)) ps

weaken :
    (segments : List Text) (m : ℕ) (ps : List Text)
    → All (λ q. depth q ≤ m) ps
    → All (λ q. (covers segments q ≡ false) ⊎ (depth q ≤ m)) ps
weaken segments m [] h = tt
weaken segments m (p ∷ ps) h = (inr (h.0), weaken segments m ps h.1)

behind :
    (segments : List Text) (p : Text) (ps : List Text) (o : Option Text)
    → covers segments p ≡ false
    → IsDeepest segments ps o
    → IsDeepest segments (p ∷ ps) o
behind segments p ps none e h = (e, h)
behind segments p ps (some q) e h = (h.0, (inl e, h.1))

pub first_cover-IsDeepest :
    (segments : List Text) (ps : List Text)
    → IsDeepFirst ps
    → IsDeepest segments ps (first_cover segments ps)
unfolding first_cover
first_cover-IsDeepest segments [] h = tt
first_cover-IsDeepest segments (p ∷ ps) h = elim (Bool-cases (covers segments p)) [
  | inl e ↦ rw e (e, (inr (omega arith), weaken segments (depth p) ps h.0))
  | inr e ↦ rw e (behind segments p ps _ e (first_cover-IsDeepest segments ps h.1))
]

-- What holds of every entry holds of the one that is found.
pub first_cover-holds {κ} :
    (P : Text → Type κ) (segments : List Text) (ps : List Text) (p : Text)
    → All P ps
    → first_cover segments ps ≡ some p
    → P p
unfolding first_cover
first_cover-holds P segments [] p h e = cc
first_cover-holds P segments (q ∷ ps) p h e = elim (Bool-cases (covers segments q)) [
  | inl c ↦ let found : q ≡ p = ground (arith, c) in rw found at (h.0)
  | inr c ↦ first_cover-holds P segments ps p h.1 (rw c at e)
]
