-- ===== src/Portal/Loop/Parked.antt =====
-- The table of parked handlers.
use gate_flow.Prelude.{
  ℕ, ◌+◌, ◌≡◌, ◌≢◌, ◌<◌, refl, inl, inr, Option, none, some, List, [], ◌∷◌, arith, ◌==◌, All,
  Bool-cases,
}
use gate_flow.Portal.Loop.{Await, waiting, resume}

abbrev pub Parked : Type 0
Parked = List (ℕ × Await)

abbrev pub IsAbsent : ℕ → Parked → Type 0
IsAbsent id ps = All (λ p. p.0 ≢ id) ps

abbrev pub HasDistinctIds : Parked → Type 0
HasDistinctIds [] = Unit
HasDistinctIds (p ∷ ps) = IsAbsent p.0 ps × HasDistinctIds ps

abbrev pub AllBelow : ℕ → Parked → Type 0
AllBelow n ps = All (λ p. p.0 < n) ps

waiting_absent : (id : ℕ) (ps : Parked) → IsAbsent id ps → waiting id ps ≡ none
unfolding waiting
waiting_absent id [] h = refl
waiting_absent id (p ∷ ps) h = ground (arith, waiting_absent id ps h.1)

pub IsAbsent-below : (n : ℕ) (ps : Parked) → AllBelow n ps → IsAbsent n ps
IsAbsent-below n [] h = tt
IsAbsent-below n (p ∷ ps) h = (omega (arith, h.0), IsAbsent-below n ps h.1)

pub AllBelow-suc : (n : ℕ) (ps : Parked) → AllBelow n ps → AllBelow (n + 1) ps
AllBelow-suc n [] h = tt
AllBelow-suc n (p ∷ ps) h = (omega (arith, h.0), AllBelow-suc n ps h.1)

-- Any property of the numbers is kept, whatever the handler does next.
resume-All :
    (P : ℕ → Type 0) (id : ℕ) (a : Option Await) (ps : Parked)
    → All (λ p. P p.0) ps
    → All (λ p. P p.0) (resume id a ps)
unfolding resume
resume-All P id a [] h = tt
resume-All P id none (p ∷ ps) h = elim (Bool-cases (p.0 == id)) [
  | inl e ↦ rw e h.1
  | inr e ↦ rw e (h.0, resume-All P id none ps h.1)
]
resume-All P id (some a) (p ∷ ps) h = elim (Bool-cases (p.0 == id)) [
  | inl e ↦ rw e (h.0, h.1)
  | inr e ↦ rw e (h.0, resume-All P id (some a) ps h.1)
]

pub resume-HasDistinctIds :
    (id : ℕ) (a : Option Await) (ps : Parked) → HasDistinctIds ps → HasDistinctIds (resume id a ps)
unfolding resume
resume-HasDistinctIds id a [] h = tt
resume-HasDistinctIds id none (p ∷ ps) h = elim (Bool-cases (p.0 == id)) [
  | inl e ↦ rw e h.1
  | inr e ↦ rw e (resume-All (λ j. j ≢ p.0) id none ps h.0, resume-HasDistinctIds id none ps h.1)
]
resume-HasDistinctIds id (some a) (p ∷ ps) h = elim (Bool-cases (p.0 == id)) [
  | inl e ↦ rw e (h.0, h.1)
  | inr e ↦
      rw e (resume-All (λ j. j ≢ p.0) id (some a) ps h.0, resume-HasDistinctIds id (some a) ps h.1)
]

pub resume-AllBelow :
    (n id : ℕ) (a : Option Await) (ps : Parked) → AllBelow n ps → AllBelow n (resume id a ps)
resume-AllBelow n = resume-All (λ j. j < n)

pub waiting-resume-none :
    (id : ℕ) (ps : Parked) → HasDistinctIds ps → waiting id (resume id none ps) ≡ none
unfolding resume waiting
waiting-resume-none id [] h = refl
waiting-resume-none id (p ∷ ps) h = elim (Bool-cases (p.0 == id)) [
  | inl e ↦ rw e (waiting_absent id ps (let q : p.0 ≡ id = ground arith in rw q at (h.0)))
  | inr e ↦ rw (e, waiting) (rw e (waiting-resume-none id ps h.1))
]

pub waiting-resume-some :
    (id : ℕ) (a b : Await) (ps : Parked)
    → waiting id ps ≡ some a
    → waiting id (resume id (some b) ps) ≡ some b
unfolding waiting resume
waiting-resume-some id a b [] h = cc
waiting-resume-some id a b (p ∷ ps) h = ground (arith, waiting-resume-some id a b ps)
