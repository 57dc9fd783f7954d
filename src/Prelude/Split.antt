-- ===== src/Prelude/Split.antt =====
-- `s.split(sep)` for a separator of one character, and its inverse `sep.join(parts)`.
use Prim.Native.Nat.{ℕ}
use mathlib.Core.Path.{◌≡◌, refl, ap}
use mathlib.Core.Logic.{◌≢◌, inl, inr}
use mathlib.Core.List.{List, [], ◌∷◌, ◌++◌}
use native.Mathlib.Omega.{arith}
use gate_flow.Prelude.Tests.{◌==◌, if◌then◌else◌, Bool-cases}
use gate_flow.Prelude.Lists.{All}
use gate_flow.Prelude.Text.{Text}

-- `c` in front of the first part.
abbrev pub prepend : ℕ → List Text → List Text
prepend c [] = (c ∷ []) ∷ []
prepend c (p ∷ ps) = (c ∷ p) ∷ ps

unfoldable pub split_on : ℕ → Text → List Text
split_on sep [] = [] ∷ []
split_on sep (c ∷ s) = let rest = split_on sep s in if c == sep then [] ∷ rest else prepend c rest

unfoldable pub join_with : ℕ → List Text → Text
join_with sep [] = []
join_with sep (p ∷ []) = p
join_with sep (p ∷ q ∷ ps) = p ++ sep ∷ join_with sep (q ∷ ps)

-- The text before the first `sep`, and the text behind it.
unfoldable pub before : ℕ → Text → Text
before sep [] = []
before sep (c ∷ s) = if c == sep then [] else c ∷ before sep s

unfoldable pub after : ℕ → Text → Text
after sep [] = []
after sep (c ∷ s) = if c == sep then s else after sep s

abbrev pub Without : ℕ → Text → Type 0
Without sep s = All (λ c. c ≢ sep) s

pub split_on_whole : (sep : ℕ) (s : Text) → Without sep s → split_on sep s ≡ s ∷ []
unfolding split_on
split_on_whole sep [] h = refl
split_on_whole sep (c ∷ s) h = ground (arith, split_on_whole sep s h.1)

pub split_on-append :
    (sep : ℕ) (s t : Text) → Without sep s → split_on sep (s ++ sep ∷ t) ≡ s ∷ split_on sep t
unfolding split_on
split_on-append sep [] t h = ground arith
split_on-append sep (c ∷ s) t h = ground (arith, split_on-append sep s t h.1)

pub before-append : (sep : ℕ) (s t : Text) → Without sep s → before sep (s ++ sep ∷ t) ≡ s
unfolding before
before-append sep [] t h = ground arith
before-append sep (c ∷ s) t h = ground (arith, before-append sep s t h.1)

pub after-append : (sep : ℕ) (s t : Text) → Without sep s → after sep (s ++ sep ∷ t) ≡ t
unfolding after
after-append sep [] t h = ground arith
after-append sep (c ∷ s) t h = ground (arith, after-append sep s t h.1)

prepend-Without :
    (sep c : ℕ) (ps : List Text) → c ≢ sep → All (Without sep) ps → All (Without sep) (prepend c ps)
prepend-Without sep c [] h k = ((h, tt), tt)
prepend-Without sep c (p ∷ ps) h k = ((h, k.0), k.1)

-- No part holds the separator.
pub split_on-Without : (sep : ℕ) (s : Text) → All (Without sep) (split_on sep s)
unfolding split_on
split_on-Without sep [] = (tt, tt)
split_on-Without sep (c ∷ s) = elim (Bool-cases (c == sep)) [
  | inl e ↦ rw e (tt, split_on-Without sep s)
  | inr e ↦ rw e (prepend-Without sep c (split_on sep s) (ground arith) (split_on-Without sep s))
]

prepend-ne-nil : (c : ℕ) (ps : List Text) → prepend c ps ≢ []
prepend-ne-nil c [] = cc
prepend-ne-nil c (p ∷ ps) = cc

-- A split always has a first part.
pub split_on-ne-nil : (sep : ℕ) (s : Text) → split_on sep s ≢ []
unfolding split_on
split_on-ne-nil sep [] = cc
split_on-ne-nil sep (c ∷ s) = ground (arith, prepend-ne-nil c (split_on sep s))

join_with-cut :
    (sep : ℕ) (ps : List Text) → ps ≢ [] → join_with sep ([] ∷ ps) ≡ sep ∷ join_with sep ps
unfolding join_with
join_with-cut sep [] h = absurd (h refl)
join_with-cut sep (p ∷ ps) h = refl

join_with-prepend :
    (sep c : ℕ) (ps : List Text) → join_with sep (prepend c ps) ≡ c ∷ join_with sep ps
unfolding join_with
join_with-prepend sep c [] = refl
join_with-prepend sep c (p ∷ []) = refl
join_with-prepend sep c (p ∷ q ∷ ps) = refl

-- Joining the parts gives the text back.
pub join_with-split_on : (sep : ℕ) (s : Text) → join_with sep (split_on sep s) ≡ s
unfolding split_on
join_with-split_on sep [] = unfold join_with in refl
join_with-split_on sep (c ∷ s) = elim (Bool-cases (c == sep)) [
  | inl e ↦
      rw (e, join_with-cut sep (split_on sep s) (split_on-ne-nil sep s), join_with-split_on sep s)
        (ap (λ d. d ∷ s) (ground arith))
  | inr e ↦ rw (e, join_with-prepend, join_with-split_on sep s)
]

-- Splitting what was joined gives the parts back, if none holds the separator.
pub split_on-join_with :
    (sep : ℕ) (p : Text) (ps : List Text)
    → All (Without sep) (p ∷ ps)
    → split_on sep (join_with sep (p ∷ ps)) ≡ p ∷ ps
unfolding join_with
split_on-join_with sep p [] h = split_on_whole sep p h.0
split_on-join_with sep p (q ∷ ps) h =
    rw (split_on-append sep p (join_with sep (q ∷ ps)) h.0, split_on-join_with sep q ps h.1)
