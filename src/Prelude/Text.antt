-- ===== src/Prelude/Text.antt =====
-- Texts as lists of code points.
use Prim.Native.Nat.{ℕ}
use Prim.Native.Char.{code}
use Prim.Native.String.{String}
use mathlib.Core.Path.{◌≡◌, refl}
use mathlib.Core.Logic.{◌↔◌}
use mathlib.Core.Bool.{Bool, true, false, ◌&&◌}
use mathlib.Core.List.{List, [], ◌∷◌, ◌++◌}
use native.Mathlib.Omega.{arith}
use gate_flow.Prelude.Tests.{◌==◌, if◌then◌else◌}

abbrev pub Text : Type 0
Text = List ℕ

-- The code points of a literal.
abbrev pub codes : String → Text
codes String.[] = []
codes (String.◌∷◌ c s) = code c ∷ codes s

unfoldable pub same : Text → Text → Bool
same [] [] = true
same (a ∷ s) (b ∷ t) = (a == b) && same s t
same _ _ = false

pub same_refl : (s : Text) → same s s ≡ true
unfolding same
same_refl [] = refl
same_refl (a ∷ s) = ground (arith, same_refl s)

pub eq_of_same : (s t : Text) → same s t ≡ true → s ≡ t
unfolding same
eq_of_same [] [] h = refl
eq_of_same [] (b ∷ t) h = ground arith
eq_of_same (a ∷ s) [] h = ground arith
eq_of_same (a ∷ s) (b ∷ t) h = ground (arith, eq_of_same s t)

pub same_iff : (s t : Text) → (same s t ≡ true) ↔ (s ≡ t)
same_iff s t = (eq_of_same s t, λ e. rw e (same_refl t))

-- `s.startswith(p)`
unfoldable pub starts_with : Text → Text → Bool
starts_with [] s = true
starts_with (a ∷ p) [] = false
starts_with (a ∷ p) (b ∷ s) = (a == b) && starts_with p s

pub starts_with-append : (p s : Text) → starts_with p (p ++ s) ≡ true
unfolding starts_with
starts_with-append [] s = refl
starts_with-append (a ∷ p) s = ground (arith, starts_with-append p s)

pub append_of_starts_with : (p s : Text) → starts_with p s ≡ true → (r : Text) × (s ≡ p ++ r)
unfolding starts_with
append_of_starts_with [] s h = (s, refl)
append_of_starts_with (a ∷ p) [] h = ground arith
append_of_starts_with (a ∷ p) (b ∷ s) h =
    let (r, e) = append_of_starts_with p s (ground arith) in (r, ground arith)

-- `f[k] = v`, of a dictionary as a function.
abbrev pub update {ℓ} : {A : Type ℓ} → (Text → A) → Text → A → Text → A
update f k v j = if same k j then v else f j

pub update_self {ℓ} : {A : Type ℓ} (f : Text → A) (k : Text) (v : A) → update f k v k ≡ v
update_self f k v = rw (same_refl k) refl

pub update_other {ℓ} :
    {A : Type ℓ} (f : Text → A) (k j : Text) (v : A) → same k j ≡ false → update f k v j ≡ f j
update_other f k j v e = rw e refl
