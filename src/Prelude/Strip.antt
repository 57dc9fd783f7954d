-- ===== src/Prelude/Strip.antt =====
-- Cutting the characters that pass a test from both ends of a text, as `trim()` and
-- `s.strip(chars)` do.
use mathlib.Core.Path.{◌≡◌, refl, sym, ap, ◌∙◌}
use mathlib.Core.Logic.{inl, inr}
use mathlib.Core.Bool.{Bool, false}
use mathlib.Core.List.{[], ◌∷◌, ◌++◌, reverse, reverse-append, reverse-reverse}
use Prim.Native.Nat.{ℕ}
use gate_flow.Prelude.Tests.{if◌then◌else◌, Bool-cases}
use gate_flow.Prelude.Text.{Text}

unfoldable pub strip_start : (ℕ → Bool) → Text → Text
strip_start cut [] = []
strip_start cut (c ∷ s) = if cut c then strip_start cut s else c ∷ s

-- `s.rstrip(chars)`
unfoldable pub strip_end : (ℕ → Bool) → Text → Text
strip_end cut s = reverse (strip_start cut (reverse s))

unfoldable pub strip : (ℕ → Bool) → Text → Text
strip cut s = reverse (strip_start cut (reverse (strip_start cut s)))

module _ (cut : ℕ → Bool) where
  -- The text is empty or begins with a character that is kept.
  abbrev pub StartsPlain : Text → Type 0
  StartsPlain [] = Unit
  StartsPlain (c ∷ s) = cut c ≡ false

  pub strip_start-StartsPlain : (s : Text) → StartsPlain (strip_start cut s)
  unfolding strip_start
  strip_start-StartsPlain [] = tt
  strip_start-StartsPlain (c ∷ s) = elim (Bool-cases (cut c)) [
    | inl e ↦ rw e (strip_start-StartsPlain s)
    | inr e ↦ rw e (e)
  ]

  pub strip_start_plain : (s : Text) → StartsPlain s → strip_start cut s ≡ s
  unfolding strip_start
  strip_start_plain [] h = refl
  strip_start_plain (c ∷ s) h = rw h

  -- What is cut off stands in front.
  strip_start-suffix : (s : Text) → (front : Text) × (s ≡ front ++ strip_start cut s)
  unfolding strip_start
  strip_start-suffix [] = ([], refl)
  strip_start-suffix (c ∷ s) = elim (Bool-cases (cut c)) [
    | inl e ↦ let (front, eq) = strip_start-suffix s in (c ∷ front, rw e (ap (◌∷◌ c) eq))
    | inr e ↦ ([], rw e)
  ]

  pub StartsPlain-prefix : (s t : Text) → StartsPlain (s ++ t) → StartsPlain s
  StartsPlain-prefix [] t h = tt
  StartsPlain-prefix (c ∷ s) t h = h

  -- Of a text that begins plain, cutting the end leaves a text that begins plain.
  strip_end-StartsPlain :
      (s : Text) → StartsPlain s → StartsPlain (reverse (strip_start cut (reverse s)))
  strip_end-StartsPlain s h =
      let (front, eq) = strip_start-suffix (reverse s) in
      let e : reverse (strip_start cut (reverse s)) ++ reverse front ≡ s =
        sym (reverse-append front (strip_start cut (reverse s)))
        ∙ ap reverse (sym eq)
        ∙ reverse-reverse s in
      StartsPlain-prefix _ (reverse front) (rw e h)

  -- A stripped text begins and ends with characters that are kept.
  pub strip-StartsPlain :
      (s : Text) → StartsPlain (strip cut s) × StartsPlain (reverse (strip cut s))
  unfolding strip
  strip-StartsPlain s = (
    strip_end-StartsPlain (strip_start cut s) (strip_start-StartsPlain s),
    rw (reverse-reverse (strip_start cut (reverse (strip_start cut s))))
        (strip_start-StartsPlain (reverse (strip_start cut s))),
  )

  pub strip_plain : (s : Text) → StartsPlain s → StartsPlain (reverse s) → strip cut s ≡ s
  unfolding strip
  strip_plain s h k =
      rw (strip_start_plain s h, strip_start_plain (reverse s) k) (reverse-reverse s)

  pub strip_idempotent : (s : Text) → strip cut (strip cut s) ≡ strip cut s
  strip_idempotent s = let (h, k) = strip-StartsPlain s in strip_plain (strip cut s) h k
