-- ===== src/Router/Methods.antt =====
-- The methods of a payload, as the admin API reads them.
use mathlib.Core.List.{reverse-cons}
use gate_flow.Prelude.{
  ℕ, ◌≡◌, ◌≢◌, refl, ap, ◌∙◌, inl, inr, Bool, true, false, List, [], ◌∷◌, ◌++◌, map, reverse, All,
  All-reverse, Bool-cases, arith,
}
use gate_flow.Prelude.Text.{Text, same}
use gate_flow.Prelude.Split.{split_on, Without, split_on-Without}
use gate_flow.Prelude.Strip.{strip, strip_start, StartsPlain, strip-StartsPlain, strip_plain}
use gate_flow.Http.{upper_char, upper}
use gate_flow.Cache.Entries.{same-false_sym}
use gate_flow.Auth.Address.{is_whitespace, comma, wildcard, entries, non_empty}
use gate_flow.Router.{has}
use gate_flow.Router.Records.{parse_methods}

-- A method as `parse_methods` leaves it, other than the wildcard.
pub record IsMethod (m : Text) : Type 0 where
  pub stripped : strip is_whitespace m ≡ m
  pub upper_case : upper m ≡ m
  pub one : Without comma m
  pub named : same m wildcard ≡ false

-- What the methods of a payload are.
upper_char-idempotent : (c : ℕ) → upper_char (upper_char c) ≡ upper_char c
unfolding upper_char
upper_char-idempotent c = ground arith

upper_char-whitespace : (c : ℕ) → is_whitespace (upper_char c) ≡ is_whitespace c
unfolding upper_char is_whitespace
upper_char-whitespace c = ground arith

upper_char-comma : (c : ℕ) → c ≢ comma → upper_char c ≢ comma
unfolding upper_char
upper_char-comma c h = ground (arith, h)

upper-idempotent : (s : Text) → upper (upper s) ≡ upper s
upper-idempotent [] = refl
upper-idempotent (c ∷ s) = rw (upper_char-idempotent c, upper-idempotent s) refl

upper-StartsPlain : (s : Text) → StartsPlain is_whitespace s → StartsPlain is_whitespace (upper s)
upper-StartsPlain [] h = tt
upper-StartsPlain (c ∷ s) h = upper_char-whitespace c ∙ h

upper-append : (s t : Text) → upper (s ++ t) ≡ upper s ++ upper t
upper-append [] t = refl
upper-append (c ∷ s) t = ap (◌∷◌ (upper_char c)) (upper-append s t)

reverse-upper : (s : Text) → reverse (upper s) ≡ upper (reverse s)
reverse-upper [] = refl
reverse-upper (c ∷ s) =
    rw
      (
        reverse-cons (upper_char c) (upper s),
        reverse-cons c s,
        reverse-upper s,
        upper-append (reverse s) (c ∷ []),
      )
      refl

upper-Without : (s : Text) → Without comma s → Without comma (upper s)
upper-Without [] h = tt
upper-Without (c ∷ s) h = (upper_char-comma c h.0, upper-Without s h.1)

strip_start-Without : (s : Text) → Without comma s → Without comma (strip_start is_whitespace s)
unfolding strip_start
strip_start-Without [] h = tt
strip_start-Without (c ∷ s) h = elim (Bool-cases (is_whitespace c)) [
  | inl t ↦ rw t (strip_start-Without s h.1)
  | inr f ↦ rw f h
]

strip-Without : (s : Text) → Without comma s → Without comma (strip is_whitespace s)
unfolding strip
strip-Without s h =
    All-reverse (λ c. c ≢ comma) (strip_start is_whitespace (reverse (strip_start is_whitespace s)))
      (strip_start-Without (reverse (strip_start is_whitespace s))
        (All-reverse (λ c. c ≢ comma) (strip_start is_whitespace s) (strip_start-Without s h)))

strip-upper :
    (s : Text) → strip is_whitespace (upper (strip is_whitespace s)) ≡ upper (strip is_whitespace s)
strip-upper s =
    let (begins, ends) = strip-StartsPlain is_whitespace s in
    strip_plain is_whitespace (upper (strip is_whitespace s)) (upper-StartsPlain _ begins)
      (rw (reverse-upper (strip is_whitespace s)) (upper-StartsPlain _ ends))

add-IsMethod :
    (t : Text) (ts : List Text)
    → strip is_whitespace (upper t) ≡ upper t
    → Without comma t
    → has wildcard (map upper (non_empty (t ∷ ts))) ≡ false
    → (has wildcard (map upper (non_empty ts)) ≡ false → All IsMethod (map upper (non_empty ts)))
    → All IsMethod (map upper (non_empty (t ∷ ts)))
unfolding non_empty has
add-IsMethod [] ts e w k rest = rest k
add-IsMethod (c ∷ t) ts e w k rest = elim (Bool-cases (same wildcard (upper (c ∷ t)))) [
  | inl b ↦ absurd (let no : ◌≡◌ {A = Bool} true false = rw b at k in cc)
  | inr b ↦ (
    record {
      stripped = e;
      upper_case = upper-idempotent (c ∷ t);
      one = upper-Without (c ∷ t) w;
      named = same-false_sym wildcard (upper (c ∷ t)) b;
    },
    rest (rw b at k),
  )
]

-- The methods of a payload among which there is no wildcard.
parts-IsMethod :
    (parts : List Text)
    → All (Without comma) parts
    → has wildcard (map upper (non_empty (map (strip is_whitespace) parts))) ≡ false
    → All IsMethod (map upper (non_empty (map (strip is_whitespace) parts)))
parts-IsMethod [] h n = unfold non_empty in tt
parts-IsMethod (p ∷ ps) h n =
    add-IsMethod (strip is_whitespace p) (map (strip is_whitespace) ps) (strip-upper p)
      (strip-Without p h.0) n (parts-IsMethod ps h.1)

pub parse_methods-IsMethod :
    (methods : Text)
    → has wildcard (parse_methods methods) ≡ false
    → All IsMethod (parse_methods methods)
unfolding parse_methods entries
parse_methods-IsMethod methods h = elim (Bool-cases (same (strip is_whitespace methods) wildcard)) [
  | inl t ↦ rw t tt
  | inr f ↦
      rw f (parts-IsMethod (split_on comma methods) (split_on-Without comma methods) (rw f at h))
]
