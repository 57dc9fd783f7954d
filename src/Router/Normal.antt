-- ===== src/Router/Normal.antt =====
-- What normalise_prefix returns.
use mathlib.Core.Path.{subst}
use mathlib.Core.List.{reverse-cons}
use gate_flow.Prelude.{
  ℕ, ◌≡◌, ◌≢◌, inl, inr, ap, refl, Bool, true, false, ◌&&◌, none, some, [], ◌∷◌, ◌++◌, reverse,
  arith, Bool-cases,
}
use gate_flow.Prelude.Text.{Text, starts_with}
use gate_flow.Prelude.Strip.{strip, StartsPlain, StartsPlain-prefix, strip-StartsPlain, strip_plain}
use gate_flow.Router.{is_slash, has_dots, collapse, normalise_stripped, normalise_prefix}

-- No slash follows another; the flag says that one stands before the text.
abbrev HasNoRuns : Bool → Text → Type 0
HasNoRuns in_run [] = Unit
HasNoRuns in_run (c ∷ s) = ((in_run && is_slash c) ≡ false) × HasNoRuns (is_slash c) s

collapse-HasNoRuns : (b : Bool) (s : Text) → HasNoRuns b (collapse b s)
unfolding collapse
collapse-HasNoRuns b [] = tt
collapse-HasNoRuns b (c ∷ s) = elim (Bool-cases (b && is_slash c)) [
  | inl e ↦
      let here : is_slash c ≡ true = ground (arith, e) in
      let before : b ≡ true = ground (arith, e) in
      let k : HasNoRuns true (collapse (is_slash c) s) =
        subst (λ t. HasNoRuns t (collapse (is_slash c) s)) here
          (collapse-HasNoRuns (is_slash c) s) in
      rw (e, before) k
  | inr e ↦ rw e (e, collapse-HasNoRuns (is_slash c) s)
]

collapse_without_runs : (b : Bool) (s : Text) → HasNoRuns b s → collapse b s ≡ s
unfolding collapse
collapse_without_runs b [] h = refl
collapse_without_runs b (c ∷ s) h = rw (h.0, collapse_without_runs (is_slash c) s h.1)

-- A slash that is dropped does not bring two dots together.
collapse-has_dots : (b : Bool) (s : Text) → has_dots s ≡ false → has_dots (collapse b s) ≡ false
unfolding collapse has_dots starts_with
collapse-has_dots b [] h = refl
collapse-has_dots b (c ∷ []) h = ground (arith, h)
collapse-has_dots b (c ∷ d ∷ s) h = ground (arith, h, collapse-has_dots (is_slash c) (d ∷ s))

-- The last character is no slash.
abbrev EndsPlain : Text → Type 0
EndsPlain [] = Unit
EndsPlain (c ∷ []) = is_slash c ≡ false
EndsPlain (c ∷ d ∷ s) = EndsPlain (d ∷ s)

EndsPlain-of_reverse : (s : Text) → StartsPlain is_slash (reverse s) → EndsPlain s
EndsPlain-of_reverse [] h = tt
EndsPlain-of_reverse (c ∷ []) h = h
EndsPlain-of_reverse (c ∷ d ∷ s) h =
    EndsPlain-of_reverse (d ∷ s)
      (StartsPlain-prefix is_slash (reverse (d ∷ s)) (c ∷ []) (rw (reverse-cons c (d ∷ s)) at h))

StartsPlain-snoc :
    (xs : Text) (d c : ℕ)
    → StartsPlain is_slash (xs ++ d ∷ [])
    → StartsPlain is_slash ((xs ++ d ∷ []) ++ c ∷ [])
StartsPlain-snoc [] d c h = h
StartsPlain-snoc (x ∷ xs) d c h = h

reverse-StartsPlain : (s : Text) → EndsPlain s → StartsPlain is_slash (reverse s)
reverse-StartsPlain [] h = tt
reverse-StartsPlain (c ∷ []) h = h
reverse-StartsPlain (c ∷ d ∷ s) h =
    let behind : StartsPlain is_slash (reverse s ++ d ∷ []) =
      rw (reverse-cons d s) at (reverse-StartsPlain (d ∷ s) h) in
    rw (reverse-cons c (d ∷ s), reverse-cons d s) (StartsPlain-snoc (reverse s) d c behind)

EndsPlain-cons : (c : ℕ) (s : Text) → s ≢ [] → EndsPlain s → EndsPlain (c ∷ s)
EndsPlain-cons c [] n h = absurd (n refl)
EndsPlain-cons c (d ∷ s) n h = h

collapse-EndsPlain :
    (b : Bool) (c : ℕ) (s : Text)
    → EndsPlain (c ∷ s)
    → (collapse b (c ∷ s) ≢ []) × EndsPlain (collapse b (c ∷ s))
unfolding collapse
collapse-EndsPlain b c [] h = elim (Bool-cases (b && is_slash c)) [
  | inl e ↦ ground (arith, e, h)
  | inr e ↦ rw e (cc, h)
]
collapse-EndsPlain b c (d ∷ s) h =
    let (n, k) = collapse-EndsPlain (is_slash c) d s h in
    elim (Bool-cases (b && is_slash c)) [
      | inl e ↦ rw e (n, k)
      | inr e ↦ rw e (cc, EndsPlain-cons c _ n k)
    ]

-- A prefix in normal form: no slash at its ends, none behind another, and no two dots.
pub record IsNormal (p : Text) : Type 0 where
  pub begins : StartsPlain is_slash p
  pub ends : EndsPlain p
  pub runs : HasNoRuns false p
  pub dots : has_dots p ≡ false
  pub some_text : p ≢ []

normalise_of_IsNormal : (p : Text) → IsNormal p → normalise_prefix p ≡ some p
unfolding normalise_prefix normalise_stripped
normalise_of_IsNormal [] n = absurd (n.some_text refl)
normalise_of_IsNormal (c ∷ s) n =
    rw (strip_plain is_slash (c ∷ s) n.begins (reverse-StartsPlain (c ∷ s) n.ends), n.dots)
      (ap some (collapse_without_runs false (c ∷ s) n.runs))

collapse-StartsPlain : (s : Text) → StartsPlain is_slash s → StartsPlain is_slash (collapse false s)
unfolding collapse
collapse-StartsPlain [] h = tt
collapse-StartsPlain (c ∷ s) h = h

normalise_stripped-IsNormal :
    (s q : Text) → StartsPlain is_slash s → EndsPlain s → normalise_stripped s ≡ some q → IsNormal q
unfolding normalise_stripped
normalise_stripped-IsNormal [] q b e h = cc
normalise_stripped-IsNormal (c ∷ s) q b e h = elim (Bool-cases (has_dots (c ∷ s))) [
  | inl d ↦ let no : none ≡ some q = rw d at h in cc
  | inr d ↦
      let found : some (collapse false (c ∷ s)) ≡ some q = rw d at h in
      let same_text : collapse false (c ∷ s) ≡ q = cc in
      let (n, k) = collapse-EndsPlain false c s e in
      subst IsNormal same_text (record {
        begins = collapse-StartsPlain (c ∷ s) b;
        ends = k;
        runs = collapse-HasNoRuns false (c ∷ s);
        dots = collapse-has_dots false (c ∷ s) d;
        some_text = n;
      })
]

-- What normalise_prefix returns is in normal form, and normalising it again changes nothing.
pub normalise_prefix-IsNormal :
    (prefix q : Text)
    → normalise_prefix prefix ≡ some q
    → IsNormal q × (normalise_prefix q ≡ some q)
unfolding normalise_prefix
normalise_prefix-IsNormal prefix q h =
    let (b, e) = strip-StartsPlain is_slash prefix in
    let n =
      normalise_stripped-IsNormal (strip is_slash prefix) q b
        (EndsPlain-of_reverse (strip is_slash prefix) e) h in
    (n, normalise_of_IsNormal q n)
