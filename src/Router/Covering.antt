-- ===== src/Router/Covering.antt =====
-- What `segments[: len(prefix_segments)] == prefix_segments` says of the texts.
use mathlib.Core.List.{append-nil, append_assoc}
use gate_flow.Prelude.{
  ℕ, zero, suc, ◌≡◌, ◌≢◌, ◌≤◌, ◌↔◌, inl, inr, refl, sym, ap, ◌∙◌, true, List, [], ◌∷◌, ◌++◌, ◌==◌,
  arith, length, take, drop, take-append, length-append, Bool-cases,
}
use gate_flow.Prelude.Text.{Text, same_refl, same_iff}
use gate_flow.Prelude.Split.{split_on, join_with, prepend, split_on-ne-nil, join_with-split_on}
use gate_flow.Router.{slash, same_segments, covers}

same_segments_refl : (s : List Text) → same_segments s s ≡ true
unfolding same_segments
same_segments_refl [] = refl
same_segments_refl (a ∷ s) = ground (arith, same_refl a, same_segments_refl s)

eq_of_same_segments : (s t : List Text) → same_segments s t ≡ true → s ≡ t
unfolding same_segments
eq_of_same_segments [] [] h = refl
eq_of_same_segments [] (b ∷ t) h = ground arith
eq_of_same_segments (a ∷ s) [] h = ground arith
eq_of_same_segments (a ∷ s) (b ∷ t) h =
    let heads : a ≡ b = (same_iff a b).0 (ground arith) in
    ground (arith, heads, eq_of_same_segments s t)

module _ {ℓ} {A : Type ℓ} where
  take-drop : (n : ℕ) (xs : List A) → take n xs ++ drop n xs ≡ xs
  take-drop zero xs = refl
  take-drop (suc n) [] = refl
  take-drop (suc n) (x ∷ xs) = ap (◌∷◌ x) (take-drop n xs)

  pub take_whole : (xs : List A) → take (length xs) xs ≡ xs
  take_whole [] = refl
  take_whole (x ∷ xs) = ap (◌∷◌ x) (take_whole xs)

  take-take : (m n : ℕ) (xs : List A) → m ≤ n → take m (take n xs) ≡ take m xs
  take-take zero n xs h = refl
  take-take (suc m) zero xs h = ground (arith, h)
  take-take (suc m) (suc n) [] h = refl
  take-take (suc m) (suc n) (x ∷ xs) h = ap (◌∷◌ x) (take-take m n xs (omega (arith, h)))

prepend-append : (c : ℕ) (ps qs : List Text) → ps ≢ [] → prepend c (ps ++ qs) ≡ prepend c ps ++ qs
prepend-append c [] qs h = absurd (h refl)
prepend-append c (p ∷ ps) qs h = refl

-- A separator splits a text into what stands before it and behind it.
pub split_on_at :
    (sep : ℕ) (p s : Text) → split_on sep (p ++ sep ∷ s) ≡ split_on sep p ++ split_on sep s
unfolding split_on
split_on_at sep [] s = ground arith
split_on_at sep (c ∷ p) s = elim (Bool-cases (c == sep)) [
  | inl e ↦ rw (e, split_on_at sep p s)
  | inr e ↦ rw (e, split_on_at sep p s) (prepend-append c _ _ (split_on-ne-nil sep p))
]

join_with-append :
    (sep : ℕ) (ps : List Text) (d : Text) (ds : List Text)
    → ps ≢ []
    → join_with sep (ps ++ d ∷ ds) ≡ join_with sep ps ++ sep ∷ join_with sep (d ∷ ds)
unfolding join_with
join_with-append sep [] d ds h = absurd (h refl)
join_with-append sep (p ∷ []) d ds h = refl
join_with-append sep (p ∷ q ∷ ps) d ds h =
    ap (λ t. p ++ sep ∷ t) (join_with-append sep (q ∷ ps) d ds cc)
    ∙ sym (append_assoc p (sep ∷ join_with sep (q ∷ ps)) (sep ∷ join_with sep (d ∷ ds)))

-- The text is the prefix, or goes on behind it with a slash.
pub data IsUnder (p s : Text) : Type 0 where
  whole : s ≡ p → IsUnder p s
  inside : (rest : Text) → s ≡ p ++ slash ∷ rest → IsUnder p s

join_with-IsUnder :
    (p : Text) (ds : List Text) → IsUnder p (join_with slash (split_on slash p ++ ds))
join_with-IsUnder p [] =
    whole (ap (join_with slash) (append-nil (split_on slash p)) ∙ join_with-split_on slash p)
join_with-IsUnder p (d ∷ ds) = inside (join_with slash (d ∷ ds)) (
    join_with-append slash (split_on slash p) d ds (split_on-ne-nil slash p)
    ∙ ap (λ t. t ++ slash ∷ join_with slash (d ∷ ds)) (join_with-split_on slash p))

IsUnder-take :
    (p s : Text)
    → take (length (split_on slash p)) (split_on slash s) ≡ split_on slash p
    → IsUnder p s
IsUnder-take p s e =
    let n = length (split_on slash p) in
    let cut : split_on slash s ≡ split_on slash p ++ drop n (split_on slash s) =
      sym (take-drop n (split_on slash s)) ∙ ap (λ t. t ++ drop n (split_on slash s)) e in
    let joined : join_with slash (split_on slash p ++ drop n (split_on slash s)) ≡ s =
      ap (join_with slash) (sym cut) ∙ join_with-split_on slash s in
    rw joined at (join_with-IsUnder p (drop n (split_on slash s)))

take_under :
    {p s : Text}
    → IsUnder p s
    → take (length (split_on slash p)) (split_on slash s) ≡ split_on slash p
take_under {p} (whole e) = rw e (take_whole (split_on slash p))
take_under {p} (inside rest e) =
    rw (e, split_on_at slash p rest) (take-append (split_on slash p) (split_on slash rest))

-- A prefix covers the segments of a text exactly if the text is the prefix or goes on behind it
-- with a slash.
pub covers_iff : (p s : Text) → (covers (split_on slash s) p ≡ true) ↔ IsUnder p s
unfolding covers
covers_iff p s = (
  λ h. IsUnder-take p s (eq_of_same_segments _ _ h),
  λ u. rw (take_under u) (same_segments_refl (split_on slash p)),
)

length-le-under : {p s : Text} → IsUnder p s → length p ≤ length s
length-le-under (whole e) = rw e (omega arith)
length-le-under {p} (inside rest e) = rw (e, length-append p (slash ∷ rest)) (omega arith)

-- Of two prefixes of a text, the one with fewer segments is not longer.
pub shorter_of_shallower :
    (p q s : Text)
    → IsUnder p s
    → IsUnder q s
    → length (split_on slash q) ≤ length (split_on slash p)
    → length q ≤ length p
shorter_of_shallower p q s u v h =
    let e : take (length (split_on slash q)) (split_on slash p) ≡ split_on slash q =
      ap (take (length (split_on slash q))) (sym (take_under u))
      ∙ take-take _ _ (split_on slash s) h
      ∙ take_under v in
    length-le-under (IsUnder-take q p e)
