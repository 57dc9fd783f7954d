-- ===== src/Router/Downstream.antt =====
-- build_downstream_path on the paths that match_route lets through.
use gate_flow.Prelude.{
  ℕ, ◌≡◌, ◌≢◌, refl, ap, true, false, [], ◌∷◌, ◌++◌, arith, length, drop, drop-append,
  if◌then◌else◌, inl, inr, Bool-cases,
}
use gate_flow.Prelude.Text.{Text, same, same_refl, starts_with, starts_with-append}
use gate_flow.Prelude.Strip.{strip, strip_start}
use gate_flow.Router.{Route, slash, build_downstream_path}
use gate_flow.Router.Covering.{IsUnder, whole, inside}
use gate_flow.Router.Matching.{IsPathUnder}

-- What the target of a route that strips its prefix is asked for.
abbrev pub rest_of : {p s : Text} → IsUnder p s → Text
rest_of (whole e) = slash ∷ []
rest_of (inside rest e) = slash ∷ rest

append_one : (p : Text) (c : ℕ) (s : Text) → p ++ c ∷ s ≡ (p ++ c ∷ []) ++ s
append_one [] c s = refl
append_one (b ∷ p) c s = ap (◌∷◌ b) (append_one p c s)

starts_with_longer : (p : Text) (c : ℕ) → starts_with (p ++ c ∷ []) p ≡ false
unfolding starts_with
starts_with_longer [] c = refl
starts_with_longer (b ∷ p) c = ground (arith, starts_with_longer p c)

starts_with-slash : (p s : Text) → starts_with (p ++ slash ∷ []) (p ++ slash ∷ s) ≡ true
starts_with-slash p s = rw (append_one p slash s) (starts_with-append (p ++ slash ∷ []) s)

stripped :
    (r : Route) (s : Text) (u : IsUnder r.prefix s)
    → (if starts_with ((slash ∷ r.prefix) ++ slash ∷ []) (slash ∷ s)
        then drop (length (slash ∷ r.prefix)) (slash ∷ s)
        else if same (slash ∷ s) (slash ∷ r.prefix)
        then slash ∷ []
        else slash ∷ s)
      ≡ rest_of u
stripped r s (whole e) =
    rw e
      (unfold starts_with same in rw (starts_with_longer r.prefix slash, same_refl r.prefix) refl)
stripped r s (inside rest e) = rw e (
    unfold starts_with in
    rw (starts_with-slash r.prefix rest, drop-append r.prefix (slash ∷ rest)) refl)

-- A path that is one slash and a text under the prefix: the prefix is cut off, and a path is left
-- that begins with a slash; a route that does not strip gets the path as it came.
pub build_downstream_path-rest :
    (r : Route) (s : Text) (u : IsUnder r.prefix s)
    → build_downstream_path r (slash ∷ s) ≡ (if r.strip_prefix then rest_of u else slash ∷ s)
unfolding build_downstream_path
build_downstream_path-rest r s u = elim (Bool-cases r.strip_prefix) [
  | inl e ↦ rw e (stripped r s u)
  | inr e ↦ rw e refl
]

-- A second slash in front changes neither which prefixes a path goes under nor the path that is
-- asked for: the prefix is not cut off, although the route strips its prefix.
doubled_slash_kept :
    (r : Route) (s : Text) (c : ℕ) (p : Text)
    → r.prefix ≡ c ∷ p
    → c ≢ slash
    → IsPathUnder (slash ∷ s) r.prefix
    → IsPathUnder (slash ∷ slash ∷ s) r.prefix
      × (build_downstream_path r (slash ∷ slash ∷ s) ≡ slash ∷ slash ∷ s)
unfolding strip build_downstream_path
doubled_slash_kept r s c p e n u = (
  unfold strip_start in (u),
  rw e (
      unfold starts_with same in
      elim (Bool-cases r.strip_prefix) [ inl t ↦ rw t (ground (arith, n)) | inr t ↦ rw t refl ]),
)
