-- ===== src/Router/RoundTrip.antt =====
-- A route that is written to Redis and read again.
use mathlib.Core.Path.{subst}
use gate_flow.Prelude.{
  ◌≡◌, ◌≢◌, refl, sym, ap, ◌∙◌, inl, inr, Bool, true, false, ◌||◌, some, List, [], ◌∷◌, map, All,
  All-map, Bool-cases, arith,
}
use gate_flow.Prelude.Text.{Text, same, same_refl, eq_of_same}
use gate_flow.Prelude.Split.{split_on, join_with, split_on-join_with}
use gate_flow.Prelude.Strip.{strip}
use gate_flow.Http.{upper}
use gate_flow.Auth.Address.{is_whitespace, comma, wildcard}
use gate_flow.Router.{Route, less, normalise_prefix, has, allows_any, allows}
use gate_flow.Router.Normal.{normalise_prefix-IsNormal}
use gate_flow.Router.Methods.{IsMethod, parse_methods-IsMethod}
use gate_flow.Router.Records.{
  insert_method, sorted_methods, methods_text, to_json, methods_of, with_prefix, from_json,
  parse_methods,
}

has-insert_method :
    (k m : Text) (ms : List Text) → has k (insert_method m ms) ≡ (same k m || has k ms)
unfolding has insert_method
has-insert_method k m [] = refl
has-insert_method k m (n ∷ ms) = elim (Bool-cases (same m n)) [
  | inl t ↦ rw (t, eq_of_same m n t) (ground arith)
  | inr f ↦ elim (Bool-cases (less m n)) [
    | inl l ↦ rw (f, l) refl
    | inr g ↦ rw (f, g, has-insert_method k m ms) (ground arith)
  ]
]

has-sorted_methods : (k : Text) (ms : List Text) → has k (sorted_methods ms) ≡ has k ms
unfolding has sorted_methods
has-sorted_methods k [] = refl
has-sorted_methods k (m ∷ ms) =
    has-insert_method k m (sorted_methods ms) ∙ ap (λ b. same k m || b) (has-sorted_methods k ms)

module _ (P : Text → Type 0) where
  insert_method-All : (m : Text) (ms : List Text) → P m → All P ms → All P (insert_method m ms)
  unfolding insert_method
  insert_method-All m [] p h = (p, tt)
  insert_method-All m (n ∷ ms) p h = elim (Bool-cases (same m n)) [
    | inl t ↦ rw t h
    | inr f ↦ elim (Bool-cases (less m n)) [
      | inl l ↦ rw (f, l) (p, h)
      | inr g ↦ rw (f, g) (h.0, insert_method-All m ms p h.1)
    ]
  ]

  sorted_methods-All : (ms : List Text) → All P ms → All P (sorted_methods ms)
  unfolding sorted_methods
  sorted_methods-All [] h = tt
  sorted_methods-All (m ∷ ms) h =
      insert_method-All m (sorted_methods ms) h.0 (sorted_methods-All ms h.1)

map-methods : (ms : List Text) → All IsMethod ms → map (λ m. upper (strip is_whitespace m)) ms ≡ ms
map-methods [] h = refl
map-methods (m ∷ ms) h = rw (h.0.stripped, h.0.upper_case, map-methods ms h.1) refl

-- A joined text is the wildcard only if that is the one method.
joined_named :
    (m : Text) (ms : List Text)
    → All IsMethod (m ∷ ms)
    → same (join_with comma (m ∷ ms)) wildcard ≡ false
joined_named m ms h = elim (Bool-cases (same (join_with comma (m ∷ ms)) wildcard)) [
  | inr f ↦ f
  | inl t ↦
      let parts : m ∷ ms ≡ split_on comma wildcard =
        sym (split_on-join_with comma m ms (h.0.one, All-map (λ n k. k.one) ms h.1))
        ∙ ap (split_on comma) (eq_of_same _ wildcard t) in
      let only : All IsMethod (split_on comma wildcard) = subst (All IsMethod) parts h in
      let no : ◌≡◌ {A = Bool} true false = unfold split_on same in only.0.named in cc
]

sorted-ne-nil : (m : Text) (ms : List Text) → sorted_methods (m ∷ ms) ≢ []
sorted-ne-nil m ms e =
    let known : has m (sorted_methods (m ∷ ms)) ≡ true =
      has-sorted_methods m (m ∷ ms) ∙ (unfold has in rw (same_refl m) refl) in
    let no : ◌≡◌ {A = Bool} false true = unfold has in (rw e at known) in cc

methods_of-methods_text :
    (m : Text) (ms : List Text)
    → All IsMethod (m ∷ ms)
    → methods_of (methods_text (m ∷ ms)) ≡ sorted_methods (m ∷ ms)
unfolding methods_of methods_text
methods_of-methods_text m ms h =
    of_sorted (sorted_methods (m ∷ ms)) (sorted-ne-nil m ms)
      (sorted_methods-All IsMethod (m ∷ ms) h)
  where
    of_sorted : (ns : List Text) → ns ≢ [] → All IsMethod ns → methods_of (join_with comma ns) ≡ ns
    of_sorted [] n k = absurd (n refl)
    of_sorted (q ∷ ns) n k =
        rw (joined_named q ns k, split_on-join_with comma q ns (All-map (λ x i. i.one) (q ∷ ns) k))
          (map-methods (q ∷ ns) k)

methods_of_text :
    (ms : List Text) → All IsMethod ms → methods_of (methods_text ms) ≡ sorted_methods ms
methods_of_text [] h = unfold methods_of methods_text sorted_methods same in refl
methods_of_text (m ∷ ms) h = methods_of-methods_text m ms h

allows_any-sorted_methods :
    (ms : List Text) (method : Text) → allows_any (sorted_methods ms) method ≡ allows_any ms method
allows_any-sorted_methods [] method = unfold sorted_methods in refl
allows_any-sorted_methods (m ∷ ms) method =
    not_empty (sorted_methods (m ∷ ms)) (sorted-ne-nil m ms)
    ∙ has-sorted_methods (upper method) (m ∷ ms)
    ∙ (unfold allows_any in refl)
  where
    not_empty : (ns : List Text) → ns ≢ [] → allows_any ns method ≡ has (upper method) ns
    not_empty [] n = absurd (n refl)
    not_empty (q ∷ ns) n = unfold allows_any in refl

-- A route that the admin API makes comes back from Redis: it has the fields that were written,
-- under the same prefix, and allows the same methods. The payload's methods
-- are the wildcard alone, or texts with commas between them, none of which is the wildcard.
pub from_json-to_json :
    (r : Route) (prefix methods method : Text)
    → normalise_prefix prefix ≡ some r.prefix
    → r.allowed_methods ≡ parse_methods methods
    → has wildcard (parse_methods methods) ≡ false
    → let r' = record r { allowed_methods = sorted_methods r.allowed_methods } in
      (from_json r.prefix (to_json r) ≡ some r') × (allows r' method ≡ allows r method)
unfolding from_json to_json with_prefix allows
from_json-to_json r prefix methods method normal parsed plain =
    let all : All IsMethod r.allowed_methods = rw (parsed) (parse_methods-IsMethod methods plain) in
    (
      rw
          (
            (normalise_prefix-IsNormal prefix r.prefix normal).1,
            methods_of_text r.allowed_methods all,
          )
          refl,
      allows_any-sorted_methods r.allowed_methods method,
    )
