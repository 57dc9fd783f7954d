-- ===== src/Auth/Forwarded.antt =====
-- X-Forwarded-For behind trusted proxies, each of which adds the address that called it at the end.
use mathlib.Core.List.{reverse-append, reverse-cons, map-append, append_assoc}
use gate_flow.Prelude.{
  ℕ, ◌≡◌, ◌≢◌, refl, sym, ap, ◌∙◌, inl, inr, Bool, true, false, not, some, List, [], ◌∷◌, ◌++◌,
  reverse, map, arith, ◌==◌, All, All-map, All-reverse, Bool-cases,
}
use gate_flow.Prelude.Text.{Text, codes, same}
use gate_flow.Prelude.Split.{split_on, prepend, split_on-ne-nil}
use gate_flow.Prelude.Strip.{strip}
use gate_flow.Http.{Headers, header}
use gate_flow.Auth.Address.{
  is_whitespace, comma, non_empty, entries, wildcard, Addresses, last_of, is_trusted_proxy_ip,
  choose, resolve_forwarded_for, ip_of, get_client_ip,
}

prepend-append : (c : ℕ) (ps qs : List Text) → ps ≢ [] → prepend c (ps ++ qs) ≡ prepend c ps ++ qs
prepend-append c [] qs h = absurd (h refl)
prepend-append c (p ∷ ps) qs h = refl

-- A text is cut at each separator, whatever stands before it.
split_on-append_any :
    (sep : ℕ) (s t : Text) → split_on sep (s ++ sep ∷ t) ≡ split_on sep s ++ split_on sep t
unfolding split_on
split_on-append_any sep [] t = ground arith
split_on-append_any sep (c ∷ s) t = elim (Bool-cases (c == sep)) [
  | inl e ↦ rw (e, split_on-append_any sep s t) refl
  | inr e ↦
      rw (e, split_on-append_any sep s t)
        (prepend-append c (split_on sep s) (split_on sep t) (split_on-ne-nil sep s))
]

non_empty-append : (ss ts : List Text) → non_empty (ss ++ ts) ≡ non_empty ss ++ non_empty ts
unfolding non_empty
non_empty-append [] ts = refl
non_empty-append ([] ∷ ss) ts = non_empty-append ss ts
non_empty-append ((c ∷ s) ∷ ss) ts = ap (◌∷◌ (c ∷ s)) (non_empty-append ss ts)

entries-append : (s t : Text) → entries (s ++ comma ∷ t) ≡ entries s ++ entries t
unfolding entries
entries-append s t =
    rw (split_on-append_any comma s t, map-append)
      (non_empty-append (map (strip is_whitespace) (split_on comma s))
        (map (strip is_whitespace) (split_on comma t)))

last_of-append :
    (p : Text → Bool) (t : Text) (ys zs : List Text)
    → All (λ y. p y ≡ false) ys
    → p t ≡ true
    → last_of p (ys ++ t ∷ zs) ≡ some t
unfolding last_of
last_of-append p t [] zs a h = rw h
last_of-append p t (y ∷ ys) zs a h = rw (a.0) (last_of-append p t ys zs a.1 h)

last_of-reverse :
    (p : Text → Bool) (t : Text) (before after : List Text)
    → All (λ y. p y ≡ false) after
    → p t ≡ true
    → last_of p (reverse (before ++ t ∷ after)) ≡ some t
last_of-reverse p t before after a h =
    rw (reverse-append before (t ∷ after), reverse-cons t after, append_assoc)
      (last_of-append p t (reverse after) (reverse before) (All-reverse (λ y. p y ≡ false) after a)
        h)

module _ (addresses : Addresses) (allowed ip : Text) where
  abbrev is_client : Text → Bool
  is_client t = not (is_trusted_proxy_ip addresses t allowed)

  choose-last :
      (before after : List Text)
      → same (strip is_whitespace allowed) wildcard ≡ false
      → is_client ip ≡ true
      → All (λ t. is_client t ≡ false) after
      → choose addresses allowed (before ++ ip ∷ after) ≡ some ip
  unfolding choose
  choose-last [] after w h a = rw (w, last_of-reverse is_client ip [] after a h) refl
  choose-last (b ∷ before) after w h a =
      rw (w, last_of-reverse is_client ip (b ∷ before) after a h) refl

  resolve_forwarded_for-last :
      (claimed seen : Text) (before after : List Text) (c : ℕ) (cs : Text)
      → allowed ≡ c ∷ cs
      → same (strip is_whitespace allowed) wildcard ≡ false
      → entries seen ≡ before ++ ip ∷ after
      → is_client ip ≡ true
      → All (λ t. is_client t ≡ false) after
      → resolve_forwarded_for addresses (claimed ++ comma ∷ seen) allowed ≡ some ip
  unfolding resolve_forwarded_for
  resolve_forwarded_for-last claimed seen before after c cs n w e h a =
      let listed : entries (claimed ++ comma ∷ seen) ≡ (entries claimed ++ before) ++ ip ∷ after =
        entries-append claimed seen
        ∙ ap (λ l. entries claimed ++ l) e
        ∙ sym (append_assoc (entries claimed) before (ip ∷ after)) in
      rw n (
        ap (choose addresses (c ∷ cs)) listed
        ∙ rw n at (choose-last (entries claimed ++ before) after w h a))

same-cons_nil : (s t : Text) (c : ℕ) → same (s ++ c ∷ t) [] ≡ false
unfolding same
same-cons_nil [] t c = refl
same-cons_nil (a ∷ s) t c = refl

-- A caller cannot choose its address: if the peer is a trusted proxy and the proxies added `seen`
-- behind what was claimed, the address is the last one of `seen` that is no trusted proxy, if there
-- is one, whatever was claimed. The setting is not the wildcard.
pub get_client_ip-last :
    (addresses : Addresses) (peer allowed ip claimed seen : Text) (before after : List Text)
    (headers : Headers)
    → is_trusted_proxy_ip addresses peer allowed ≡ true
    → same (strip is_whitespace allowed) wildcard ≡ false
    → header (codes "X-Forwarded-For") headers ≡ some (claimed ++ comma ∷ seen)
    → entries seen ≡ before ++ ip ∷ after
    → is_trusted_proxy_ip addresses ip allowed ≡ false
    → All (λ t. is_trusted_proxy_ip addresses t allowed ≡ true) after
    → get_client_ip addresses (some peer) allowed headers ≡ some ip
unfolding get_client_ip ip_of
get_client_ip-last addresses peer [] ip claimed seen before after headers p w f e n a =
    absurd (let no : ◌≡◌ {A = Bool} false true = unfold is_trusted_proxy_ip in p in cc)
get_client_ip-last addresses peer (c ∷ cs) ip claimed seen before after headers p w f e n a =
    rw
      (
        f,
        p,
        same-cons_nil claimed seen comma,
        resolve_forwarded_for-last addresses (c ∷ cs) ip claimed seen before after c cs refl w e
            (ap not n) (All-map (λ t h. ap not h) after a),
      )
      refl
