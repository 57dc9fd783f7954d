-- ===== src/Http/Laws.antt =====
-- What the services behind the gateway read in the headers that it forwards.
use gate_flow.Prelude.{
  ◌≡◌, refl, ap, ◌∙◌, inl, inr, true, false, some, [], ◌∷◌, any, All, All-map, Bool-cases,
}
use gate_flow.Prelude.Text.{Text, codes, same, same_refl, eq_of_same}
use gate_flow.Http.{
  Headers, lower_char, lower, header, put, hop_by_hop, is_hop_by_hop, forwardable, forwarded,
}

-- No header of one connection goes on to the next one.
forwardable-All : (hs : Headers) → All (λ h. is_hop_by_hop h.0 ≡ false) (forwardable hs)
unfolding forwardable
forwardable-All [] = tt
forwardable-All ((k, v) ∷ hs) = elim (Bool-cases (is_hop_by_hop k)) [
  | inl e ↦ rw e (forwardable-All hs)
  | inr e ↦ rw e (e, forwardable-All hs)
]

put-All :
    (P : Text → Type 0) (name value : Text) (hs : Headers)
    → P name
    → All (λ h. P h.0) hs
    → All (λ h. P h.0) (put name value hs)
unfolding put
put-All P name value [] p h = (p, tt)
put-All P name value ((k, v) ∷ hs) p h = elim (Bool-cases (same k name)) [
  | inl e ↦ rw e (h)
  | inr e ↦ rw e (h.0, put-All P name value hs p h.1)
]

-- The headers that are forwarded hold no header of the connection, whatever the client sent.
pub forwarded-All :
    (request_id user_id tier : Text) (hs : Headers)
    → All (λ h. is_hop_by_hop h.0 ≡ false) (forwarded request_id user_id tier hs)
unfolding forwarded lower_char
forwarded-All request_id user_id tier hs =
    let P : Text → Type 0 = λ k. is_hop_by_hop k ≡ false in
    put-All P _ tier _ (unfold is_hop_by_hop same in refl) (
      put-All P _ user_id _ (unfold is_hop_by_hop same in refl)
        (put-All P _ request_id _ (unfold is_hop_by_hop same in refl) (forwardable-All hs)))

-- A new entry does not go in front of one that a reader finds already.
header-put :
    (name key value v : Text) (hs : Headers)
    → header name hs ≡ some v
    → All (λ h. same h.0 key ≡ false) hs
    → header name (put key value hs) ≡ some v
unfolding header put
header-put name key value v [] h a = cc
header-put name key value v ((k, w) ∷ hs) h a = elim (Bool-cases (same (lower k) (lower name))) [
  | inl e ↦ rw (a.0, header) (rw e (rw e at h))
  | inr e ↦ rw (a.0, header) (rw e (header-put name key value v hs (rw e at h) a.1))
]

lower_equal :
    (k name : Text) → same (lower k) (lower name) ≡ true → is_hop_by_hop k ≡ is_hop_by_hop name
unfolding is_hop_by_hop
lower_equal k name e = ap (λ l. any (same l) hop_by_hop) (eq_of_same (lower k) (lower name) e)

header-forwardable :
    (name : Text) (hs : Headers)
    → is_hop_by_hop name ≡ false
    → header name (forwardable hs) ≡ header name hs
unfolding header forwardable
header-forwardable name [] n = refl
header-forwardable name ((k, v) ∷ hs) n = elim (Bool-cases (is_hop_by_hop k)) [
  | inl e ↦ rw e (elim (Bool-cases (same (lower k) (lower name))) [
    | inl t ↦ let f : is_hop_by_hop k ≡ false = lower_equal k name t ∙ n in cc
    | inr t ↦ rw t (header-forwardable name hs n)
  ])
  | inr e ↦
      rw (e, header)
        (elim (Bool-cases (same (lower k) (lower name))) [
          | inl t ↦ rw t refl
          | inr t ↦ rw t (header-forwardable name hs n)
        ])
]

IsLower : Text → Type 0
IsLower k = lower k ≡ k

forwardable-keeps :
    (P : Text → Type 0) (hs : Headers) → All (λ h. P h.0) hs → All (λ h. P h.0) (forwardable hs)
unfolding forwardable
forwardable-keeps P [] a = tt
forwardable-keeps P ((k, v) ∷ hs) a = elim (Bool-cases (is_hop_by_hop k)) [
  | inl e ↦ rw e (forwardable-keeps P hs a.1)
  | inr e ↦ rw e (a.0, forwardable-keeps P hs a.1)
]

-- A name in lower case is no name with a capital.
other_name : (key k : Text) → same (lower key) key ≡ false → lower k ≡ k → same k key ≡ false
other_name key k n l = elim (Bool-cases (same k key)) [
  | inl e ↦
      let q : k ≡ key = eq_of_same k key e in
      let r : lower key ≡ key = rw q at l in
      let t : same (lower key) key ≡ true = rw r (same_refl key) in cc
  | inr e ↦ e
]

-- A client that sends a header x-user-id is believed: among the headers that are forwarded, this is
-- the first of that name, before the one with the user of the key. The names of the client's
-- headers are in lower case.
forwarded-spoofed :
    (request_id user_id tier claimed : Text) (hs : Headers)
    → All (λ h. lower h.0 ≡ h.0) hs
    → header (codes "x-user-id") hs ≡ some claimed
    → header (codes "x-user-id") (forwarded request_id user_id tier hs) ≡ some claimed
unfolding forwarded
forwarded-spoofed request_id user_id tier claimed hs a h =
    let name : Text = codes "x-user-id" in
    let low = forwardable-keeps (λ k. lower k ≡ k) hs a in
    let differ = λ (key : Text) (n : same (lower key) key ≡ false).
      All-map (λ h l. other_name key h.0 n l) (forwardable hs) low in
    let kept : header name (forwardable hs) ≡ some claimed =
      header-forwardable name hs (unfold is_hop_by_hop lower_char same in refl) ∙ h in
    let id : Text = codes "X-Request-ID" in
    let user : Text = codes "X-User-Id" in
    let tiers : Text = codes "X-User-Tier" in
    let no_user = differ user (unfold lower_char same in refl) in
    let no_tiers = differ tiers (unfold lower_char same in refl) in
    let one =
      header-put name id request_id claimed (forwardable hs) kept
        (differ id (unfold lower_char same in refl)) in
    let no_user_yet =
      put-All (λ k. same k user ≡ false) id request_id (forwardable hs) (unfold same in refl)
        no_user in
    let two =
      header-put name user user_id claimed (put id request_id (forwardable hs)) one no_user_yet in
    header-put name tiers tier claimed _ two (
      put-All (λ k. same k tiers ≡ false) user user_id (put id request_id (forwardable hs))
        (unfold same in refl)
        (put-All (λ k. same k tiers ≡ false) id request_id (forwardable hs) (unfold same in refl)
          no_tiers))
