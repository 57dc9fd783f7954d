-- ===== src/Portal/Page/Calls.antt =====
-- The calls of `fetch` that the handlers make, and what they leave on the page when they make none.
use gate_flow.Prelude.{
  ◌≡◌, ◌≢◌, ◌⊎◌, inl, inr, refl, true, Option, none, some, [], ◌∷◌, ◌++◌, arith,
}
use gate_flow.Prelude.Text.{Text, codes}
use gate_flow.Portal.Trim.{trim}
use gate_flow.Portal.Trim.{trim_idempotent}
use gate_flow.Portal.Page.{
  Page, Call, get, post, set_result, check_key, with_key, call_with, load_quota, rotate_key,
  request_tier,
}

abbrev pub IsEndpoint : Call → Type 0
IsEndpoint c =
    ((c.url ≡ codes "/api/me/quota") × (c.method ≡ get))
    ⊎ ((c.url ≡ codes "/api/me/keys/rotate") × (c.method ≡ post))
    ⊎ ((query : Text) × (c.url ≡ codes "/api/me/tier/request?" ++ query) × (c.method ≡ post))

-- A call of one of the three endpoints, with a key that is not blank and that is trimmed.
pub record IsProper (c : Call) : Type 0 where
  pub present : c.key ≢ []
  pub trimmed : trim c.key ≡ c.key
  pub endpoint : IsEndpoint c

abbrev pub IsProperCall : Option Call → Type 0
IsProperCall none = Unit
IsProperCall (some c) = IsProper c

-- The cases of `withKey`.
pub with_key_blank :
    (p : Page)
    → trim p.api_key ≡ []
    → with_key p ≡ (set_result (codes "Please enter an API key.") true p, none)
with_key_blank p h = unfold with_key check_key in rw h

pub with_key_given : (p : Page) → trim p.api_key ≢ [] → with_key p ≡ (p, some (trim p.api_key))
unfolding with_key check_key
with_key_given p h = ground arith

pub blank_or_given : (s : Text) → (s ≡ []) ⊎ (s ≢ [])
blank_or_given [] = inl refl
blank_or_given (c ∷ s) = inr (cc)

call_with-IsProper :
    (f : Text → Call) (p : Page)
    → ((k : Text) → (f k).key ≡ k)
    → ((k : Text) → IsEndpoint (f k))
    → IsProperCall (call_with f (with_key p)).1
call_with-IsProper f p key endpoint = elim (blank_or_given (trim p.api_key)) [
  | inl blank ↦ rw (with_key_blank p blank) tt
  | inr given ↦ rw (with_key_given p given) (record {
    present = rw (key (trim p.api_key)) given;
    trimmed = rw (key (trim p.api_key)) (trim_idempotent p.api_key);
    endpoint = endpoint (trim p.api_key);
  })
]

pub load_quota-IsProper : (p : Page) → IsProperCall (load_quota p).1
unfolding load_quota
load_quota-IsProper p = call_with-IsProper _ p (λ k. refl) (λ k. inl (refl, refl))

pub rotate_key-IsProper : (p : Page) → IsProperCall (rotate_key p).1
unfolding rotate_key
rotate_key-IsProper p = call_with-IsProper _ p (λ k. refl) (λ k. inr (inl (refl, refl)))

pub request_tier-IsProper : (p : Page) → IsProperCall (request_tier p).1.1
unfolding request_tier
request_tier-IsProper p = call_with-IsProper _ p (λ k. refl) (λ k. inr (inr (_, refl, refl)))
