-- ===== src/Admin/Guard.antt =====
-- Who can change keys.
use gate_flow.Prelude.{
  ℕ, ◌≡◌, ◌≢◌, ◌⊎◌, refl, ap, ◌∙◌, inl, inr, Bool, true, false, ◌&&◌, Option, none, some, List, [],
  ◌∷◌, Bool-cases, Option-cases,
}
use gate_flow.Prelude.Text.{Text, same, eq_of_same}
use gate_flow.Models.{KeyRecord}
use gate_flow.Store.Keys.{Keys, Outcome, returned, raised, get_key_record, look_up, look_in_redis}
use gate_flow.Store.Keys.Phases.{view}
use gate_flow.Store.Keys.Coherence.{found, warmed, warmed-found}
use gate_flow.Admin.{
  Config, State, Response, Command, get_key, delete_key, create_key, update_key, is_ascii,
  compare_digest, unless_equal, is_among, admin_authorized, check_admin_rate_limit, unless_refused,
  after, or_next, resolve, secrets, resolve_or_404, or_404, show_record, show_id, show_key,
  dispatch, handle, read_keys,
}

-- Lookups return the same for every key.
abbrev pub IsSame : Keys → Keys → Type 0
IsSame s s' = (key_id : Text) → found (view s' key_id) ≡ found (view s key_id)

look_up-offline : (k : Text) (row : Option KeyRecord) (s : Keys) → (look_up false k row s).0 ≡ s
unfolding look_up look_in_redis
look_up-offline k (some r) s = refl
look_up-offline k none s = elim (Option-cases (s.hashes k)) [
  | inl e ↦ rw e refl
  | inr (h, e) ↦ rw e refl
]

get-IsSame : (online : Bool) (k : Text) (s : Keys) → IsSame s (get_key_record online k s).0
unfolding get_key_record
get-IsSame true k s j = unfold warmed get_key_record in warmed-found (some k) s j
get-IsSame false k s j = ap (λ v. found (view v j)) (look_up-offline k (s.rows k) s)

module _ (config : Config) (now : ℕ) (online : Bool) where
  after-IsSame {ℓ} :
      {A : Type ℓ} (s : Keys) (x : Keys × Outcome A) (next : A → Keys → Keys × Response)
      → IsSame s x.0
      → ((a : A) (s' : Keys) → IsSame s' (next a s').0)
      → IsSame s (after config now online x next).0
  after-IsSame s (v, raised) next h k j = h j
  after-IsSame s (v, returned a) next h k j = k a v j ∙ h j

  or_next-IsSame :
      (s : Keys) (x : Keys × Outcome (Option KeyRecord)) (key_id : Text)
      (next : Keys → Keys × Outcome (Option Text))
      → IsSame s x.0
      → ((s' : Keys) → IsSame s' (next s').0)
      → IsSame s (or_next config now online x key_id next).0
  or_next-IsSame s (v, raised) key_id next h k j = h j
  or_next-IsSame s (v, returned none) key_id next h k j = k v j ∙ h j
  or_next-IsSame s (v, returned (some r)) key_id next h k j = h j

  resolve-IsSame :
      (api_key : Text) (secrets : List Text) (s : Keys)
      → IsSame s (resolve config now online api_key secrets s).0
  unfolding resolve
  resolve-IsSame api_key [] s = λ j. refl
  resolve-IsSame api_key (secret ∷ secrets) s =
      or_next-IsSame s (get_key_record online (config.hmac secret api_key) s)
        (config.hmac secret api_key) (resolve config now online api_key secrets)
        (get-IsSame online (config.hmac secret api_key) s) (resolve-IsSame api_key secrets)

  show_id-IsSame : (key_id : Text) (s : Keys) → IsSame s (show_id config now online key_id s).0
  unfolding show_id show_record
  show_id-IsSame key_id s =
      after-IsSame s (get_key_record online key_id s) (show_record config now online key_id)
        (get-IsSame online key_id s) shown_or_not
    where
      shown_or_not :
          (o : Option KeyRecord) (v : Keys) → IsSame v (show_record config now online key_id o v).0
      shown_or_not none v = λ j. refl
      shown_or_not (some r) v = λ j. refl

  or_404-IsSame :
      (next : Text → Keys → Keys × Response)
      → ((key_id : Text) (v : Keys) → IsSame v (next key_id v).0)
      → (o : Option Text) (v : Keys) → IsSame v (or_404 config now online next o v).0
  unfolding or_404
  or_404-IsSame next h none v = λ j. refl
  or_404-IsSame next h (some key_id) v = h key_id v

  show_key-IsSame : (api_key : Text) (s : Keys) → IsSame s (show_key config now online api_key s).0
  unfolding show_key resolve_or_404
  show_key-IsSame api_key s =
      after-IsSame s (resolve config now online api_key (secrets config now online) s) _
        (resolve-IsSame api_key (secrets config now online) s)
        (or_404-IsSame (show_id config now online) show_id-IsSame)

  unless_refused-IsSame :
      (o : Option Bool) (handler : Keys → Keys × Response) (s : Keys)
      → IsSame s (handler s).0
      → IsSame s (unless_refused config now online o handler s).0
  unfolding unless_refused
  unless_refused-IsSame none handler s h = λ j. refl
  unless_refused-IsSame (some false) handler s h = λ j. refl
  unless_refused-IsSame (some true) handler s h = h

  -- The request has the key of the administrator, which is set.
  abbrev pub IsAuthorised : Option Text → Type 0
  IsAuthorised admin_key = (admin_key ≡ some config.admin_key) × (config.admin_key ≢ [])

  is_among-one :
      (c : ℕ) (key own : Text)
      → is_among (c ∷ key) (own ∷ []) ≡ some true
      → ((c ∷ key) ≡ own) × (own ≢ [])
  unfolding is_among compare_digest unless_equal
  is_among-one c key [] h = cc
  is_among-one c key (d ∷ own) h = elim (Bool-cases (is_ascii (c ∷ key) && is_ascii (d ∷ own))) [
    | inr a ↦ absurd (let no : ◌≡◌ {A = Option Bool} none (some true) = rw a at h in cc)
    | inl a ↦ elim (Bool-cases (same (c ∷ key) (d ∷ own))) [
      | inr b ↦
          absurd (let no : ◌≡◌ {A = Option Bool} (some false) (some true) = rw (a, b) at h in cc)
      | inl b ↦ (eq_of_same (c ∷ key) (d ∷ own) b, cc)
    ]
  ]

  authorized-IsAuthorised :
      (admin_key : Option Text)
      → admin_authorized admin_key (config.admin_key ∷ []) ≡ some true
      → IsAuthorised admin_key
  unfolding admin_authorized
  authorized-IsAuthorised none h = cc
  authorized-IsAuthorised (some []) h = cc
  authorized-IsAuthorised (some (c ∷ key)) h =
      let (e, n) = is_among-one c key config.admin_key h in (ap some e, n)

  for_writers :
      (o : Option Bool) (admin_key : Option Text) (handler : Keys → Keys × Response) (s : Keys)
      → (o ≡ some true → IsAuthorised admin_key)
      → IsSame s (unless_refused config now online o handler s).0 ⊎ IsAuthorised admin_key
  unfolding unless_refused
  for_writers none admin_key handler s h = inl (λ j. refl)
  for_writers (some false) admin_key handler s h = inl (λ j. refl)
  for_writers (some true) admin_key handler s h = inr (h refl)

  dispatch-IsSame :
      (admin_key : Option Text) (command : Command) (s : Keys)
      → IsSame s (dispatch config now online admin_key command s).0 ⊎ IsAuthorised admin_key
  unfolding dispatch
  dispatch-IsSame admin_key (get_key api_key) s = inl (
      unless_refused-IsSame (admin_authorized admin_key (read_keys config now online)) _ s
        (show_key-IsSame api_key s))
  dispatch-IsSame admin_key (create_key api_key r) s =
      for_writers _ admin_key _ s (authorized-IsAuthorised admin_key)
  dispatch-IsSame admin_key (update_key api_key r) s =
      for_writers _ admin_key _ s (authorized-IsAuthorised admin_key)
  dispatch-IsSame admin_key (delete_key api_key) s =
      for_writers _ admin_key _ s (authorized-IsAuthorised admin_key)

  -- No request to the four handlers of `admin/keys.py`, which show, create, update and delete a key,
  -- changes what a lookup of any key returns, unless its header has the key of the administrator, and
  -- that key is not empty: with Redis within reach or not, whatever the request asks for and however
  -- it ends.
  pub handle-IsAuthorised :
      (admin_key : Option Text) (command : Command) (s : State)
      → IsSame s.keys (handle config now online admin_key command s).0.keys
        ⊎ ((admin_key ≡ some config.admin_key) × (config.admin_key ≢ []))
  unfolding handle
  handle-IsAuthorised admin_key command s =
      elim (Bool-cases (check_admin_rate_limit config now online admin_key s.buckets).1) [
        | inl e ↦ rw e (dispatch-IsSame admin_key command s.keys)
        | inr e ↦ rw e (inl (λ j. refl))
      ]
