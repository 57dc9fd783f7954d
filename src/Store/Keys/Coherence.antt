-- ===== src/Store/Keys/Coherence.antt =====
-- The cache of `authenticate` beside the store, in one process and with Redis within reach.
use mathlib.Core.Path.{fun_ext, subst}
use gate_flow.Prelude.{
  ℕ, ◌≡◌, refl, sym, ap, ◌∙◌, inl, inr, Bool, true, false, Option, none, some, List, [], ◌∷◌, All,
  All-map, Bool-cases, Option-cases,
}
use gate_flow.Prelude.Text.{Text, same, same_refl, eq_of_same, update, update_other}
use gate_flow.Cache.{delete, remove}
use gate_flow.Cache.Entries.{All-remove, remove-IsAbsent, remove-HasDistinctKeys}
use gate_flow.Models.{KeyRecord, Tier, Authed, known}
use gate_flow.Auth.{
  Directory, Config, Moment, key_name, key_secrets, resolve_key_id, authenticate, invalidate_key,
}
use gate_flow.Auth.Identity.{IsHashOf, IsIdentified, authenticate-IsIdentified}
use gate_flow.Auth.Contents.{IsListed, IsKept, IsBacked, authenticate-IsKept}
use gate_flow.Store.Keys.{
  KeyHash, Keys, validate, count_row, save_key_record, backfill, look_in_redis, look_up,
  get_key_record, delete_row, delete_key_record, increment_request_count,
}
use gate_flow.Store.Keys.Phases.{
  Phase, absent, broken, cached, stored, phase_of_hash, phase_of, view, Op, save, get,
  delete as delete_op, increment, apply, Phases, read,
}
use gate_flow.Store.Keys.Refines.{look_up-Matches}

-- What a lookup returns; an exception counts as a key that is not there.
unfoldable pub found : Phase → Option KeyRecord
found absent = none
found broken = none
found (cached r) = some r
found (stored r) = some r

-- The store as a call of `authenticate` meets it, if nothing else changes it.
abbrev pub directory : (ℕ → Text → Option Tier) → Keys → Directory
directory tiers s = record {
  get_key_record = λ now key_id. found (view s key_id);
  get_tier_config = tiers;
}

-- The lookup of the key that was found puts it into the database.
unfoldable pub warmed : Option Text → Keys → Keys
warmed none s = s
warmed (some key_id) s = (get_key_record true key_id s).0

module _ (config : Config) (tiers : ℕ → Text → Option Tier) where
  abbrev pub identify : Moment → Text → Keys → Option Text
  identify moment api_key s =
      resolve_key_id config (directory tiers s) moment api_key
        (key_secrets config (directory tiers s) moment)

  unfoldable pub login : Moment → Text → Option Text → Keys → Keys × Authed
  login moment api_key client_ip s =
      let s' = warmed (identify moment api_key s) s in
      let (c, out) = authenticate config (directory tiers s') moment api_key client_ip s'.caches in
      (record s' { caches = c }, out)

-- Each record of the cache is the row of its key.
abbrev pub IsRow : Keys → Text → KeyRecord → Type 0
IsRow s key_id r = s.rows key_id ≡ some r

abbrev pub IsCurrent : Keys → Type 0
IsCurrent s = IsKept (IsRow s) s.caches.keys

All-both {ℓ κ μ} :
    {A : Type ℓ} (P : A → Type κ) (Q : A → Type μ) (xs : List A)
    → All P xs
    → All Q xs
    → All (λ x. P x × Q x) xs
All-both P Q [] p q = tt
All-both P Q (x ∷ xs) p q = ((p.0, q.0), All-both P Q xs p.1 q.1)

-- An entry that is dropped may change its row.
delete-IsKept :
    (s : Keys) (k : Text) (row : Option KeyRecord)
    → IsCurrent s
    → IsKept (λ key_id r. update s.rows k row key_id ≡ some r) (delete (key_name k) s.caches.keys)
unfolding delete
delete-IsKept s k row h = record {
  distinct = remove-HasDistinctKeys (key_name k) s.caches.keys h.distinct;
  listed =
      All-map
        (λ e both key_id n.
          let other : same k key_id ≡ false = elim (Bool-cases (same k key_id)) [
            | inl t ↦
                let named : e.0 ≡ key_name k = n ∙ ap key_name (sym (eq_of_same k key_id t)) in
                let no : ◌≡◌ {A = Bool} true false =
                  sym (same_refl (key_name k)) ∙ (rw named at (both.1)) in
                cc
            | inr f ↦ f
          ] in
          update_other s.rows k key_id row other ∙ both.0 key_id n)
        (remove (key_name k) s.caches.keys)
        (All-both (IsListed (IsRow s)) (λ e. same e.0 (key_name k) ≡ false)
          (remove (key_name k) s.caches.keys)
          (All-remove (IsListed (IsRow s)) (key_name k) s.caches.keys h.listed)
          (remove-IsAbsent (key_name k) s.caches.keys h.distinct));
}

save-IsCurrent :
    (k : Text) (r : KeyRecord) (s : Keys) → IsCurrent s → IsCurrent (save_key_record true k r s).0
unfolding save_key_record invalidate_key
save-IsCurrent k r s h = delete-IsKept s k (some r) h

backfill-IsCurrent :
    (k : Text) (o : Option KeyRecord) (s : Keys) → IsCurrent s → IsCurrent (backfill true k o s).0
unfolding backfill
backfill-IsCurrent k none s h = h
backfill-IsCurrent k (some r) s h = save-IsCurrent k r s h

look_up-IsCurrent :
    (k : Text) (row : Option KeyRecord) (s : Keys)
    → IsCurrent s
    → IsCurrent (look_up true k row s).0
unfolding look_up look_in_redis
look_up-IsCurrent k (some r) s h = h
look_up-IsCurrent k none s h = elim (Option-cases (s.hashes k)) [
  | inl e ↦ rw e (h)
  | inr (f, e) ↦ rw e (backfill-IsCurrent k (validate f) s h)
]

delete_row-IsCurrent :
    (k : Text) (row : Option KeyRecord) (s : Keys)
    → IsCurrent s
    → IsCurrent (delete_row true k row s).0
unfolding delete_row invalidate_key
delete_row-IsCurrent k none s h = h
delete_row-IsCurrent k (some r) s h = delete-IsKept s k none h

apply-IsCurrent : (op : Op) (s : Keys) → IsCurrent s → IsCurrent (apply op s).0
unfolding apply get_key_record delete_key_record increment_request_count invalidate_key
apply-IsCurrent (save k r) s h = save-IsCurrent k r s h
apply-IsCurrent (get k) s h = look_up-IsCurrent k (s.rows k) s h
apply-IsCurrent (delete_op k) s h = delete_row-IsCurrent k (s.rows k) s h
apply-IsCurrent (increment k) s h = delete-IsKept s k (count_row (s.rows k)) h

-- A lookup does not change what lookups return.
found-read :
    (k : Text) (p : Phase) (f : Phases)
    → f k ≡ p
    → (j : Text) → found ((read k p f).0 j) ≡ found (f j)
unfolding read found
found-read k absent f e j = refl
found-read k broken f e j = refl
found-read k (stored r) f e j = refl
found-read k (cached r) f e j = elim (Bool-cases (same k j)) [
  | inl t ↦
      let here : found (f j) ≡ some r =
        ap (λ i. found (f i)) (sym (eq_of_same k j t)) ∙ ap found e in
      rw t (sym here)
  | inr t ↦ rw t refl
]

pub warmed-found :
    (o : Option Text) (s : Keys) (j : Text) → found (view (warmed o s) j) ≡ found (view s j)
unfolding warmed get_key_record
warmed-found none s j = refl
warmed-found (some k) s j =
    ap (λ v. found (v j)) (look_up-Matches k s (s.rows k) (s.hashes k) refl).0
    ∙ found-read k (view s k) (view s) refl j

-- What a lookup returned is in the database afterwards.
look_up-rows :
    (k : Text) (row : Option KeyRecord) (h : Option KeyHash) (r : KeyRecord) (s : Keys)
    → s.rows k ≡ row
    → s.hashes k ≡ h
    → found (phase_of row h) ≡ some r
    → (look_up true k row s).0.rows k ≡ some r
unfolding look_up look_in_redis found phase_of phase_of_hash backfill save_key_record
look_up-rows k (some r') h r s e f g = e ∙ g
look_up-rows k none none r s e f g = cc
look_up-rows k none (some h) r s e f g = elim (Option-cases (validate h)) [
  | inl v ↦ absurd (let no : ◌≡◌ {A = Option KeyRecord} none (some r) = rw v at g in cc)
  | inr (r', v) ↦ rw (f, v, same_refl k) (rw v at g)
]

warmed-rows :
    (o : Option Text) (k : Text) (r : KeyRecord) (s : Keys)
    → o ≡ some k
    → found (view (warmed o s) k) ≡ some r
    → (warmed o s).rows k ≡ some r
warmed-rows o k r s e =
    subst (λ i. found (view (warmed i s) k) ≡ some r → (warmed i s).rows k ≡ some r) (sym e) here
  where
    here : found (view (warmed (some k) s) k) ≡ some r → (warmed (some k) s).rows k ≡ some r
    here f =
        unfold warmed get_key_record in
        look_up-rows k (s.rows k) (s.hashes k) r s refl refl (sym (warmed-found (some k) s k) ∙ f)

module _ (config : Config) (tiers : ℕ → Text → Option Tier) where
  warmed-IsCurrent : (o : Option Text) (s : Keys) → IsCurrent s → IsCurrent (warmed o s)
  unfolding warmed get_key_record
  warmed-IsCurrent none s h = h
  warmed-IsCurrent (some k) s h = look_up-IsCurrent k (s.rows k) s h

  login-IsCurrent :
      (moment : Moment) (api_key : Text) (client_ip : Option Text) (s : Keys)
      → IsCurrent s
      → let (s', out) = login config tiers moment api_key client_ip s in
        IsCurrent s' × IsBacked (IsRow s') out
  unfolding login
  login-IsCurrent moment api_key client_ip s h =
      authenticate-IsKept (IsRow s') config (directory tiers s') moment api_key client_ip s'.caches
        (λ key_id r named there.
          warmed-rows (identify config tiers moment api_key s) key_id r s (same_directory ∙ named)
            there)
        (warmed-IsCurrent (identify config tiers moment api_key s) s h)
    where
      s' : Keys
      s' = warmed (identify config tiers moment api_key s) s

      same_directory :
          identify config tiers moment api_key s ≡ identify config tiers moment api_key s'
      same_directory =
          ap
            (λ (d : Directory).
              resolve_key_id config d moment api_key (key_secrets config d moment))
            (ap
              (λ (f : Text → Option KeyRecord). record {
                get_key_record = λ now key_id. f key_id;
                get_tier_config = tiers;
              })
              (sym (fun_ext (warmed-found (identify config tiers moment api_key s) s))))

login-IsHashOf :
    (config : Config) (tiers : ℕ → Text → Option Tier) (moment : Moment) (api_key : Text)
    (client_ip : Option Text) (s : Keys) (r : KeyRecord) (tier : Tier) (key_id : Text)
    → (login config tiers moment api_key client_ip s).1 ≡ known r tier key_id
    → let s' = (login config tiers moment api_key client_ip s).0 in
      IsHashOf config
        (directory tiers s')
        moment
        api_key
        (key_secrets config (directory tiers s') moment)
        key_id
unfolding login
login-IsHashOf config tiers moment api_key client_ip s r tier key_id accepted =
    let s' = warmed (identify config tiers moment api_key s) s in
    subst (IsIdentified config (directory tiers s') moment api_key) accepted
      (authenticate-IsIdentified config (directory tiers s') moment api_key client_ip s'.caches)

-- Calls of the store, and calls of `authenticate`.
pub data Event : Type 0 where
  call : Op → Event
  log_in : Moment → (api_key : Text) → (client_ip : Option Text) → Event

module _ (config : Config) (tiers : ℕ → Text → Option Tier) where
  unfoldable pub after : List Event → Keys → Keys
  after [] s = s
  after (call op ∷ events) s = after events (apply op s).0
  after (log_in moment api_key client_ip ∷ events) s =
      after events (login config tiers moment api_key client_ip s).0

  after-IsCurrent : (events : List Event) (s : Keys) → IsCurrent s → IsCurrent (after events s)
  unfolding after
  after-IsCurrent [] s h = h
  after-IsCurrent (call op ∷ events) s h = after-IsCurrent events _ (apply-IsCurrent op s h)
  after-IsCurrent (log_in moment api_key client_ip ∷ events) s h =
      after-IsCurrent events _ (login-IsCurrent config tiers moment api_key client_ip s h).0

  -- In one process in which no two calls overlap, with Redis within reach and nothing else that
  -- writes the database, the cache of `authenticate` is never behind: after any calls of the store and
  -- of `authenticate`, from an empty cache, a key is accepted under the hash that one of the secrets gives
  -- it, with the record that the row of that hash has, however long the cache keeps entries.
  pub login-IsRow :
      (events : List Event) (s : Keys) (moment : Moment) (api_key : Text) (client_ip : Option Text)
      (r : KeyRecord) (tier : Tier) (key_id : Text)
      → s.caches.keys ≡ []
      → (login config tiers moment api_key client_ip (after events s)).1 ≡ known r tier key_id
      → let s' = (login config tiers moment api_key client_ip (after events s)).0 in
        (s'.rows key_id ≡ some r)
        × IsHashOf config
            (directory tiers s')
            moment
            api_key
            (key_secrets config (directory tiers s') moment)
            key_id
  login-IsRow events s moment api_key client_ip r tier key_id empty accepted =
      let start : IsCurrent s =
        subst (IsKept (IsRow s)) (sym empty) (record { distinct = tt; listed = tt }) in
      (
        (login-IsCurrent config tiers moment api_key client_ip (after events s)
              (after-IsCurrent events s start)).1
            r tier key_id accepted,
        login-IsHashOf config tiers moment api_key client_ip (after events s) r tier key_id
            accepted,
      )
