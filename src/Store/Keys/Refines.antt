-- ===== src/Store/Keys/Refines.antt =====
-- The store of keys refines a map from keys to their phases.
use mathlib.Core.Path.{fun_ext}
use gate_flow.Prelude.{
  ◌≡◌, refl, sym, ap, ◌∙◌, inl, inr, Bool, true, Option, none, some, List, [], ◌∷◌, Bool-cases,
  Option-cases,
}
use gate_flow.Prelude.Text.{Text, same, eq_of_same, update}
use gate_flow.Models.{KeyRecord}
use gate_flow.Store.Keys.{
  KeyHash, Keys, or_empty, validate_fields, validate, count_row, count_hash, write, save_key_record,
  backfill, look_in_redis, look_up, get_key_record, delete_row, delete_key_record,
  increment_request_count,
}
use gate_flow.Store.Keys.Phases.{
  Phase, phase_of_hash, phase_of, view, Op, save, get, delete, increment, Answer, got, deleted,
  answer, apply, run, Phases, read, remove, counted_once, step, replay,
}

-- A change of the row and the hash of one key.
view-update :
    (s : Keys) (k : Text) (row : Option KeyRecord) (h : Option KeyHash)
    → (λ j. phase_of (update s.rows k row j) (update s.hashes k h j))
      ≡ update (view s) k (phase_of row h)
view-update s k row h = fun_ext (λ j. at j)
  where
    at :
        (j : Text)
        → phase_of (update s.rows k row j) (update s.hashes k h j)
          ≡ update (view s) k (phase_of row h) j
    at j = elim (Bool-cases (same k j)) [ inl e ↦ rw e refl | inr e ↦ rw e refl ]

-- Writing what is there already changes nothing.
update_same : (f : Text → Phase) (k : Text) (p : Phase) → f k ≡ p → update f k p ≡ f
update_same f k p h = fun_ext (λ j. at j)
  where
    at : (j : Text) → update f k p j ≡ f j
    at j = elim (Bool-cases (same k j)) [
      | inl e ↦ rw e (sym h ∙ ap f (eq_of_same k j e))
      | inr e ↦ rw e refl
    ]

count_hash-fields :
    (h : KeyHash) (a b : Option Text) (c : Option Bool)
    → phase_of_hash (validate_fields (count_hash h) a b c)
      ≡ counted_once (phase_of_hash (validate_fields h a b c))
unfolding validate_fields count_hash phase_of_hash counted_once
count_hash-fields h none b c = refl
count_hash-fields h (some a) none c = refl
count_hash-fields h (some a) (some b) none = refl
count_hash-fields h (some a) (some b) (some c) = refl

phase_counted :
    (row : Option KeyRecord) (h : Option KeyHash)
    → phase_of (count_row row) (some (count_hash (or_empty h))) ≡ counted_once (phase_of row h)
unfolding phase_of count_row counted_once validate count_hash
phase_counted (some r) h = refl
phase_counted none none = unfold validate_fields phase_of_hash in refl
phase_counted none (some h) = count_hash-fields h h.user_id h.tier h.active

-- The phases and the answer of a call are those of its specification.
abbrev pub Matches : Phases × Answer → Keys × Answer → Type 0
Matches (f, a) (s, b) = (view s ≡ f) × (b ≡ a)

save-Matches :
    (k : Text) (r : KeyRecord) (s : Keys) → Matches (step (save k r) (view s)) (apply (save k r) s)
unfolding apply step save_key_record phase_of
save-Matches k r s = (view-update s k (some r) _, refl)

backfill-Matches :
    (k : Text) (s : Keys) (o : Option KeyRecord)
    → Matches (read k (phase_of_hash o) (view s)) (answer got (backfill true k o s))
unfolding backfill phase_of_hash read save_key_record phase_of
backfill-Matches k s none = (refl, refl)
backfill-Matches k s (some r) =
    (view-update s k (some r) (some (write r (or_empty (s.hashes k)))), refl)

pub look_up-Matches :
    (k : Text) (s : Keys) (row : Option KeyRecord) (h : Option KeyHash)
    → s.hashes k ≡ h
    → Matches (read k (phase_of row h) (view s)) (answer got (look_up true k row s))
unfolding look_up look_in_redis phase_of read
look_up-Matches k s (some r) h e = (refl, refl)
look_up-Matches k s none none e = rw e (refl, refl)
look_up-Matches k s none (some h) e = rw e (unfold read in backfill-Matches k s (validate h))

delete_row-Matches :
    (k : Text) (s : Keys) (row : Option KeyRecord) (h : Option KeyHash)
    → Matches (remove k (phase_of row h) (view s)) (answer deleted (delete_row true k row s))
unfolding delete_row phase_of remove
delete_row-Matches k s (some r) h = (view-update s k none none, refl)
delete_row-Matches k s none none = (refl, refl)
delete_row-Matches k s none (some h) = elim (Option-cases (validate h)) [
  | inl e ↦ rw e (unfold phase_of_hash in (refl, refl))
  | inr (r, e) ↦ rw e (unfold phase_of_hash in (refl, refl))
]

pub apply-Matches : (op : Op) (s : Keys) → Matches (step op (view s)) (apply op s)
unfolding apply step get_key_record delete_key_record
apply-Matches (save k r) s = unfold apply step in save-Matches k r s
apply-Matches (get k) s = look_up-Matches k s (s.rows k) (s.hashes k) refl
apply-Matches (delete k) s = delete_row-Matches k s (s.rows k) (s.hashes k)
apply-Matches (increment k) s = (
  unfold increment_request_count in
      view-update s k (count_row (s.rows k)) (some (count_hash (or_empty (s.hashes k))))
      ∙ ap (update (view s) k) (phase_counted (s.rows k) (s.hashes k)),
  refl,
)

-- While Redis is within reach, any calls of the store answer, and leave the keys, as they do on a map
-- from keys to their phases: a key is found in the database, in Redis alone, in a hash that is no
-- record, or nowhere.
pub run-replay :
    (ops : List Op) (s : Keys)
    → (view (run ops s).0 ≡ (replay ops (view s)).0) × ((run ops s).1 ≡ (replay ops (view s)).1)
unfolding run replay
run-replay [] s = (refl, refl)
run-replay (op ∷ ops) s =
    let (e, a) = apply-Matches op s in
    let (f, b) = run-replay ops (apply op s).0 in
    (
      f ∙ ap (λ v. (replay ops v).0) e,
      ap (λ x. x ∷ (run ops (apply op s).0).1) a
          ∙ ap (λ r. (step op (view s)).1 ∷ r) (b ∙ ap (λ v. (replay ops v).1) e),
    )
