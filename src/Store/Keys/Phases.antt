-- ===== src/Store/Keys/Phases.antt =====
-- What a key is to the callers of the store, whatever rows and hashes hold it, and the calls on that.
use gate_flow.Prelude.{Bool, true, false, Option, none, some, List, [], ◌∷◌}
use gate_flow.Prelude.Text.{Text, update}
use gate_flow.Models.{KeyRecord}
use gate_flow.Store.Keys.{
  KeyHash, Keys, Outcome, returned, raised, validate, count_one, save_key_record, get_key_record,
  delete_key_record, increment_request_count,
}

-- Nowhere; a hash that is no record; a record in Redis alone; a row of the database.
pub data Phase : Type 0 where
  absent broken : Phase
  cached stored : KeyRecord → Phase

unfoldable pub phase_of_hash : Option KeyRecord → Phase
phase_of_hash none = broken
phase_of_hash (some r) = cached r

unfoldable pub phase_of : Option KeyRecord → Option KeyHash → Phase
phase_of (some r) h = stored r
phase_of none none = absent
phase_of none (some h) = phase_of_hash (validate h)

abbrev pub view : Keys → Text → Phase
view s k = phase_of (s.rows k) (s.hashes k)

-- A call, and what it answers.
pub data Op : Type 0 where
  save : Text → KeyRecord → Op
  get delete increment : Text → Op

pub data Answer : Type 0 where
  saved : Outcome (Unit {0}) → Answer
  got : Outcome (Option KeyRecord) → Answer
  deleted : Outcome Bool → Answer
  counted : Answer

abbrev pub answer {ℓ} : {A : Type ℓ} → (A → Answer) → Keys × A → Keys × Answer
answer f (s, a) = (s, f a)

-- The calls while Redis is within reach.
unfoldable pub apply : Op → Keys → Keys × Answer
apply (save k r) s = answer saved (save_key_record true k r s)
apply (get k) s = answer got (get_key_record true k s)
apply (delete k) s = answer deleted (delete_key_record true k s)
apply (increment k) s = (increment_request_count true k s, counted)

unfoldable pub run : List Op → Keys → Keys × List Answer
run [] s = (s, [])
run (op ∷ ops) s = let (s', a) = apply op s in let (s'', rest) = run ops s' in (s'', a ∷ rest)

abbrev pub Phases : Type 0
Phases = Text → Phase

-- The same calls, on what the keys are.
unfoldable pub read : Text → Phase → Phases → Phases × Answer
read k absent f = (f, got (returned none))
read k broken f = (f, got raised)
read k (cached r) f = (update f k (stored r), got (returned (some r)))
read k (stored r) f = (f, got (returned (some r)))

unfoldable pub remove : Text → Phase → Phases → Phases × Answer
remove k (stored r) f = (update f k absent, deleted (returned true))
remove k _ f = (f, deleted (returned false))

abbrev pub one_more : KeyRecord → KeyRecord
one_more r = record r { request_count_lifetime = count_one r.request_count_lifetime }

unfoldable pub counted_once : Phase → Phase
counted_once absent = broken
counted_once broken = broken
counted_once (cached r) = cached (one_more r)
counted_once (stored r) = stored (one_more r)

unfoldable pub step : Op → Phases → Phases × Answer
step (save k r) f = (update f k (stored r), saved (returned tt))
step (get k) f = read k (f k) f
step (delete k) f = remove k (f k) f
step (increment k) f = (update f k (counted_once (f k)), counted)

unfoldable pub replay : List Op → Phases → Phases × List Answer
replay [] f = (f, [])
replay (op ∷ ops) f = let (f', a) = step op f in let (f'', rest) = replay ops f' in (f'', a ∷ rest)
