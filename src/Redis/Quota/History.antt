-- ===== src/Redis/Quota/History.antt =====
-- Any sequence of reservations and refunds on the counter of a month, while its key lives.
use gate_flow.Prelude.{
  ℕ, zero, suc, ◌+◌, ◌-◌, ◌*◌, ◌≤◌, ◌<◌, ◌≡◌, ◌⊎◌, refl, Bool, Option, none, some, List, [], ◌∷◌,
  arith, ◌==◌, if◌then◌else◌, inl, inr, if_both,
}
use gate_flow.Redis.Key.{Key, read, expire, second}
use gate_flow.Redis.Quota.{
  Reply, expiry, incr, usage, get_monthly_usage, reserve, refund_held, refund,
}
use gate_flow.Redis.Quota.Counting.{lt_or_le, value-incr, reserve_granted, reserve_refused}

-- The key is there at every time before `limit`.
abbrev pub Outlives : ℕ → Option (Key ℕ) → Type 0
Outlives limit none = Unit
Outlives limit (some k) = (k.expires_at ≡ none) ⊎ ((e : ℕ) × (k.expires_at ≡ some e) × (limit ≤ e))

-- What the key holds, whatever the time.
abbrev pub held : Option (Key ℕ) → ℕ
held none = 0
held (some k) = k.value

read-held :
    (limit now : ℕ) (k : Key ℕ)
    → Outlives limit (some k)
    → now < limit
    → read now (some k) ≡ some k.value
unfolding read
read-held limit now k (inl e) h = simp e
read-held limit now k (inr (t, e, le)) h = simp e (ground arith)

pub usage-held :
    (limit now : ℕ) (k : Option (Key ℕ))
    → Outlives limit k
    → now < limit
    → get_monthly_usage now k ≡ held k
usage-held limit now none o h = unfold read in refl
usage-held limit now (some k) o h = rw (read-held limit now k o h) refl

pub data Op : Type 0 where
  reservation refunding : Op

abbrev pub granted : Bool → ℕ
granted b = if b then 1 else 0

module _ (ttl : ℕ → ℕ) (quota : ℕ) where
  -- Operations in the order of their times, each with the time since the last one: the key that
  -- they leave, and how many reservations they were granted.
  unfoldable pub run : ℕ → Option (Key ℕ) → List (ℕ × Op) → Option (Key ℕ)
  run now k [] = k
  run now k ((d, reservation) ∷ ops) =
      run (now + d) (reserve (now + d) (ttl (now + d)) quota k).0 ops
  run now k ((d, refunding) ∷ ops) = run (now + d) (some (refund (now + d) k)) ops

  unfoldable pub grants : ℕ → Option (Key ℕ) → List (ℕ × Op) → ℕ
  grants now k [] = 0
  grants now k ((d, reservation) ∷ ops) =
      let (k', reply) = reserve (now + d) (ttl (now + d)) quota k in
      granted reply.allowed + grants (now + d) k' ops
  grants now k ((d, refunding) ∷ ops) = grants (now + d) (some (refund (now + d) k)) ops

-- The refunds that are made.
unfoldable pub refunds : List (ℕ × Op) → ℕ
refunds [] = 0
refunds ((d, reservation) ∷ ops) = refunds ops
refunds ((d, refunding) ∷ ops) = refunds ops + 1

-- Every operation happens before `limit`.
abbrev pub Before : ℕ → ℕ → List (ℕ × Op) → Type 0
Before limit now [] = Unit
Before limit now ((d, _) ∷ ops) = (now + d < limit) × Before limit (now + d) ops

-- A time to live that is given before `limit` reaches at least to `limit`.
abbrev pub Reaches : (ttl : ℕ → ℕ) → ℕ → Type 0
Reaches ttl limit = (t : ℕ) → t < limit → limit ≤ t + ttl t * second

expiry-Outlives :
    (limit n : ℕ) (k : Option (Key ℕ))
    → Outlives limit k
    → Outlives limit (some (record { value = n; expires_at = expiry k }))
expiry-Outlives limit n none o = inl refl
expiry-Outlives limit n (some k) o = o

incr-Outlives :
    (limit now ttl : ℕ) (o : Option ℕ) (k : Option (Key ℕ))
    → limit ≤ now + ttl * second
    → Outlives limit k
    → Outlives limit (some (incr now ttl o k))
unfolding incr expire
incr-Outlives limit now ttl none k h o = inr (now + ttl * second, refl, h)
incr-Outlives limit now ttl (some n) k h o =
    if_both (λ j. Outlives limit (some j)) (n + 1 == 1) (inr (now + ttl * second, refl, h))
      (expiry-Outlives limit (n + 1) k o)

pub refund-Outlives :
    (limit now : ℕ) (k : Option (Key ℕ)) → Outlives limit k → Outlives limit (some (refund now k))
unfolding refund
refund-Outlives limit now k o = go (read now k)
  where
    go : (o : Option ℕ) → Outlives limit (some (refund_held o k))
    go none = unfold refund_held in inl refl
    go (some zero) = unfold refund_held in inl refl
    go (some (suc n)) = unfold refund_held in expiry-Outlives limit n k o

value-refund_held : (o : Option ℕ) (k : Option (Key ℕ)) → (refund_held o k).value ≡ usage o - 1
unfolding refund_held
value-refund_held none k = omega arith
value-refund_held (some zero) k = omega arith
value-refund_held (some (suc n)) k = omega arith

pub value-refund :
    (now : ℕ) (k : Option (Key ℕ)) → (refund now k).value ≡ get_monthly_usage now k - 1
unfolding refund
value-refund now k = value-refund_held (read now k) k

-- A reservation on a living key: it lives on, stays within the quota, and counts what it grants.
pub record Reserved (quota limit : ℕ) (k : Option (Key ℕ)) (r : Option (Key ℕ) × Reply)
    : Type 0 where
  pub lives : Outlives limit r.0
  pub within : held k ≤ quota → held r.0 ≤ quota
  pub counts : held r.0 ≡ held k + granted r.1.allowed

pub reserve-Reserved :
    (quota limit now ttl : ℕ) (k : Option (Key ℕ))
    → 0 < quota
    → limit ≤ now + ttl * second
    → now < limit
    → Outlives limit k
    → Reserved quota limit k (reserve now ttl quota k)
reserve-Reserved quota limit now ttl k p reach before o =
    let e = usage-held limit now k o before in
    elim (lt_or_le (get_monthly_usage now k) quota) [
      | inl below ↦ rw (reserve_granted now ttl quota k below) (record {
        lives = incr-Outlives limit now ttl (read now k) k reach o;
        within = λ w. omega (arith, value-incr now ttl (read now k) k, e);
        counts = omega (arith, value-incr now ttl (read now k) k, e);
      })
      | inr reached ↦
          rw (reserve_refused now ttl quota k p reached)
            (record { lives = o; within = λ w. w; counts = omega arith })
    ]

module _ (ttl : ℕ → ℕ) (quota limit : ℕ) (positive : 0 < quota) (reaches : Reaches ttl limit) where
  run-held :
      (ops : List (ℕ × Op)) (now : ℕ) (k : Option (Key ℕ))
      → Before limit now ops
      → Outlives limit k
      → held k ≤ quota
      → (held (run ttl quota now k ops) ≤ quota)
        × (grants ttl quota now k ops + held k ≤ held (run ttl quota now k ops) + refunds ops)
  unfolding run grants refunds
  run-held [] now k b o w = (w, omega arith)
  run-held ((d, reservation) ∷ ops) now k b o w =
      let t = now + d in
      let (k', reply) = reserve t (ttl t) quota k in
      let r = reserve-Reserved quota limit t (ttl t) k positive (reaches t b.0) b.0 o in
      let (within, counted) = run-held ops t k' b.1 r.lives (r.within w) in
      (within, omega (arith, r.counts, counted))
  run-held ((d, refunding) ∷ ops) now k b o w =
      let t = now + d in
      let less = value-refund t k in
      let e = usage-held limit t k o b.0 in
      let (within, counted) =
        run-held ops t (some (refund t k)) b.1 (refund-Outlives limit t k o)
          (omega (arith, less, e)) in
      (within, omega (arith, less, e, counted))

-- From a missing counter, whatever the order and the times of the operations before `limit`: the
-- counter is never above the quota, and at most the quota and one for each refund is granted.
pub grants_bound :
    (ttl : ℕ → ℕ) (quota limit now : ℕ) (ops : List (ℕ × Op))
    → 0 < quota
    → Reaches ttl limit
    → Before limit now ops
    → (held (run ttl quota now none ops) ≤ quota)
      × (grants ttl quota now none ops ≤ quota + refunds ops)
grants_bound ttl quota limit now ops p reaches b =
    let (within, counted) = run-held ttl quota limit p reaches ops now none b tt (omega arith) in
    (within, omega (arith, counted))
