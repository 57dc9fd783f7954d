-- ===== src/Redis/Quota/Counting.antt =====
-- The counter of a month counts the reservations that stand.
use gate_flow.Prelude.{
  ℕ, ◌+◌, ◌≤◌, ◌<◌, ◌≡◌, ◌⊎◌, refl, ap, true, false, Option, none, some, arith, ltb, ◌==◌,
  if◌then◌else◌, Bool-cases, inl, inr,
}
use gate_flow.Redis.Key.{Key, read, expire}
use gate_flow.Redis.Quota.{expiry, incr, take_one, reserve_held, reserve, usage, get_monthly_usage}

live_again :
    (now m : ℕ) {n : ℕ} (k : Option (Key ℕ))
    → read now k ≡ some n
    → read now (some (record { value = m; expires_at = expiry k })) ≡ some m
unfolding read
live_again now m none h = cc
live_again now m (some k) h = ground arith

read-expire : (now ttl m : ℕ) → 0 < ttl → read now (some (expire now ttl m)) ≡ some m
unfolding read expire
read-expire now ttl m h = ground arith

pub value-incr :
    (now ttl : ℕ) (o : Option ℕ) (k : Option (Key ℕ)) → (incr now ttl o k).value ≡ usage o + 1
unfolding incr expire
value-incr now ttl none k = omega arith
value-incr now ttl (some n) k = ground arith

pub read-incr :
    (now ttl : ℕ) (o : Option ℕ) (k : Option (Key ℕ))
    → read now k ≡ o
    → 0 < ttl
    → read now (some (incr now ttl o k)) ≡ some (usage o + 1)
unfolding incr
read-incr now ttl none k e h = rw (read-expire now ttl 1 h) (ap some (omega arith))
read-incr now ttl (some n) k e h = elim (Bool-cases (n + 1 == 1)) [
  | inl one ↦ rw (one, read-expire now ttl 1 h) (ap some (ground arith))
  | inr more ↦ rw (more, live_again now (n + 1) k e) refl
]

-- Below the quota a reservation increments, and at the quota it changes nothing.
module _ (now ttl quota : ℕ) where
  pub reserve_granted :
      (k : Option (Key ℕ))
      → get_monthly_usage now k < quota
      → reserve now ttl quota k ≡ (
        some (incr now ttl (read now k) k),
        record { allowed = true; count = get_monthly_usage now k + 1 },
      )
  unfolding reserve
  reserve_granted k h = granted (read now k) h
    where
      granted :
          (o : Option ℕ)
          → usage o < quota
          → reserve_held now ttl quota o k
            ≡ (some (incr now ttl o k), record { allowed = true; count = usage o + 1 })
      granted none h = unfold reserve_held take_one in ground (arith, value-incr now ttl none k)
      granted (some n) h =
          unfold reserve_held take_one in ground (arith, value-incr now ttl (some n) k)

  pub reserve_refused :
      (k : Option (Key ℕ))
      → 0 < quota
      → quota ≤ get_monthly_usage now k
      → reserve now ttl quota k ≡ (k, record { allowed = false; count = get_monthly_usage now k })
  unfolding reserve
  reserve_refused k p h = refused (read now k) h
    where
      refused :
          (o : Option ℕ)
          → quota ≤ usage o
          → reserve_held now ttl quota o k ≡ (k, record { allowed = false; count = usage o })
      refused none h = absurd (omega arith)
      refused (some n) h = unfold reserve_held in ground arith

pub lt_or_le : (a b : ℕ) → (a < b) ⊎ (b ≤ a)
lt_or_le a b = omega arith

-- For a positive quota and time to live: a reservation is granted exactly if fewer than the quota
-- stand; it then counts one more, and otherwise changes nothing.
pub reserve_exact :
    (now ttl quota : ℕ) (k : Option (Key ℕ))
    → 0 < quota
    → 0 < ttl
    → let used = get_monthly_usage now k in
      let (k', reply) = reserve now ttl quota k in
      (reply.allowed ≡ ltb used quota)
      × (get_monthly_usage now k' ≡ (if ltb used quota then used + 1 else used))
      × (reply.allowed ≡ false → k' ≡ k)
reserve_exact now ttl quota k p h = elim (lt_or_le (get_monthly_usage now k) quota) [
  | inl below ↦
      rw (reserve_granted now ttl quota k below, read-incr now ttl (read now k) k refl h)
        (ground arith)
  | inr reached ↦ rw (reserve_refused now ttl quota k p reached) (ground arith)
]
