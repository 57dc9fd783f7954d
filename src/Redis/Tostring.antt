-- ===== src/Redis/Tostring.antt =====
-- `tostring` of Lua on a number, which writes 14 significant digits: a count of microseconds since
-- the epoch is rounded to tenths of a millisecond, from 10^15 to 10^16 of them. Amounts above 10^26
-- keep more digits here than they should; a tie goes up.
use gate_flow.Prelude.{
  ℕ, zero, suc, ◌+◌, ◌*◌, ◌/◌, ◌≤◌, ◌<◌, ◌≡◌, inl, inr, true, arith, ltb, Bool-cases, if◌then◌else◌,
}
use gate_flow.Prelude.Int.{ℤ, pos, negsuc, pos_part, sub_ℕ}

-- The unit of the last digit that is written.
unfoldable pub unit_from : ℕ → ℕ → ℕ → ℕ
unit_from zero unit n = unit
unit_from (suc more) unit n =
    let rest = unit_from more (unit * 10) n in if ltb n (unit * 100000000000000) then unit else rest

unfoldable pub round_to : ℕ → ℕ → ℕ
round_to unit n = ((2 * n + unit) / (2 * unit)) * unit

unfoldable pub tostring : ℕ → ℕ
tostring n = round_to (unit_from 12 1 n) n

unfoldable pub tostring_ℤ : ℤ → ℤ
tostring_ℤ (pos n) = pos (tostring n)
tostring_ℤ (negsuc n) = sub_ℕ 0 (tostring (suc n))

-- What is written is near the number.
pub record IsClose (n m : ℕ) : Type 0 where
  pub below : n ≤ m + 50
  pub above : m ≤ n + 50

round_to_ones-IsClose : (n : ℕ) → IsClose n (round_to 1 n)
unfolding round_to
round_to_ones-IsClose n = record { below = omega arith; above = omega arith }

round_to_tens-IsClose : (n : ℕ) → IsClose n (round_to 10 n)
unfolding round_to
round_to_tens-IsClose n = record { below = omega arith; above = omega arith }

round_to_hundreds-IsClose : (n : ℕ) → IsClose n (round_to 100 n)
unfolding round_to
round_to_hundreds-IsClose n = record { below = omega arith; above = omega arith }

-- Up to 10^16 the error is at most 50.
pub tostring-IsClose : (n : ℕ) → n < 10000000000000000 → IsClose n (tostring n)
unfolding tostring unit_from
tostring-IsClose n h = elim (Bool-cases (ltb n 100000000000000)) [
  | inl a ↦ rw a (round_to_ones-IsClose n)
  | inr a ↦ elim (Bool-cases (ltb n 1000000000000000)) [
    | inl b ↦ rw (a, b) (round_to_tens-IsClose n)
    | inr b ↦
        let c : ltb n 10000000000000000 ≡ true = ground (arith, h) in
        rw (a, b, c) (round_to_hundreds-IsClose n)
  ]
]

-- A positive part, too.
pub pos_part-tostring_ℤ :
    (z : ℤ) → pos_part z < 10000000000000000 → pos_part (tostring_ℤ z) ≤ pos_part z + 50
unfolding tostring_ℤ
pos_part-tostring_ℤ (pos n) h = (tostring-IsClose n h).above
pos_part-tostring_ℤ (negsuc n) h = ground arith
