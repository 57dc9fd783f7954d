-- ===== src/Redis/TokenBucket/Refill.antt =====
-- Bounds on the amounts of one run of the script.
use gate_flow.Prelude.{ℕ, ◌+◌, ◌*◌, ◌≤◌, ◌<◌, arith}
use gate_flow.Prelude.Int.{ℤ, pos, pos_part, sub_ℕ, ◌+ℤ◌, scale, min_ℤ}
use gate_flow.Redis.TokenBucket.{div_ceil}

pub div_ceil-mul : (a b : ℕ) → 0 < b → a ≤ div_ceil a b * b
unfolding div_ceil
div_ceil-mul a b h = grind arith

pub mul_le : (a b c : ℕ) → a ≤ b → a * c ≤ b * c
mul_le a b c h = grind arith

pub min_ℤ-le : (n : ℕ) (z : ℤ) → pos_part (min_ℤ (pos n) z) ≤ n
unfolding min_ℤ
min_ℤ-le n z = ground arith

pub min_ℤ-le-second : (n : ℕ) (z : ℤ) → pos_part (min_ℤ (pos n) z) ≤ pos_part z
unfolding min_ℤ
min_ℤ-le-second n z = ground arith

pub +ℤ-le : (a b : ℤ) → pos_part (a +ℤ b) ≤ pos_part a + pos_part b
unfolding ◌+ℤ◌
+ℤ-le a b = ground arith

pub scale-le : (a : ℤ) (k : ℕ) → pos_part (scale a k) ≤ pos_part a * k
unfolding scale
scale-le a k = ground arith

pub sub_ℕ-le : (a b e : ℕ) → a ≤ b + e → pos_part (sub_ℕ a b) ≤ e
sub_ℕ-le a b e h = ground arith
