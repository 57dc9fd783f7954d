-- ===== src/Portal/Decimal.antt =====
-- Decimal text of a natural number, as JavaScript writes an array index.
use gate_flow.Prelude.{
  ℕ, zero, suc, ◌+◌, ◌*◌, ◌/◌, ◌%◌, ◌-◌, ◌<◌, ◌≡◌, ap, inl, inr, [], ◌∷◌, arith, ◌==◌,
  if◌then◌else◌, Bool-cases,
}
use gate_flow.Prelude.Text.{Text}

-- The digits of `n` in front of `rest`; the fuel bounds the number of digits.
decimal_from : ℕ → ℕ → Text → Text
decimal_from zero n rest = rest
decimal_from (suc fuel) n rest =
    let longer = decimal_from fuel (n / 10) ((48 + n % 10) ∷ rest) in
    if n / 10 == 0 then (48 + n % 10) ∷ rest else longer

unfoldable pub decimal : ℕ → Text
unfolding decimal_from
decimal n = decimal_from (suc n) n []

-- The number that a text of digits stands for, read from the left.
pub value_from : ℕ → Text → ℕ
value_from acc [] = acc
value_from acc (c ∷ s) = value_from (acc * 10 + (c - 48)) s

decimal_from-value :
    (fuel n : ℕ) (rest : Text)
    → n < fuel
    → value_from 0 (decimal_from fuel n rest) ≡ value_from n rest
unfolding decimal_from value_from
decimal_from-value zero n rest h = elim h [ ]
decimal_from-value (suc fuel) n rest h = elim (Bool-cases (n / 10 == 0)) [
  | inl last ↦ rw last (ap (λ t. value_from t rest) (ground arith))
  | inr more ↦
      rw (more, decimal_from-value fuel (n / 10) ((48 + n % 10) ∷ rest) (ground arith))
        (ap (λ t. value_from t rest) (omega arith))
]

-- The fuel is enough: the text reads back as the number.
pub value_from-decimal : (n : ℕ) → value_from 0 (decimal n) ≡ n
unfolding decimal value_from
value_from-decimal n = decimal_from-value (suc n) n [] (omega arith)
