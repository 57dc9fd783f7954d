-- ===== src/Portal/Trim.antt =====
-- `String.prototype.trim`.
use gate_flow.Prelude.{ℕ, ◌≡◌, Bool, ◌&&◌, ◌||◌, leb, ◌==◌}
use gate_flow.Prelude.Text.{Text}
use gate_flow.Prelude.Strip.{strip, strip_idempotent}

-- White space and line terminators of ECMAScript.
unfoldable pub is_space : ℕ → Bool
is_space c =
    (leb 9 c && leb c 13)
    || c == 32
    || c == 160
    || c == 0x1680
    || (leb 0x2000 c && leb c 0x200a)
    || c == 0x2028
    || c == 0x2029
    || c == 0x202f
    || c == 0x205f
    || c == 0x3000
    || c == 0xfeff

unfoldable pub trim : Text → Text
trim s = strip is_space s

pub trim_idempotent : (s : Text) → trim (trim s) ≡ trim s
unfolding trim
trim_idempotent = strip_idempotent is_space
