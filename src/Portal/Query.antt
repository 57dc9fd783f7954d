-- ===== src/Portal/Query.antt =====
-- URLSearchParams of the platform, which requestTier writes into a template string: after its
-- standard, the serialisation of application/x-www-form-urlencoded.
pub mod Parse
use gate_flow.Prelude.{
  ℕ, ◌+◌, ◌/◌, ◌%◌, Bool, ◌&&◌, ◌||◌, List, [], ◌∷◌, ◌++◌, leb, ltb, ◌==◌, if◌then◌else◌,
}
use gate_flow.Prelude.Text.{Text}

-- The UTF-8 bytes of a code point.
unfoldable pub utf8 : ℕ → List ℕ
utf8 c =
    if ltb c 0x80
    then c ∷ []
    else if ltb c 0x800
    then (0xc0 + c / 64) ∷ (0x80 + c % 64) ∷ []
    else if ltb c 0x10000
    then (0xe0 + c / 4096) ∷ (0x80 + c / 64 % 64) ∷ (0x80 + c % 64) ∷ []
    else (0xf0 + c / 262144) ∷ (0x80 + c / 4096 % 64) ∷ (0x80 + c / 64 % 64) ∷ (0x80 + c % 64) ∷ []

unfoldable pub utf8_text : Text → List ℕ
utf8_text [] = []
utf8_text (c ∷ s) = utf8 c ++ utf8_text s

-- The bytes that stand for themselves: `* - . _`, digits and letters.
unfoldable pub is_plain : ℕ → Bool
is_plain b =
    b == b'*'
    || b == b'-'
    || b == b'.'
    || b == b'_'
    || (leb b'0' b && leb b b'9')
    || (leb b'A' b && leb b b'Z')
    || (leb b'a' b && leb b b'z')

unfoldable pub hex : ℕ → ℕ
hex d = if ltb d 10 then 48 + d else 55 + d

unfoldable pub encode_byte : ℕ → Text
encode_byte b =
    if b == 32
    then b'+' ∷ []
    else if is_plain b
    then b ∷ []
    else b'%' ∷ hex (b / 16) ∷ hex (b % 16) ∷ []

unfoldable pub encode : List ℕ → Text
encode [] = []
encode (b ∷ bs) = encode_byte b ++ encode bs

-- `name=value` pairs joined by `&`.
unfoldable pub serialize : List (Text × Text) → Text
serialize [] = []
serialize ((k, v) ∷ []) = encode (utf8_text k) ++ b'=' ∷ encode (utf8_text v)
serialize ((k, v) ∷ p ∷ ps) =
    encode (utf8_text k) ++ b'=' ∷ (encode (utf8_text v) ++ b'&' ∷ serialize (p ∷ ps))
