-- ===== src/Portal/Query/Parse.antt =====
-- Reading a query string back: the parser of application/x-www-form-urlencoded, as a server applies
-- it, and the round trip with the serialiser.
use mathlib.Core.List.{append_assoc}
use gate_flow.Prelude.{
  ℕ, ◌+◌, ◌*◌, ◌-◌, ◌/◌, ◌%◌, ◌<◌, ◌≡◌, ◌≢◌, inl, inr, refl, ap, true, List, [], ◌∷◌, ◌++◌, map,
  arith, ltb, ◌==◌, if◌then◌else◌, Bool-cases, All, All-append,
}
use gate_flow.Prelude.Text.{Text}
use gate_flow.Prelude.Split.{
  split_on, before, after, Without, split_on_whole, split_on-append, before-append, after-append,
}
use gate_flow.Portal.Query.{utf8, utf8_text, is_plain, hex, encode_byte, encode, serialize}

unhex : ℕ → ℕ
unhex c = if ltb c 65 then c - 48 else c - 55

unplus : ℕ → ℕ
unplus c = if c == b'+' then 32 else c

-- `+` is a space, and `%` with two hexadecimal digits is a byte.
pub decode : Text → List ℕ
unfolding unhex unplus
decode [] = []
decode (c ∷ []) = unplus c ∷ []
decode (c ∷ d ∷ []) = unplus c ∷ unplus d ∷ []
decode (c ∷ d ∷ e ∷ s) =
    let byte = (unhex d * 16 + unhex e) ∷ decode s in
    let single = unplus c ∷ decode (d ∷ e ∷ s) in if c == b'%' then byte else single

pair_of : Text → List ℕ × List ℕ
pair_of s = (decode (before b'=' s), decode (after b'=' s))

-- The pairs of byte strings that a query string stands for.
pub parse : Text → List (List ℕ × List ℕ)
unfolding pair_of
parse s = map pair_of (split_on b'&' s)

decode_single : (c : ℕ) (s : Text) → c ≢ b'%' → c ≢ b'+' → decode (c ∷ s) ≡ c ∷ decode s
unfolding decode
decode_single c [] h k = ground arith
decode_single c (d ∷ []) h k = ground arith
decode_single c (d ∷ e ∷ s) h k = ground arith

decode_plus : (s : Text) → decode (b'+' ∷ s) ≡ 32 ∷ decode s
unfolding decode
decode_plus [] = refl
decode_plus (d ∷ []) = refl
decode_plus (d ∷ e ∷ s) = refl

unhex-hex : (d : ℕ) → d < 16 → unhex (hex d) ≡ d
unfolding unhex hex
unhex-hex d h = ground arith

abbrev IsByte : ℕ → Type 0
IsByte b = b < 256

decode_percent :
    (d e : ℕ) (s : Text) → decode (b'%' ∷ d ∷ e ∷ s) ≡ (unhex d * 16 + unhex e) ∷ decode s
unfolding decode
decode_percent d e s = refl

-- No byte that stands for itself has a meaning in a query string.
plain-reserved : (b : ℕ) → is_plain b ≡ true → (b ≢ b'%') × (b ≢ b'+') × (b ≢ b'&') × (b ≢ b'=')
unfolding is_plain
plain-reserved b h = ground arith

decode-encode_byte : (b : ℕ) (s : Text) → b < 256 → decode (encode_byte b ++ s) ≡ b ∷ decode s
unfolding encode_byte
decode-encode_byte b s h = elim (Bool-cases (b == 32)) [
  | inl space ↦ rw space (rw (decode_plus s) (ap (λ c. c ∷ decode s) (ground arith)))
  | inr other ↦ elim (Bool-cases (is_plain b)) [
    | inl plain ↦
        let (p, q, _, _) = plain-reserved b plain in rw (other, plain) (decode_single b s p q)
    | inr coded ↦
        rw (other, coded)
          (rw (decode_percent, unhex-hex (b / 16) (omega arith), unhex-hex (b % 16) (omega arith))
            (ap (λ c. c ∷ decode s) (omega arith)))
  ]
]

decode-encode : (bs : List ℕ) → All IsByte bs → decode (encode bs) ≡ bs
unfolding encode
decode-encode [] h = unfold decode in refl
decode-encode (b ∷ bs) h = rw (decode-encode_byte b (encode bs) h.0, decode-encode bs h.1) refl

abbrev IsSafe : ℕ → Type 0
IsSafe c = (c ≢ b'&') × (c ≢ b'=')

hex-IsSafe : (d : ℕ) → d < 16 → IsSafe (hex d)
unfolding hex
hex-IsSafe d h = ground arith

encode_byte-IsSafe : (b : ℕ) → b < 256 → All IsSafe (encode_byte b)
unfolding encode_byte
encode_byte-IsSafe b h = elim (Bool-cases (b == 32)) [
  | inl space ↦ rw space (ground arith)
  | inr other ↦ elim (Bool-cases (is_plain b)) [
    | inl plain ↦ let (_, _, p, q) = plain-reserved b plain in rw (other, plain) ((p, q), tt)
    | inr coded ↦
        rw (other, coded)
          (
            ground arith,
            (hex-IsSafe (b / 16) (omega arith), (hex-IsSafe (b % 16) (omega arith), tt)),
          )
  ]
]

utf8-IsByte : (c : ℕ) → c < 0x110000 → All IsByte (utf8 c)
unfolding utf8
utf8-IsByte c h = ground arith

encode-IsSafe : (bs : List ℕ) → All IsByte bs → All IsSafe (encode bs)
unfolding encode
encode-IsSafe [] h = tt
encode-IsSafe (b ∷ bs) h =
    All-append IsSafe (encode_byte b) (encode bs) (encode_byte-IsSafe b h.0) (encode-IsSafe bs h.1)

-- A code point of Unicode.
abbrev pub IsScalar : ℕ → Type 0
IsScalar c = c < 0x110000

utf8_text-IsByte : (s : Text) → All IsScalar s → All IsByte (utf8_text s)
unfolding utf8_text
utf8_text-IsByte [] h = tt
utf8_text-IsByte (c ∷ s) h =
    All-append IsByte (utf8 c) (utf8_text s) (utf8-IsByte c h.0) (utf8_text-IsByte s h.1)

decode-encode_text : (s : Text) → All IsScalar s → decode (encode (utf8_text s)) ≡ utf8_text s
decode-encode_text s h = decode-encode (utf8_text s) (utf8_text-IsByte s h)

encode_text-IsSafe : (s : Text) → All IsScalar s → All IsSafe (encode (utf8_text s))
encode_text-IsSafe s h = encode-IsSafe (utf8_text s) (utf8_text-IsByte s h)

no_ampersand : (s : Text) → All IsSafe s → Without b'&' s
no_ampersand [] h = tt
no_ampersand (c ∷ s) h = (h.0.0, no_ampersand s h.1)

no_equals : (s : Text) → All IsSafe s → Without b'=' s
no_equals [] h = tt
no_equals (c ∷ s) h = (h.0.1, no_equals s h.1)

abbrev pub IsUnicode : Text × Text → Type 0
IsUnicode p = All IsScalar p.0 × All IsScalar p.1

-- The bytes of a pair of texts.
abbrev pub bytes : Text × Text → List ℕ × List ℕ
bytes p = (utf8_text p.0, utf8_text p.1)

piece : Text × Text → Text
piece p = encode (utf8_text p.0) ++ b'=' ∷ encode (utf8_text p.1)

pair_of-piece : (p : Text × Text) → IsUnicode p → pair_of (piece p) ≡ bytes p
unfolding pair_of piece
pair_of-piece p h =
    let k = no_equals (encode (utf8_text p.0)) (encode_text-IsSafe p.0 h.0) in
    rw (before-append b'=' _ (encode (utf8_text p.1)) k, after-append b'=' _ _ k)
      (rw (decode-encode_text p.0 h.0, decode-encode_text p.1 h.1) refl)

piece-Without : (p : Text × Text) → IsUnicode p → Without b'&' (piece p)
unfolding piece
piece-Without p h =
    All-append (λ c. c ≢ b'&') (encode (utf8_text p.0)) (b'=' ∷ encode (utf8_text p.1))
      (no_ampersand _ (encode_text-IsSafe p.0 h.0))
      (ground arith, no_ampersand _ (encode_text-IsSafe p.1 h.1))

serialize-cons :
    (p q : Text × Text) (ps : List (Text × Text))
    → serialize (p ∷ q ∷ ps) ≡ piece p ++ b'&' ∷ serialize (q ∷ ps)
unfolding serialize piece
serialize-cons p q ps = simp append_assoc

-- Parsing the query string of one or more pairs gives the UTF-8 bytes of exactly these pairs, in
-- order, whatever code points of Unicode the texts hold.
pub parse-serialize :
    (p : Text × Text) (ps : List (Text × Text))
    → All IsUnicode (p ∷ ps)
    → parse (serialize (p ∷ ps)) ≡ map bytes (p ∷ ps)
unfolding parse
parse-serialize p [] h =
    unfold serialize piece in
    rw (split_on_whole b'&' (piece p) (piece-Without p h.0))
      (ap (λ b. b ∷ []) (pair_of-piece p h.0))
parse-serialize p (q ∷ ps) h =
    rw
      (
        serialize-cons p q ps,
        split_on-append b'&' (piece p) (serialize (q ∷ ps)) (piece-Without p h.0),
      )
      (rw (pair_of-piece p h.0, ← parse-serialize q ps h.1) (unfold parse in refl))
