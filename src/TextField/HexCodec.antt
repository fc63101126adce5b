-- ===== src/TextField/HexCodec.antt =====
-- `hex_encode` and `hex_decode` of src/preferences.cpp against each other.
use mathlib.Core.Option.{some-injective}
use ovmesh_drpp.Base.{
  ℕ, ◌*◌, ◌/◌, ◌%◌, ◌<◌, ◌≤◌, Bool, true, false, not, ◌||◌, [], ◌∷◌, Option, none, some, Bytes,
  IsBytes, length, ltb, ◌==◌, ◌≡◌, refl, sym, ap, ◌∙◌, arith, bit_or, bit_and, ◌<<<◌,
}
use ovmesh_drpp.Base.Bits.{and_mask, or_shifted}
use ovmesh_drpp.Base.Tables.{all_below, all_below_sound}
use ovmesh_drpp.TextField.{
  hex_char, hex_encode, lower_hex_digit, decode_loop, hex_decode, valid_text,
}

abbrev reads_back : ℕ → Bool
reads_back n = elim (lower_hex_digit (hex_char n)) [ none ↦ false | some d ↦ d == n ]

digit_table : all_below 16 reads_back ≡ true
unfolding all_below lower_hex_digit
digit_table = refl

lower_hex_digit-hex_char : (n : ℕ) → n < 16 → lower_hex_digit (hex_char n) ≡ some n
lower_hex_digit-hex_char n h =
    go (lower_hex_digit (hex_char n)) (all_below_sound 16 reads_back n digit_table h)
  where
    go : (o : Option ℕ) → (elim o [ none ↦ false | some d ↦ d == n ]) ≡ true → o ≡ some n
    go none e = cc
    go (some d) e = ap some (ground arith)

pub hex_char_injective : (m n : ℕ) → m < 16 → n < 16 → hex_char m ≡ hex_char n → m ≡ n
hex_char_injective m n p q e =
    some-injective _ _
      (sym (lower_hex_digit-hex_char m p) ∙ ap lower_hex_digit e ∙ lower_hex_digit-hex_char n q)

pub decode_loop-hex_encode :
    (value : Bytes) → IsBytes value → decode_loop (hex_encode value) ≡ some value
unfolding decode_loop hex_encode
decode_loop-hex_encode [] h = refl
decode_loop-hex_encode (b ∷ value) (p, h) =
    let low : bit_and b 15 ≡ b % 16 = and_mask 4 b in
    let whole : bit_or ((b / 16) <<< 4) (b % 16) ≡ b =
      or_shifted 4 (b / 16) (b % 16) (omega arith) ∙ omega arith in
    rw low (
      rw
        (
          lower_hex_digit-hex_char (b / 16) (omega arith),
          lower_hex_digit-hex_char (b % 16) (omega arith),
          decode_loop-hex_encode value h,
        )
        (ap (λ c. some (c ∷ value)) whole))

pub length-hex_encode : (value : Bytes) → length (hex_encode value) ≡ length value * 2
unfolding hex_encode
length-hex_encode [] = refl
length-hex_encode (b ∷ value) = omega (arith, length-hex_encode value)

pub valid_text-length :
    (text : Bytes) (limit : ℕ) → valid_text text limit ≡ true → length text ≤ limit
unfolding valid_text
valid_text-length text limit h = ground arith

-- Text of bytes that `valid_text` accepts is read back from its hexadecimal form.
pub hex_decode-hex_encode :
    (value : Bytes) (limit : ℕ)
    → IsBytes value
    → valid_text value limit ≡ true
    → hex_decode (hex_encode value) limit ≡ some value
unfolding hex_decode
hex_decode-hex_encode value limit h v =
    let size = length-hex_encode value in
    let small = valid_text-length value limit v in
    let ok : (ltb (limit * 2) (length (hex_encode value))
          || not (length (hex_encode value) % 2 == 0))
        ≡ false =
      ground arith in
    rw ok (rw (decode_loop-hex_encode value h) (rw v refl))
