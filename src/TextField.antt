-- ===== src/TextField.antt =====
-- Text in the settings file: `valid_text`, `hex_encode` and `hex_decode` of src/preferences.cpp. A
-- `std::string` is the list of its bytes; `none` is a throw.
pub mod HexCodec
use ovmesh_drpp.Base.{
  ℕ, zero, suc, ◌+◌, ◌-◌, ◌*◌, ◌%◌, Bool, true, false, not, ◌&&◌, ◌||◌, [], ◌∷◌, ◌++◌, Option, none,
  some, ◌>>=◌, ◌>>◌, guard, Bytes, length, ltb, leb, ◌==◌, if◌then◌else◌, get_or, codes, ◌<<<◌,
  ◌>>>◌, bit_or, bit_and,
}

-- What the first byte of a longer form sets: `value`, `remaining` and `minimum`.
pub record Lead : Type 0 where
  pub value : ℕ
  pub remaining : ℕ
  pub minimum : ℕ

pub lead : ℕ → Option Lead
lead first =
    if leb 0xc2 first && leb first 0xdf
    then some (record { value = bit_and first 0x1f; remaining = 1; minimum = 0x80 })
    else if leb 0xe0 first && leb first 0xef
    then some (record { value = bit_and first 0x0f; remaining = 2; minimum = 0x800 })
    else if leb 0xf0 first && leb first 0xf4
    then some (record { value = bit_and first 7; remaining = 3; minimum = 0x10000 })
    else none

-- The inner loop, with `remaining` rounds to go.
pub continuation : (remaining value : ℕ) → Bytes → Option (ℕ × Bytes)
continuation zero value s = some (value, s)
continuation (suc n) value [] = none
continuation (suc n) value (next ∷ s) =
    if bit_and next 0xc0 == 0x80
    then continuation n (bit_or (value <<< 6) (bit_and next 0x3f)) s
    else none

-- The tests behind the inner loop, and the rest of the text.
pub after_tail : (Bytes → Bool) → (minimum : ℕ) → Option (ℕ × Bytes) → Bool
after_tail rest minimum none = false
after_tail rest minimum (some (value, s)) =
    if ltb value minimum || ltb 0x10ffff value || (leb 0xd800 value && leb value 0xdfff)
    then false
    else rest s

pub after_lead : (Bytes → Bool) → Option Lead → Bytes → Bool
after_lead rest none s = false
after_lead rest (some l) s =
    if ltb (length s) l.remaining
    then false
    else after_tail rest l.minimum (continuation l.remaining l.value s)

-- The loop of `valid_text`; every round takes a byte, so that as many rounds as there are bytes
-- are enough.
unfoldable pub valid_loop : ℕ → Bytes → Bool
valid_loop fuel [] = true
valid_loop zero (first ∷ s) = false
valid_loop (suc fuel) (first ∷ s) =
    if ltb first 0x20 || first == 0x7f
    then false
    else if ltb first 0x80
    then valid_loop fuel s
    else after_lead (λ s'. valid_loop fuel s') (lead first) s

unfoldable pub valid_text : Bytes → (limit : ℕ) → Bool
valid_text text limit = if ltb limit (length text) then false else valid_loop (length text) text

-- `digits[n]`
abbrev pub hex_char : ℕ → ℕ
hex_char n = get_or (codes "0123456789abcdef") n 0

unfoldable pub hex_encode : Bytes → Bytes
hex_encode [] = []
hex_encode (byte ∷ value) = hex_char (byte >>> 4) ∷ hex_char (bit_and byte 15) ∷ hex_encode value

-- The lambda `digit`.
unfoldable pub lower_hex_digit : ℕ → Option ℕ
lower_hex_digit c =
    if leb b'0' c && leb c b'9'
    then some (c - b'0')
    else if leb b'a' c && leb c b'f'
    then some (c - b'a' + 10)
    else none

-- The loop of `hex_decode`; the length is even there.
unfoldable pub decode_loop : Bytes → Option Bytes
decode_loop (a ∷ b ∷ value) = do
  high ← lower_hex_digit a
  low ← lower_hex_digit b
  rest ← decode_loop value
  some (bit_or (high <<< 4) low ∷ rest)
decode_loop _ = some []

unfoldable pub hex_decode : Bytes → (limit : ℕ) → Option Bytes
hex_decode value limit = do
  guard (not (ltb (limit * 2) (length value) || not (length value % 2 == 0)))
  decoded ← decode_loop value
  guard (valid_text decoded limit)
  some decoded
