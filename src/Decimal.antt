-- ===== src/Decimal.antt =====
-- Decimal numbers of the standard library, as src/preferences.cpp uses them: `std::to_string`, and
-- `std::from_chars` on a whole text.
pub mod RoundTrip
use ovmesh_drpp.Base.{
  ℕ, zero, suc, ◌+◌, ◌-◌, ◌*◌, ◌/◌, ◌%◌, Bool, true, false, not, ◌&&◌, ◌||◌, [], ◌∷◌, Option, none,
  some, ◌>>=◌, guard, ◌>>◌, Bytes, ltb, leb, ◌==◌, if◌then◌else◌, ℤ, pos, negsuc,
}

-- The digits of a number in front of a text, with `left` digits to go at most.
unfoldable pub write_digits : (left n : ℕ) → Bytes → Bytes
write_digits zero n out = out
write_digits (suc left) n out =
    let more = write_digits left (n / 10) ((b'0' + n % 10) ∷ out) in
    if n / 10 == 0 then (b'0' + n % 10) ∷ out else more

-- `std::to_string` of a number of at most 64 bits, which has at most 20 digits.
abbrev pub to_string : ℕ → Bytes
to_string n = write_digits 20 n []

abbrev pub signed_to_string : ℤ → Bytes
signed_to_string (pos n) = to_string n
signed_to_string (negsuc n) = b'-' ∷ to_string (n + 1)

-- The number that a text of digits behind `n` denotes.
unfoldable pub read_digits : (n : ℕ) → Bytes → Option ℕ
read_digits n [] = some n
read_digits n (c ∷ s) =
    if leb b'0' c && leb c b'9' then read_digits (n * 10 + (c - b'0')) s else none

-- `std::from_chars` of a type with the greatest value `limit`, where it reads the whole text.
unfoldable pub from_chars : (limit : ℕ) → Bytes → Option ℕ
from_chars limit [] = none
from_chars limit (c ∷ s) = do n ← read_digits 0 (c ∷ s); guard (leb n limit); some n

-- The same for a signed type, whose least value is -(limit + 1).
unfoldable pub signed_from_chars : (limit : ℕ) → Bytes → Option ℤ
signed_from_chars limit [] = none
signed_from_chars limit (c ∷ s) =
    if c == b'-'
    then (from_chars (limit + 1) s >>= λ n. some (if n == 0 then pos 0 else negsuc (n - 1)))
    else (from_chars limit (c ∷ s) >>= λ n. some (pos n))
