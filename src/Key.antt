-- ===== src/Key.antt =====
-- Channel keys: `ChannelKey` of include/ovmesh/protocol.hpp and src/protocol.cpp. Keys are read
-- from hexadecimal text or from padded Base64. A text is the list of its bytes; `std::nullopt` is
-- `none`. The array `data_` has 32 bytes, and a write by index goes through `set`.
pub mod Hex
pub mod Base64
pub mod Encoder
pub mod Canonical
use mathlib.Core.Option
use ovmesh_drpp.Base.{
  ◌>>=◌, ℕ, zero, suc, ◌+◌, ◌-◌, ◌*◌, ◌/◌, ◌^◌, ◌∷◌, ◌≡◌, refl, Bool, not, ◌&&◌, ◌||◌, [], Option,
  none, some, Bytes, length, get_or, set, take, drop, replicate, codes, equal, u8, u32, ◌<<<◌,
  ◌>>>◌, bit_or, bit_and, leb, ◌==◌, if◌then◌else◌,
}

pub record ChannelKey : Type 0 where
  pub data_ : Bytes
  pub size_ : ℕ

abbrev pub empty_key : ChannelKey
empty_key = record { data_ = replicate 32 0; size_ = 0 }

-- `ChannelKey::bytes`
abbrev pub bytes : ChannelKey → Bytes
bytes k = take k.size_ k.data_

abbrev between : ℕ → ℕ → ℕ → Bool
between lo hi c = leb lo c && leb c hi

-- The lambda `digit` of `from_hex`; `none` is its -1.
pub hex_digit : ℕ → Option ℕ
hex_digit c =
    if between b'0' b'9' c
    then some (c - b'0')
    else if between b'a' b'f' c
    then some (c - b'a' + 10)
    else if between b'A' b'F' c
    then some (c - b'A' + 10)
    else none

-- The loop of `from_hex`, with `left` rounds to go at index `i`.
pub hex_loop : (left i : ℕ) → Bytes → ChannelKey → Option ChannelKey
hex_loop zero i hex key = some key
hex_loop (suc left) i hex key = do
  a ← hex_digit (get_or hex (i * 2) 0)
  b ← hex_digit (get_or hex (i * 2 + 1) 0)
  hex_loop left (i + 1) hex (record key { data_ = set key.data_ i (u8 (bit_or (a <<< 4) b)) })

unfoldable pub from_hex : Bytes → Option ChannelKey
unfolding hex_loop hex_digit
from_hex hex =
    if not (length hex == 32) && not (length hex == 64)
    then none
    else hex_loop (length hex / 2) 0 hex (record empty_key { size_ = length hex / 2 })

-- The lambda `digit` of `from_user_input`.
pub base64_digit : ℕ → Option ℕ
base64_digit c =
    if between b'A' b'Z' c
    then some (c - b'A')
    else if between b'a' b'z' c
    then some (c - b'a' + 26)
    else if between b'0' b'9' c
    then some (c - b'0' + 52)
    else if c == b'+'
    then some 62
    else if c == b'/'
    then some 63
    else none

-- The locals of `from_user_input`: the accumulator, the bits that wait in it, and the key.
pub record Decoder : Type 0 where
  pub value : ℕ
  pub bits : ℕ
  pub key : ChannelKey

-- One round: shift a sextet in, and write a byte when eight bits wait.
unfoldable pub absorb : ℕ → Decoder → Decoder
absorb digit d =
    let value = bit_or (u32 (d.value <<< 6)) digit in
    let bits = d.bits + 6 in
    if leb 8 bits
    then record {
      value = value;
      bits = bits - 8;
      key = record {
        data_ = set d.key.data_ d.key.size_ (u8 (value >>> (bits - 8)));
        size_ = d.key.size_ + 1;
      };
    }
    else record { value = value; bits = bits; key = d.key }

pub base64_loop : (left i : ℕ) → Bytes → Decoder → Option Decoder
base64_loop zero i input d = some d
base64_loop (suc left) i input d = do
  digit ← base64_digit (get_or input i 0)
  base64_loop left (i + 1) input (absorb digit d)

-- The unused low bits must be zero.
pub checked_key : Decoder → Option ChannelKey
checked_key d = if bit_and d.value (2 ^ d.bits - 1) == 0 then some d.key else none

abbrev pub public_key_token : Bytes
public_key_token = codes "AQ=="

abbrev pub public_key_hex : Bytes
public_key_hex = codes "d4f1bb3a20290759f0bcffabcf4e6901"

-- The part of `from_user_input` behind the test on the length; `chars` is `data_chars`.
pub from_base64 : ℕ → Bytes → Bytes → Option ChannelKey
unfolding base64_loop absorb base64_digit checked_key
from_base64 chars padding input =
    if not (equal (drop chars input) padding)
    then none
    else base64_loop chars 0 input (record { value = 0; bits = 0; key = empty_key }) >>= checked_key

unfoldable pub from_user_input : Bytes → Option ChannelKey
unfolding from_hex from_base64 equal
from_user_input input =
    if length input == 32 || length input == 64
    then from_hex input
    else if equal input public_key_token
    then from_hex public_key_hex
    else if length input == 24
    then from_base64 22 (codes "==") input
    else if length input == 44
    then from_base64 43 (codes "=") input
    else none
