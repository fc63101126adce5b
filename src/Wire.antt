-- ===== src/Wire.antt =====
-- The bounded reader of protobuf wire data: `WireReader` and `has_wire_field` of
-- src/protobuf_guard.hpp. A reader is its input, its position and its `good_` flag; a method that
-- returns `bool` and fills a reference returns an option, `none` for false, with the new reader.
pub mod Varint
pub mod Canonical
pub mod Fields
use ovmesh_drpp.Base.{
  ℕ, zero, suc, ◌+◌, ◌-◌, ◌*◌, ◌<◌, Bool, true, false, not, ◌&&◌, ◌||◌, List, [], ◌∷◌, Option, none,
  some, ◌≡◌, refl, Bytes, length, get_or, take, drop, u64, ◌<<<◌, ◌>>>◌, bit_or, bit_and, ltb, ◌==◌,
  if◌then◌else◌,
}

pub record Reader : Type 0 where
  pub input : Bytes
  pub position : ℕ
  pub good : Bool

-- `WireReader::Field`
pub record Field : Type 0 where
  pub tag : ℕ
  pub wire : ℕ
  pub value : ℕ
  pub bytes : Bytes

abbrev pub open_reader : Bytes → Reader
open_reader input = record { input = input; position = 0; good = true }

abbrev pub done : Reader → Bool
done r = r.position == length r.input

-- `good()`
abbrev pub is_good : Reader → Bool
is_good r = r.good && done r

abbrev pub fail : Reader → Reader
fail r = record r { good = false; position = length r.input }

-- `input_[position_]`, and the increment behind it.
abbrev pub here : Reader → ℕ
here r = get_or r.input r.position 0

abbrev pub advance : Reader → Reader
advance r = record r { position = r.position + 1 }

-- The loop of `varint` at round `i`, with `left` rounds to go.
pub varint_loop : (left i value : ℕ) → Reader → Option ℕ × Reader
varint_loop zero i value r = (none, fail r)
varint_loop (suc left) i value r =
    let byte = here r in
    let value' = bit_or value (u64 (bit_and byte 127 <<< (7 * i))) in
    let rest = varint_loop left (i + 1) value' (advance r) in
    if done r
    then (none, fail r)
    else if i == 9 && ltb 1 byte
    then (none, fail (advance r))
    else if bit_and byte 128 == 0
    then (if i == 0 || not (byte == 0) then (some value', advance r) else (none, fail (advance r)))
    else rest

unfoldable pub varint : Reader → Option ℕ × Reader
varint r = varint_loop 10 0 0 r

-- The little-endian read of `next`: `value |= byte << (8 * i)`.
pub fixed_loop : (left i value : ℕ) → Reader → ℕ × Reader
fixed_loop zero i value r = (value, r)
fixed_loop (suc left) i value r =
    fixed_loop left (i + 1) (bit_or value (u64 (here r <<< (8 * i)))) (advance r)

-- Wire type 0, from the result of `varint`.
pub varint_field : ℕ → Option ℕ × Reader → Option Field × Reader
varint_field tag (none, r) = (none, r)
varint_field tag (some value, r) =
    (some (record { tag = tag; wire = 0; value = value; bytes = [] }), r)

-- Wire types 1 and 5.
pub fixed_field : (tag wire count : ℕ) → Reader → Option Field × Reader
fixed_field tag wire count r =
    if ltb (length r.input - r.position) count
    then (none, fail r)
    else (let (value, r') = fixed_loop count 0 0 r in
        (some (record { tag = tag; wire = wire; value = value; bytes = [] }), r'))

-- Wire type 2, from the result of `varint`, which is the count.
pub bytes_field : ℕ → Option ℕ × Reader → Option Field × Reader
bytes_field tag (none, r) = (none, fail r)
bytes_field tag (some count, r) =
    if ltb (length r.input - r.position) count then (none, fail r) else (
      some
          (record { tag = tag; wire = 2; value = 0; bytes = take count (drop r.position r.input) }),
      record r { position = r.position + count },
    )

-- The part of `next` behind the tag, by the wire type.
pub next_value : (tag wire : ℕ) → Reader → Option Field × Reader
next_value tag wire r =
    if wire == 0
    then varint_field tag (varint r)
    else if wire == 1 || wire == 5
    then fixed_field tag wire (if wire == 1 then 8 else 4) r
    else if wire == 2
    then bytes_field tag (varint r)
    else (none, fail r)

-- The part of `next` from the result of the first `varint` on.
pub next_tagged : Option ℕ × Reader → Option Field × Reader
next_tagged (none, r) = (none, fail r)
next_tagged (some tag, r) =
    if ltb 0xffffffff tag || (tag >>> 3) == 0
    then (none, fail r)
    else next_value (tag >>> 3) (bit_and tag 7) r

unfoldable pub next : Reader → Option Field × Reader
next r = if done r then (none, r) else next_tagged (varint r)

-- The body of the loop of `has_wire_field`, with the rest of the loop.
pub found : ℕ → Option Bool → Option Field → Option Bool
found tag rest none = some false
found tag rest (some field) = if field.tag == tag then some true else rest

-- The loop of `has_wire_field`; `none` means that the fuel ran out.
pub find_loop : ℕ → ℕ → Reader → Option Bool
find_loop zero tag r = none
find_loop (suc fuel) tag r = let rest = find_loop fuel tag (next r).1 in found tag rest (next r).0

unfoldable pub has_wire_field : Bytes → ℕ → Option Bool
has_wire_field bytes tag = find_loop (length bytes + 1) tag (open_reader bytes)
