-- ===== src/Policy.antt =====
-- The wire policy: `scalar_fits` and `validate_wire` of src/protobuf_guard.hpp. The generated
-- descriptors are those of Nanopb, which is not part of the repository's own code: a section takes
-- the type of descriptors, whether one has fields (`pb_field_iter_begin`), and the search for a tag
-- (`pb_field_iter_find`, with the parts of the iterator that the guard reads).
pub mod Returns
pub mod Accepts
pub mod Decides
pub mod Message
use ovmesh_drpp.Base.{
  ℕ, zero, suc, ◌+◌, ◌-◌, ◌*◌, ◌%◌, ◌^◌, Bool, true, false, not, ◌&&◌, ◌||◌, List, [], ◌∷◌, ◌++◌,
  Option, none, some, Bytes, length, ltb, leb, ◌==◌, if◌then◌else◌,
}
use ovmesh_drpp.Wire.{Reader, Field, done, is_good, open_reader, varint, next}

-- `PB_LTYPE` and `PB_HTYPE` of a field; `other` is any that the guard does not name.
pub data LType : Type 0 where
  bool varint_type uvarint svarint fixed32 fixed64 string : LType
  bytes_type fixed_length_bytes submessage submsg_w_cb other : LType

pub data HType : Type 0 where
  repeated oneof single : HType

pub record FieldInfo (D : Type 0) : Type 0 where
  pub ltype : LType
  pub htype : HType
  pub data_size : ℕ
  pub submsg_desc : Option D

abbrev pub is_repeated : HType → Bool
is_repeated repeated = true
is_repeated _ = false

abbrev pub is_oneof : HType → Bool
is_oneof oneof = true
is_oneof _ = false

-- `value <= positive || value >= ~positive`, where `positive` is the greatest signed value.
pub signed_fits : (bits value : ℕ) → Bool
signed_fits bits value =
    let positive = 2 ^ (bits - 1) - 1 in leb value positive || leb (2 ^ 64 - 1 - positive) value

-- The tests behind the one for `bool`.
pub sized_fits : Bool → (data_size value : ℕ) → Bool
sized_fits signed data_size value =
    if data_size == 0 || ltb 8 data_size
    then false
    else if data_size == 8
    then true
    else if signed
    then signed_fits (data_size * 8) value
    else leb value (2 ^ (data_size * 8) - 1)

unfoldable pub scalar_fits : LType → (data_size value : ℕ) → Bool
scalar_fits bool data_size value = leb value 1
scalar_fits varint_type data_size value = sized_fits true data_size value
scalar_fits _ data_size value = sized_fits false data_size value

-- What follows a check that may run out of fuel.
abbrev pub if_checked : Option Bool → Option Bool → Option Bool
if_checked none rest = none
if_checked (some true) rest = rest
if_checked (some false) rest = some false

-- `std::find(...) != end`
unfoldable pub contains : List ℕ → ℕ → Bool
contains [] x = false
contains (y ∷ ys) x = y == x || contains ys x

-- The body of the loop over a packed field, with the rest of the loop.
pub packed_value : LType → ℕ → Option Bool → Option ℕ → Option Bool
packed_value kind size rest none = some false
packed_value kind size rest (some value) = if scalar_fits kind size value then rest else some false

-- The loop over a packed field; `none` means that the fuel ran out.
pub packed_loop : ℕ → LType → ℕ → Reader → Option Bool
packed_loop zero kind size r = none
packed_loop (suc fuel) kind size r =
    let rest = packed_loop fuel kind size (varint r).1 in
    if done r then some (is_good r) else packed_value kind size rest (varint r).0

-- What the loop of `validate_wire` carries: `singular` (its first `singular_count` entries) and
-- `oneof_seen`.
pub record Seen : Type 0 where
  pub singular : List ℕ
  pub oneof_seen : Bool

abbrev pub nothing_seen : Seen
nothing_seen = record { singular = []; oneof_seen = false }

pub admit_oneof : HType → Seen → Option Seen
admit_oneof h s =
    if is_oneof h
    then (if s.oneof_seen then none else some (record s { oneof_seen = true }))
    else some s

-- The tests on a known field before the `switch`; `none` is `return false`.
pub admit : HType → ℕ → Seen → Option Seen
admit h tag s =
    if is_repeated h
    then admit_oneof h s
    else if contains s.singular tag || length s.singular == 128
    then none
    else admit_oneof h (record s { singular = s.singular ++ tag ∷ [] })

module _ {D : Type 0} where
  pub check_scalar : FieldInfo D → Field → Option Bool
  check_scalar info f =
      if f.wire == 0
      then some (scalar_fits info.ltype info.data_size f.value)
      else if f.wire == 2 && is_repeated info.htype
      then packed_loop (length f.bytes + 1) info.ltype info.data_size (open_reader f.bytes)
      else some false

  pub check_fixed : (wire size : ℕ) → FieldInfo D → Field → Option Bool
  check_fixed wire size info f =
      some (
        f.wire == wire || (is_repeated info.htype && (f.wire == 2 && (length f.bytes % size) == 0)))

  pub check_submessage : (Bytes → D → Option Bool) → FieldInfo D → Field → Option Bool
  check_submessage sub info f =
      if not (f.wire == 2)
      then some false
      else elim info.submsg_desc [ none ↦ some true | some d ↦ sub f.bytes d ]

  -- The `switch`; `sub` is the call for a nested message.
  pub check_kind : LType → (Bytes → D → Option Bool) → FieldInfo D → Field → Option Bool
  check_kind bool sub info f = check_scalar info f
  check_kind varint_type sub info f = check_scalar info f
  check_kind uvarint sub info f = check_scalar info f
  check_kind svarint sub info f = check_scalar info f
  check_kind fixed32 sub info f = check_fixed 5 4 info f
  check_kind fixed64 sub info f = check_fixed 1 8 info f
  check_kind string sub info f = some (f.wire == 2 && not (contains f.bytes 0))
  check_kind bytes_type sub info f = some (f.wire == 2)
  check_kind fixed_length_bytes sub info f = some (f.wire == 2)
  check_kind submessage sub info f = check_submessage sub info f
  check_kind submsg_w_cb sub info f = check_submessage sub info f
  check_kind other sub info f = some false

module _ {D : Type 0} (has_fields : D → Bool) (find : D → ℕ → Option (FieldInfo D)) where
  -- `!has_fields || !pb_field_iter_find(...)` skips a field.
  abbrev pub known : D → ℕ → Option (FieldInfo D)
  known d tag = if has_fields d then find d tag else none

  -- The body of the loop for a field, with the rest of the loop.
  pub one_field : (Bytes → D → Option Bool) → D → Seen → (Seen → Option Bool) → Field → Option Bool
  one_field sub d seen rest f = elim (known d f.tag) [
    | none ↦ rest seen
    | some info ↦ elim (admit info.htype f.tag seen) [
      | none ↦ some false
      | some seen' ↦ if_checked (check_kind info.ltype sub info f) (rest seen')
    ]
  ]

  -- The loop of `validate_wire`; `none` means that the fuel ran out.
  pub policy_loop : (Bytes → D → Option Bool) → D → ℕ → Seen → Reader → Option Bool
  policy_loop sub d zero seen r = none
  policy_loop sub d (suc fuel) seen r = elim (next r).0 [
    | none ↦ some (is_good (next r).1)
    | some f ↦ one_field sub d seen (λ seen'. policy_loop sub d fuel seen' (next r).1) f
  ]

  -- `validate_wire` with so many levels of nesting left: `depth` is 9 less the levels.
  pub validate_at : ℕ → Bytes → D → Option Bool
  validate_at zero bytes d = some false
  validate_at (suc levels) bytes d =
      if ltb 239 (length bytes)
      then some false
      else policy_loop (validate_at levels) d (length bytes + 1) nothing_seen (open_reader bytes)

  -- `validate_wire(bytes, schema)`; a null schema is refused.
  unfoldable pub validate_wire : Bytes → Option D → Option Bool
  validate_wire bytes none = some false
  validate_wire bytes (some d) = validate_at 9 bytes d
