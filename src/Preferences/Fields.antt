-- ===== src/Preferences/Fields.antt =====
-- The fields of the settings file, as `parse` of src/preferences.cpp reads them: lines of a name and
-- a value, and the values by their type. The `std::map` of fields is a list of names and values.
use ovmesh_drpp.Base.{
  ℕ, zero, suc, ◌+◌, ◌-◌, ◌*◌, ◌^◌, Bool, true, false, not, ◌&&◌, ◌||◌, List, [], ◌∷◌, ◌++◌, Option,
  none, some, ◌>>=◌, ◌>>◌, guard, Bytes, length, ltb, ◌==◌, if◌then◌else◌, codes, equal, get_or, ℤ,
  u32,
}
use ovmesh_drpp.TextField.{hex_decode}
use ovmesh_drpp.Decimal.{to_string, signed_to_string, from_chars, signed_from_chars}

abbrev pub Fields : Type 0
Fields = List (Bytes × Bytes)

-- The text in front of the first `mark`, and the text behind it.
unfoldable pub break_at : (mark : ℕ) → Bytes → Option (Bytes × Bytes)
break_at mark [] = none
break_at mark (c ∷ s) =
    let rest = break_at mark s in
    if c == mark then some ([], s) else (rest >>= λ (a, b). some (c ∷ a, b))

-- `fields.at`
unfoldable pub at : Bytes → Fields → Option Bytes
at name [] = none
at name ((key, value) ∷ fields) =
    let rest = at name fields in if equal key name then some value else rest

abbrev pub contains : Bytes → Fields → Bool
contains name fields = elim (at name fields) [ none ↦ false | some _ ↦ true ]

unfoldable pub contains_all : List Bytes → Fields → Bool
contains_all [] fields = true
contains_all (name ∷ names) fields = contains name fields && contains_all names fields

-- One round of the first loop, on the text from `start` on: a line gives a field.
unfoldable pub read_field : Fields → Bytes → Option Fields
read_field fields line = do
  (key, value) ← break_at b'=' line
  guard (not (length key == 0) && ltb (length fields) 42)
  guard (not (contains key fields))
  some (fields ++ (key, value) ∷ [])

-- The first loop; every round takes a byte at least, so that as many rounds as there are bytes are
-- enough.
unfoldable pub read_fields : (fuel : ℕ) → Fields → Bytes → Option Fields
read_fields fuel fields [] = some fields
read_fields zero fields (c ∷ s) = none
read_fields (suc fuel) fields (c ∷ s) = do
  (line, rest) ← break_at 10 (c ∷ s)
  more ← read_field fields line
  read_fields fuel more rest

-- The lambda `boolean`.
unfoldable pub boolean_value : Bytes → Option Bool
boolean_value value =
    if equal value (codes "0")
    then some false
    else if equal value (codes "1")
    then some true
    else none

abbrev pub boolean : Bytes → Fields → Option Bool
boolean name fields = at name fields >>= boolean_value

-- The lambda `integer` for an unsigned type with the greatest value `limit`.
unfoldable pub integer_value : (limit : ℕ) → Bytes → Option ℕ
integer_value limit value = do n ← from_chars limit value; guard (equal (to_string n) value); some n

abbrev pub integer : (limit : ℕ) → Bytes → Fields → Option ℕ
integer limit name fields = at name fields >>= integer_value limit

-- The same for a signed type.
unfoldable pub signed_integer_value : (limit : ℕ) → Bytes → Option ℤ
signed_integer_value limit value = do
  n ← signed_from_chars limit value
  guard (equal (signed_to_string n) value)
  some n

abbrev pub signed_integer : (limit : ℕ) → Bytes → Fields → Option ℤ
signed_integer limit name fields = at name fields >>= signed_integer_value limit

abbrev pub text : (limit : ℕ) → Bytes → Fields → Option Bytes
text limit name fields = at name fields >>= λ value. hex_decode value limit

-- The loop over the digits of the baud rate.
unfoldable pub baud_loop : ℕ → Bytes → Option ℕ
baud_loop n [] = some n
baud_loop n (digit ∷ s) =
    if ltb digit b'0' || ltb b'9' digit
    then none
    else baud_loop (u32 (u32 (n * 10) + (digit - b'0'))) s

unfoldable pub baud_value : Bytes → Option ℕ
baud_value baud =
    if length baud == 0 || ltb 6 (length baud) || get_or baud 0 0 == b'0'
    then none
    else baud_loop 0 baud

abbrev pub max_u32 : ℕ
max_u32 = 2 ^ 32 - 1

abbrev pub max_u64 : ℕ
max_u64 = 2 ^ 64 - 1
