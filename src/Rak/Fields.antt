-- ===== src/Rak/Fields.antt =====
-- The fields of a record that is written with one space between them.
use ovmesh_drpp.Base.{
  ℕ, zero, suc, ◌+◌, ◌≤◌, ◌<◌, List, [], ◌∷◌, ◌++◌, none, some, Bytes, All, length, length-append,
  ==-false, ◌≡◌, refl, arith,
}
use ovmesh_drpp.Preferences.Fields.{break_at}
use ovmesh_drpp.Preferences.Lines.{Without, break_at-append}
use ovmesh_drpp.Rak.{split_fields}

-- A field has a byte at least, and no space.
abbrev pub IsField : Bytes → Type 0
IsField field = (0 < length field) × Without b' ' field

unfoldable pub join : Bytes → List Bytes → Bytes
join field [] = field
join field (next ∷ fields) = field ++ b' ' ∷ join next fields

break_at-Without : (mark : ℕ) (s : Bytes) → Without mark s → break_at mark s ≡ none
unfolding break_at
break_at-Without mark [] h = refl
break_at-Without mark (c ∷ s) (p, h) = rw p (rw (break_at-Without mark s h) refl)

length-join :
    (field : Bytes) (fields : List Bytes) → 0 < length field → 0 < length (join field fields)
unfolding join
length-join field [] h = h
length-join field (next ∷ fields) h = omega (arith, length-append field (b' ' ∷ join next fields))

split_last :
    (fuel n : ℕ) (field : Bytes)
    → IsField field
    → n < 48
    → split_fields (suc fuel) n field ≡ some (field ∷ [])
unfolding split_fields
split_last fuel n field (some_byte, plain) room =
    rw
      (
        ==-false n 48 (λ e. omega arith),
        break_at-Without b' ' field plain,
        ==-false (length field) 0 (λ e. omega arith),
      )
      refl

split_first :
    (fuel n : ℕ) (field rest : Bytes) (fields : List Bytes)
    → IsField field
    → 0 < length rest
    → n < 48
    → split_fields fuel (n + 1) rest ≡ some fields
    → split_fields (suc fuel) n (field ++ b' ' ∷ rest) ≡ some (field ∷ fields)
unfolding split_fields
split_first fuel n field rest fields (some_byte, plain) more room later =
    rw (==-false n 48 (λ e. omega arith), break_at-append b' ' field rest plain)
      (rw
        (
          ==-false (length field) 0 (λ e. omega arith),
          ==-false (length rest) 0 (λ e. omega arith),
          later,
        )
        refl)

-- A line of fields with one space between them is split into these fields, when each has a
-- byte at least and no space, there are at most 48 with those before, and the fuel is the
-- length of the line at least.
pub split_fields-join :
    (fuel n : ℕ) (field : Bytes) (fields : List Bytes)
    → All IsField (field ∷ fields)
    → n + length fields < 48
    → length (join field fields) ≤ fuel
    → split_fields fuel n (join field fields) ≡ some (field ∷ fields)
unfolding join
split_fields-join zero n field fields (this, others) room enough =
    let some_byte = length-join field fields this.0 in absurd (omega arith)
split_fields-join (suc fuel) n field [] (this, others) room enough =
    split_last fuel n field this (omega arith)
split_fields-join (suc fuel) n field (next ∷ fields) (this, (second, others)) room enough =
    let size = length-append field (b' ' ∷ join next fields) in
    split_first fuel n field (join next fields) (next ∷ fields) this
      (length-join next fields second.0) (omega arith)
      (split_fields-join fuel (n + 1) next fields (second, others) (omega arith) (omega arith))
