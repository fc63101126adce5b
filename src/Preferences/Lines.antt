-- ===== src/Preferences/Lines.antt =====
-- The lines that `serialize` of src/preferences.cpp writes are split into the same names and values.
use ovmesh_drpp.Base.{
  ℕ, zero, suc, ◌+◌, ◌<◌, ◌≤◌, Bool, true, false, not, ◌&&◌, [], ◌∷◌, ◌++◌, append_assoc,
  append-nil, some, Bytes, All, All-append, length, length-append, ltb, ◌==◌, ==_self, ◌≡◌, refl,
  sym, ap, ◌∙◌, arith,
}
use ovmesh_drpp.Preferences.Fields.{Fields, break_at, contains, read_field, read_fields}
use ovmesh_drpp.Preferences.Serialize.{write_lines}

abbrev pub Without : ℕ → Bytes → Type 0
Without mark = All (λ c. (c == mark) ≡ false)

pub break_at-append :
    (mark : ℕ) (a b : Bytes) → Without mark a → break_at mark (a ++ mark ∷ b) ≡ some (a, b)
unfolding break_at
break_at-append mark [] b h = rw (==_self mark) refl
break_at-append mark (c ∷ a) b (p, h) = rw p (rw (break_at-append mark a b h) refl)

-- A name and a value that a line can hold.
abbrev pub IsLine : Bytes × Bytes → Type 0
IsLine (name, value) =
    ((length name == 0) ≡ false) × Without b'=' name × Without 10 name × Without 10 value

-- No name stands twice, not even among those before.
unfoldable pub fresh : Fields → Fields → Bool
fresh before [] = true
fresh before ((name, value) ∷ fields) =
    not (contains name before) && fresh (before ++ (name, value) ∷ []) fields

not_and : (a b : Bool) → not a && b ≡ true → (a ≡ false) × (b ≡ true)
not_and true b h = cc
not_and false b h = (refl, h)

pub both : (a b : Bool) → a && b ≡ true → (a ≡ true) × (b ≡ true)
both true b h = (refl, h)
both false b h = cc

read_field-line :
    (before : Fields) (name value : Bytes)
    → IsLine (name, value)
    → length before < 42
    → contains name before ≡ false
    → read_field before (name ++ b'=' ∷ value) ≡ some (before ++ (name, value) ∷ [])
unfolding read_field
read_field-line before name value (some_name, no_equal, _, _) room new =
    let k : (not (length name == 0) && ltb (length before) 42) ≡ true = ground arith in
    rw (break_at-append b'=' name value no_equal) (rw k (rw new refl))

-- A line as it is written, in front of the rest.
line-break :
    (name value rest : Bytes)
    → IsLine (name, value)
    → break_at 10 ((name ++ b'=' ∷ (value ++ 10 ∷ [])) ++ rest) ≡ some (name ++ b'=' ∷ value, rest)
line-break name value rest (_, _, no_feed, no_feed_either) =
    let ends : (name ++ b'=' ∷ (value ++ 10 ∷ [])) ++ rest ≡ (name ++ b'=' ∷ value) ++ 10 ∷ rest =
      simp append_assoc in
    ap (break_at 10) ends
    ∙ break_at-append 10 (name ++ b'=' ∷ value) rest
        (All-append (λ c. (c == 10) ≡ false) name (b'=' ∷ value) no_feed (refl, no_feed_either))

read_fields-step :
    (fuel : ℕ) (before more : Fields) (t line rest : Bytes)
    → 0 < length t
    → break_at 10 t ≡ some (line, rest)
    → read_field before line ≡ some more
    → read_fields (suc fuel) before t ≡ read_fields fuel more rest
unfolding read_fields
read_fields-step fuel before more [] line rest size broken field = absurd (omega arith)
read_fields-step fuel before more (c ∷ t) line rest size broken field = rw broken (rw field refl)

pub length-write_line :
    (name value : Bytes) (fields : Fields)
    → length (write_lines ((name, value) ∷ fields))
      ≡ length name + length value + 2 + length (write_lines fields)
unfolding write_lines
length-write_line name value fields =
    length-append (name ++ b'=' ∷ (value ++ 10 ∷ [])) (write_lines fields)
    ∙ omega (arith, length-append name (b'=' ∷ (value ++ 10 ∷ [])), length-append value (10 ∷ []))

-- The loop over the lines of a file reads the names and values that were written as lines,
-- when no name is empty, holds `=` or stands twice, none of the texts holds a line feed, there
-- are at most 42 lines with those read before, and the fuel is the length of the text at
-- least.
pub read_fields-write_lines :
    (fuel : ℕ) (before fields : Fields)
    → All IsLine fields
    → fresh before fields ≡ true
    → length before + length fields ≤ 42
    → length (write_lines fields) ≤ fuel
    → read_fields fuel before (write_lines fields) ≡ some (before ++ fields)
unfolding read_fields write_lines fresh
read_fields-write_lines fuel before [] lines new room enough = ap some (sym (append-nil before))
read_fields-write_lines zero before ((name, value) ∷ fields) lines new room enough =
    let size = length-write_line name value fields in absurd (omega arith)
read_fields-write_lines (suc fuel) before ((name, value) ∷ fields) (line, lines) new room enough =
    let size = length-write_line name value fields in
    let (absent, later) =
      not_and (contains name before) (fresh (before ++ (name, value) ∷ []) fields) new in
    let step =
      read_fields-step fuel before (before ++ (name, value) ∷ [])
        (write_lines ((name, value) ∷ fields)) (name ++ b'=' ∷ value) (write_lines fields)
        (omega arith) (line-break name value (write_lines fields) line)
        (read_field-line before name value line (omega arith) absent) in
    let grown = length-append before ((name, value) ∷ []) in
    step
    ∙ read_fields-write_lines fuel (before ++ (name, value) ∷ []) fields lines later (omega arith)
        (omega arith)
    ∙ ap some (append_assoc before ((name, value) ∷ []) fields)

unfoldable pub without : (mark : ℕ) → Bytes → Bool
without mark [] = true
without mark (c ∷ s) = not (c == mark) && without mark s

pub without-Without : (mark : ℕ) (s : Bytes) → without mark s ≡ true → Without mark s
unfolding without
without-Without mark [] h = tt
without-Without mark (c ∷ s) h =
    let (first, others) = not_and (c == mark) (without mark s) h in
    (first, without-Without mark s others)

-- The test of a name, so that the names of a file, which are known, are tested by computation.
unfoldable pub is_name : Bytes → Bool
is_name name = not (length name == 0) && (without b'=' name && without 10 name)

unfoldable pub are_names : Fields → Bool
are_names [] = true
are_names ((name, value) ∷ fields) = is_name name && are_names fields

pub are_names-IsLine :
    (fields : Fields)
    → are_names fields ≡ true
    → All (λ (name, value). Without 10 value) fields
    → All IsLine fields
unfolding are_names is_name
are_names-IsLine [] h values = tt
are_names-IsLine ((name, value) ∷ fields) h (v, values) =
    let (this, others) = both (is_name name) (are_names fields) h in
    let (some_name, plain) =
      not_and (length name == 0) (without b'=' name && without 10 name) this in
    let (no_equal, no_feed) = both (without b'=' name) (without 10 name) plain in
    (
      (some_name, without-Without b'=' name no_equal, without-Without 10 name no_feed, v),
      are_names-IsLine fields others values,
    )
