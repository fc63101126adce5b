-- ===== src/Wire/Fields.antt =====
-- What every call of the reader of src/protobuf_guard.hpp does to its position, and the loop of
-- `has_wire_field`.
use ovmesh_drpp.Base.{
  ℕ, zero, suc, ◌+◌, ◌-◌, ◌≤◌, ◌<◌, Bool, true, false, not, ◌&&◌, ◌||◌, Option, none, some, ◌≡◌,
  refl, sym, ap, ◌∙◌, subst, inl, inr, Bytes, length, bit_and, ltb, ◌==◌, Option-cases, Bool-cases,
  arith, ◌>>>◌,
}
use ovmesh_drpp.Wire.{
  Reader, Field, done, here, advance, varint_loop, varint, fixed_loop, varint_field, fixed_field,
  bytes_field, next_value, next_tagged, next, found, find_loop, has_wire_field, open_reader,
}

abbrev pub IsInside : Reader → Type 0
IsInside r = r.position ≤ length r.input

-- A call from `r` with this result leaves the reader at `s`, at least `least` bytes on.
abbrev pub Stepped {ℓ} : {A : Type ℓ} → ℕ → Reader → Option A → Reader → Type 0
Stepped least r none s = (s.input ≡ r.input) × (s.position ≡ length r.input) × (s.good ≡ false)
Stepped least r (some v) s =
    (s.input ≡ r.input)
    × (r.position + least ≤ s.position)
    × (s.position ≤ length r.input)
    × (s.good ≡ r.good)

Stepped-after {ℓ} :
    {A : Type ℓ} (a b c : ℕ) (r q : Reader) (o : Option A) (s : Reader)
    → q.input ≡ r.input
    → q.good ≡ r.good
    → r.position + a ≤ q.position
    → c ≤ a + b
    → Stepped b q o s
    → Stepped c r o s
Stepped-after a b c r q none s e g h k (x, y, z) = (x ∙ e, y ∙ ap length e, z)
Stepped-after a b c r q (some v) s e g h k (x, y, z, w) =
    (x ∙ e, omega arith, subst (λ l. s.position ≤ length l) e z, w ∙ g)

varint_loop-Stepped :
    (left i acc : ℕ) (r : Reader)
    → IsInside r
    → Stepped 1 r (varint_loop left i acc r).0 (varint_loop left i acc r).1
unfolding varint_loop
varint_loop-Stepped zero i acc r h = (refl, refl, refl)
varint_loop-Stepped (suc left) i acc r h = elim (Bool-cases (done r)) [
  | inl d ↦ rw d (refl, refl, refl)
  | inr nd ↦ rw nd (elim (Bool-cases (i == 9 && ltb 1 (here r))) [
    | inl t ↦ rw t (refl, refl, refl)
    | inr nt ↦ rw nt (elim (Bool-cases (bit_and (here r) 128 == 0)) [
      | inl l ↦ rw l (elim (Bool-cases (i == 0 || not (here r == 0))) [
        | inl z ↦ rw z (refl, omega arith, ground arith, refl)
        | inr nz ↦ rw nz (refl, refl, refl)
      ])
      | inr m ↦ rw m (
          Stepped-after 1 1 1 r (advance r) _ _ refl refl (omega arith) (omega arith)
            (varint_loop-Stepped left (i + 1) _ (advance r) (ground arith)))
    ])
  ])
]

pub varint-Stepped : (r : Reader) → IsInside r → Stepped 1 r (varint r).0 (varint r).1
unfolding varint
varint-Stepped r = varint_loop-Stepped 10 0 0 r

fixed_loop-moves :
    (left i acc : ℕ) (r : Reader)
    → ((fixed_loop left i acc r).1).position ≡ r.position + left
      × (((fixed_loop left i acc r).1).input ≡ r.input)
      × (((fixed_loop left i acc r).1).good ≡ r.good)
unfolding fixed_loop
fixed_loop-moves zero i acc r = (omega arith, refl, refl)
fixed_loop-moves (suc left) i acc r =
    let (p, q, w) = fixed_loop-moves left (i + 1) _ (advance r) in (omega arith, q, w)

varint_field-Stepped :
    (tag : ℕ) (r : Reader) (p : Option ℕ × Reader)
    → Stepped 1 r p.0 p.1
    → Stepped 1 r (varint_field tag p).0 (varint_field tag p).1
unfolding varint_field
varint_field-Stepped tag r (none, s) h = h
varint_field-Stepped tag r (some v, s) h = h

bytes_field-Stepped :
    (tag : ℕ) (r : Reader) (p : Option ℕ × Reader)
    → Stepped 1 r p.0 p.1
    → Stepped 1 r (bytes_field tag p).0 (bytes_field tag p).1
unfolding bytes_field
bytes_field-Stepped tag r (none, s) (x, y, z) = (x, ap length x, refl)
bytes_field-Stepped tag r (some count, s) (x, y, z, w) =
    elim (Bool-cases (ltb (length s.input - s.position) count)) [
      | inl l ↦ rw l (x, ap length x, refl)
      | inr g ↦
          let same : length s.input ≡ length r.input = ap length x in
          rw g (x, omega arith, ground arith, w)
    ]

fixed_field-Stepped :
    (tag wire count : ℕ) (r : Reader)
    → 0 < count
    → IsInside r
    → Stepped 1 r (fixed_field tag wire count r).0 (fixed_field tag wire count r).1
unfolding fixed_field
fixed_field-Stepped tag wire count r c h =
    elim (Bool-cases (ltb (length r.input - r.position) count)) [
      | inl l ↦ rw l (refl, refl, refl)
      | inr g ↦
          let (p, q, w) = fixed_loop-moves count 0 0 r in rw g (q, omega arith, ground arith, w)
    ]

next_value-Stepped :
    (tag wire : ℕ) (r : Reader)
    → IsInside r
    → Stepped 1 r (next_value tag wire r).0 (next_value tag wire r).1
unfolding next_value
next_value-Stepped tag wire r h = elim (Bool-cases (wire == 0)) [
  | inl z ↦ rw z (varint_field-Stepped tag r (varint r) (varint-Stepped r h))
  | inr nz ↦ rw nz (elim (Bool-cases (wire == 1 || wire == 5)) [
    | inl f ↦ rw f (fixed_field-Stepped tag wire _ r (ground arith) h)
    | inr nf ↦ rw nf (elim (Bool-cases (wire == 2)) [
      | inl t ↦ rw t (bytes_field-Stepped tag r (varint r) (varint-Stepped r h))
      | inr nt ↦ rw nt (refl, refl, refl)
    ])
  ])
]

next_tagged-Stepped :
    (r : Reader) (p : Option ℕ × Reader)
    → Stepped 1 r p.0 p.1
    → Stepped 2 r (next_tagged p).0 (next_tagged p).1
unfolding next_tagged
next_tagged-Stepped r (none, s) (x, y, z) = (x, ap length x, refl)
next_tagged-Stepped r (some tag, s) (x, y, z, w) =
    elim (Bool-cases (ltb 0xffffffff tag || (tag >>> 3) == 0)) [
      | inl b ↦ rw b (x, ap length x, refl)
      | inr nb ↦ rw nb (
          Stepped-after 1 1 2 r s _ _ x w y (omega arith) (
            next_value-Stepped (tag >>> 3) (bit_and tag 7) s
              (subst (λ l. s.position ≤ length l) (sym x) z)))
    ]

-- A call of `next` before the end takes a field of at least two bytes, which ends inside the
-- input, or fails and leaves the reader at the end.
pub next-Stepped : (r : Reader) → IsInside r → done r ≡ false → Stepped 2 r (next r).0 (next r).1
unfolding next
next-Stepped r h nd = rw nd (next_tagged-Stepped r (varint r) (varint-Stepped r h))

pub next-done : (r : Reader) → done r ≡ true → next r ≡ (none, r)
unfolding next
next-done r d = rw d

-- A field that `next` returns lies inside the input, wherever the reader stood.
pub next_moves :
    (r : Reader) {f : Field}
    → IsInside r
    → (next r).0 ≡ some f
    → ((next r).1.input ≡ r.input)
      × (r.position + 2 ≤ (next r).1.position)
      × ((next r).1.position ≤ length r.input)
      × ((next r).1.good ≡ r.good)
next_moves r {f} h e = elim (Bool-cases (done r)) [
  | inl d ↦ let q : none ≡ some f = sym (ap (λ p. p.0) (next-done r d)) ∙ e in cc
  | inr nd ↦ subst (λ o. Stepped 2 r o (next r).1) e (next-Stepped r h nd)
]

-- The loop of `has_wire_field` ends, with fuel for each byte that is left.
find_loop_returns :
    (fuel tag : ℕ) (r : Reader)
    → IsInside r
    → length r.input < fuel + r.position
    → (b : Bool) × (find_loop fuel tag r ≡ some b)
unfolding find_loop found
find_loop_returns zero tag r h k = absurd (omega arith)
find_loop_returns (suc fuel) tag r h k = elim (Option-cases (next r).0) [
  | inl e ↦ (false, rw e)
  | inr (f, e) ↦
      let (same, ahead, inside, g) = next_moves r h e in
      let size : length (next r).1.input ≡ length r.input = ap length same in
      let (b, w) = find_loop_returns fuel tag (next r).1 (omega arith) (omega arith) in
      elim (Bool-cases (f.tag == tag)) [ inl y ↦ (true, rw e (rw y)) | inr n ↦ (b, rw e (rw n w)) ]
]

-- `has_wire_field` returns on every input: a call of `next` per byte, and one more, are enough.
pub has_wire_field_returns :
    (bytes : Bytes) (tag : ℕ) → (b : Bool) × (has_wire_field bytes tag ≡ some b)
unfolding has_wire_field
has_wire_field_returns bytes tag =
    find_loop_returns (length bytes + 1) tag (open_reader bytes) (omega arith) (omega arith)
