-- ===== src/Wire/Canonical.antt =====
-- The converse of Wire/Varint: the texts that `WireReader::varint` of src/protobuf_guard.hpp accepts.
use ovmesh_drpp.Base.{
  ℕ, zero, suc, ◌+◌, ◌*◌, ◌/◌, ◌%◌, ◌^◌, ◌≤◌, ◌<◌, true, false, not, ◌&&◌, ◌||◌, ◌∷◌, ◌++◌, Option,
  none, some, ◌≡◌, refl, sym, ap, ◌∙◌, subst, subst₂, get_or-IsBytes, ◌⊎◌, inl, inr, IsBytes,
  length, drop, drop-get_or, ltb, ◌==◌, Bool-cases, arith, ltb→lt, lt→ltb, dec_eq,
}
use mathlib.Core.Option.{some-injective}
use native.Mathlib.Nat.{pow-le-pow_right}
use ovmesh_drpp.Wire.Varint.{
  encode_varint, weight, weight-suc, added_bound, moved, moved_twice, round_last, round_more,
  final_byte,
}
use ovmesh_drpp.Wire.{Reader, done, here, advance, fail, varint_loop, varint}

-- The result of the loop from round `i` on, if it is a value.
record Decodes (left i acc v : ℕ) (r r' : Reader) : Type 0 where
  part : ℕ
  sum_is : v ≡ acc + part * weight i
  in_range : acc + part * weight i < 2 ^ 64
  canonical : (i ≡ 0) ⊎ (0 < part)
  goes_on : drop r.position r.input ≡ encode_varint left part ++ drop r'.position r.input
  moves : r' ≡ moved r (length (encode_varint left part))
  stays_in : r'.position ≤ length r.input

-- What a round can do: fail, end the loop, or go on.
data Round (left i acc : ℕ) (r : Reader) : Type 0 where
  fails : (r' : Reader) → varint_loop (suc left) i acc r ≡ (none, r') → Round left i acc r
  ends :
      r.position < length r.input
      → (i == 9 && ltb 1 (here r)) ≡ false
      → here r < 128
      → (i == 0 || not (here r == 0)) ≡ true
      → Round left i acc r
  goes :
      r.position < length r.input
      → (i == 9 && ltb 1 (here r)) ≡ false
      → 128 ≤ here r
      → Round left i acc r

Round-of : (left i acc : ℕ) (r : Reader) → r.position ≤ length r.input → Round left i acc r
unfolding varint_loop
Round-of left i acc r h = elim (Bool-cases (done r)) [
  | inl d ↦ fails (fail r) (rw d)
  | inr nd ↦ elim (Bool-cases (i == 9 && ltb 1 (here r))) [
    | inl t ↦ fails (fail (advance r)) (rw nd (rw t))
    | inr nt ↦ elim (Bool-cases (ltb (here r) 128)) [
      | inr l ↦ goes (ground arith) nt (ground arith)
      | inl l ↦ elim (Bool-cases (i == 0 || not (here r == 0))) [
        | inl z ↦ ends (ground arith) nt (ltb→lt _ _ l) z
        | inr nz ↦
            fails (fail (advance r))
              (rw nd (rw nt (rw (final_byte (here r) (ltb→lt _ _ l)) (rw nz))))
      ]
    ]
  ]
]

same_result :
    {o p : Option ℕ} {r r' : Reader}
    → ◌≡◌ {A = Option ℕ × Reader} (o, r) (p, r')
    → (o ≡ p) × (r ≡ r')
same_result e = (ap (λ x. x.0) e, ap (λ x. x.1) e)

-- The last byte in round `i`, against the 64 bits.
last_in_range :
    (i acc b : ℕ)
    → i < 10
    → acc < weight i
    → (i == 9 && ltb 1 b) ≡ false
    → b < 128
    → acc + b * weight i < 2 ^ 64
last_in_range i acc b h k g l = elim (dec_eq i 9) [
  | yes e ↦ rw e (nine (rw e at k) (rw e at g))
  | no ne ↦
      below (weight i)
        (rw (weight-suc i) at (pow-le-pow_right {n = 2} (omega arith) (seven (omega arith)))) k
]
  where
    nine : acc < weight 9 → (9 == 9 && ltb 1 b) ≡ false → acc + b * weight 9 < 2 ^ 64
    nine k g = ground arith

    seven : i + 1 ≤ 9 → 7 * (i + 1) ≤ 63
    seven q = omega arith

    below : (p : ℕ) → 128 * p ≤ 2 ^ 63 → acc < p → acc + b * p < 2 ^ 64
    below p q w = grind arith

module _ (left i acc : ℕ) (r : Reader) (early : i < 10) (low : acc < weight i)
    (inside : r.position < length r.input) (fits : (i == 9 && ltb 1 (here r)) ≡ false) where
  at_here : drop r.position r.input ≡ here r ∷ drop (r.position + 1) r.input
  at_here =
      let e : suc r.position ≡ r.position + 1 = omega arith in
      rw (← e) (drop-get_or r.position r.input 0 inside)

  Decodes-ends :
      here r < 128
      → (i == 0 || not (here r == 0)) ≡ true
      → Decodes (suc left) i acc (acc + here r * weight i) r (moved r 1)
  Decodes-ends h c =
      let one_byte = lt→ltb (here r) 128 h in
      record {
        part = here r;
        sum_is = refl;
        in_range = last_in_range i acc (here r) early low fits h;
        canonical = ground arith;
        goes_on = rw one_byte at_here;
        moves = rw one_byte;
        stays_in = omega arith;
      }

  Decodes-goes :
      {v : ℕ} {r' : Reader}
      → 128 ≤ here r
      → here r < 256
      → Decodes left (i + 1) (acc + here r % 128 * weight i) v (moved r 1) r'
      → Decodes (suc left) i acc v r r'
  Decodes-goes {v} {r'} h k d =
      let w = d.part in
      let part = here r % 128 + w * 128 in
      let positive : 0 < w = ground (arith, d.canonical) in
      let long : ltb part 128 ≡ false = ground arith in
      let quotient : part / 128 ≡ w = omega arith in
      let byte : part % 128 + 128 ≡ here r = omega arith in
      let total : (acc + here r % 128 * weight i) + w * weight (i + 1) ≡ acc + part * weight i =
        rw (weight-suc i) (spread (weight i) (here r % 128) w) in
      record {
        part = part;
        sum_is = d.sum_is ∙ total;
        in_range = rw total at d.in_range;
        canonical = inr (omega arith);
        goes_on = rw (long, byte, quotient) (at_here ∙ ap (◌∷◌ (here r)) d.goes_on);
        moves = rw (long, quotient) (d.moves ∙ moved_twice r (length (encode_varint left w)));
        stays_in = d.stays_in;
      }
    where
      spread : (p a w : ℕ) → (acc + a * p) + w * (128 * p) ≡ acc + (a + w * 128) * p
      spread p a w = omega arith

none-ne-some : {v : ℕ} → ◌≡◌ {A = Option ℕ} none (some v) → ⊥
none-ne-some q = cc

-- The loop without a round left fails.
no_round : (i acc : ℕ) (r : Reader) → varint_loop zero i acc r ≡ (none, fail r)
unfolding varint_loop
no_round i acc r = refl

varint_loop-Decodes :
    (left i acc : ℕ) (r : Reader) {v : ℕ} {r' : Reader}
    → IsBytes r.input
    → i + left ≡ 10
    → acc < weight i
    → r.position ≤ length r.input
    → varint_loop left i acc r ≡ (some v, r')
    → Decodes left i acc v r r'
varint_loop-Decodes zero i acc r b e l p h =
    absurd (none-ne-some (same_result (sym (no_round i acc r) ∙ h)).0)
varint_loop-Decodes (suc left) i acc r {v} {r'} b e l p h = elim (Round-of left i acc r p) [
  | fails s f ↦ absurd (none-ne-some (same_result (sym f ∙ h)).0)
  | ends inside fits small c ↦
      let early : i < 10 = omega arith in
      let last =
        round_last left i acc (here r) r _ early l fits (at_here left i acc r early l inside fits)
          small c in
      let (q, w) = same_result (sym last ∙ h) in
      subst₂ (λ x y. Decodes (suc left) i acc x r y) (some-injective _ _ q) w
        (Decodes-ends left i acc r early l inside fits small c)
  | goes inside fits large ↦
      let early : i < 10 = omega arith in
      let byte = get_or-IsBytes r.input r.position b in
      let more =
        round_more left i acc (here r) r _ early l fits (at_here left i acc r early l inside fits)
          large byte in
      Decodes-goes left i acc r early l inside fits large byte (
        varint_loop-Decodes left (i + 1) (acc + here r % 128 * weight i) (moved r 1) b (omega arith)
          (added_bound i acc (here r) l) (omega arith) (sym more ∙ h))
]

-- Nothing but the shortest form is read: where `varint` returns a value, that value fits 64 bits,
-- the input at the reader's position starts with its shortest form, the reader moves just behind
-- it, within the input, and nothing else of the reader changes.
pub varint_canonical :
    (r : Reader) {v : ℕ} {r' : Reader}
    → IsBytes r.input
    → r.position ≤ length r.input
    → varint r ≡ (some v, r')
    → (v < 2 ^ 64)
      × (drop r.position r.input ≡ encode_varint 10 v ++ drop r'.position r.input)
      × (r' ≡ record r { position = r.position + length (encode_varint 10 v) })
      × (r'.position ≤ length r.input)
unfolding varint
varint_canonical r {v} {r'} b p h =
    let d = varint_loop-Decodes 10 0 0 r b refl (omega arith) p h in
    let e : d.part ≡ v = omega (arith, d.sum_is) in
    subst
      (λ w.
        (w < 2 ^ 64)
        × (drop r.position r.input ≡ encode_varint 10 w ++ drop r'.position r.input)
        × (r' ≡ record r { position = r.position + length (encode_varint 10 w) })
        × (r'.position ≤ length r.input))
      e (omega (arith, d.in_range), d.goes_on, d.moves, d.stays_in)
