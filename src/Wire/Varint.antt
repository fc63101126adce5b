-- ===== src/Wire/Varint.antt =====
-- `WireReader::varint` of src/protobuf_guard.hpp on the shortest little-endian base-128 form of a
-- number.
use ovmesh_drpp.Base.{
  ℕ, zero, suc, ◌+◌, ◌*◌, ◌/◌, ◌%◌, ◌^◌, ◌≤◌, ◌<◌, Bool, true, false, not, ◌&&◌, ◌||◌, [], ◌∷◌,
  ◌++◌, some, ◌≡◌, refl, ap, ◌∙◌, ◌⊎◌, inl, inr, Bytes, length, drop, drop-cons, u64, ◌<<<◌, bit_or,
  bit_and, ltb, leb, ◌==◌, if◌then◌else◌, Bool-cases, arith, ltb→lt, ==-false, dec_eq,
}
use native.Mathlib.Numerals.{towards_suc}
use ovmesh_drpp.Base.Bits.{and_mask, or_above}
use ovmesh_drpp.Base.Tables.{all_below, all_below_sound}
use ovmesh_drpp.Wire.{Reader, done, here, varint_loop, varint}

-- The shortest form, in at most `fuel` bytes.
abbrev pub encode_varint : ℕ → ℕ → Bytes
encode_varint zero v = []
encode_varint (suc fuel) v =
    if ltb v 128 then v ∷ [] else (v % 128 + 128) ∷ encode_varint fuel (v / 128)

-- The continuation bit.
continues : ℕ → Bool
continues b = elim (bit_and b 128 == 0) [ true ↦ ltb b 128 | false ↦ leb 128 b ]

continues_table : all_below 256 continues ≡ true
unfolding all_below continues
continues_table = refl

pub final_byte : (b : ℕ) → b < 128 → (bit_and b 128 == 0) ≡ true
unfolding continues
final_byte b h = elim (Bool-cases (bit_and b 128 == 0)) [
  | inl e ↦ e
  | inr e ↦ absurd (ground (arith, all_below_sound 256 continues b continues_table))
]

more_bytes : (b : ℕ) → 128 ≤ b → b < 256 → (bit_and b 128 == 0) ≡ false
unfolding continues
more_bytes b h k = elim (Bool-cases (bit_and b 128 == 0)) [
  | inr e ↦ e
  | inl e ↦ absurd (ground (arith, all_below_sound 256 continues b continues_table))
]

-- No bit is lost at round `i`: in the tenth round the byte is at most 1.
seven_bits :
    (i b : ℕ)
    → i < 10
    → (i == 9 && ltb 1 b) ≡ false
    → b < 256
    → u64 (bit_and b 127 <<< (7 * i)) ≡ (b % 128) <<< (7 * i)
seven_bits i b h k w = rw (and_mask 7 b) (go i h k)
  where
    go :
        (i : ℕ)
        → i < 10
        → (i == 9 && ltb 1 b) ≡ false
        → u64 ((b % 128) <<< (7 * i)) ≡ (b % 128) <<< (7 * i)
    go zero h k = omega arith
    go (suc zero) h k = omega arith
    go (suc (suc zero)) h k = omega arith
    go (suc (suc (suc zero))) h k = omega arith
    go (suc (suc (suc (suc zero)))) h k = omega arith
    go (suc (suc (suc (suc (suc zero))))) h k = omega arith
    go (suc (suc (suc (suc (suc (suc zero)))))) h k = omega arith
    go (suc (suc (suc (suc (suc (suc (suc zero))))))) h k = omega arith
    go (suc (suc (suc (suc (suc (suc (suc (suc zero)))))))) h k = omega arith
    go (suc (suc (suc (suc (suc (suc (suc (suc (suc zero))))))))) h k = ground arith
    go (suc (suc (suc (suc (suc (suc (suc (suc (suc (suc i)))))))))) h k = absurd (omega arith)

-- The weight of round `i`.
abbrev pub weight : ℕ → ℕ
weight i = 2 ^ (7 * i)

pub weight-suc : (i : ℕ) → weight (i + 1) ≡ 128 * weight i
weight-suc i = let e : 7 * (i + 1) ≡ 7 * i + 7 = omega arith in rw e (pow_seven (7 * i))
  where
    pow_seven : (s : ℕ) → 2 ^ (s + 7) ≡ 128 * 2 ^ s
    pow_seven s = simp towards_suc (omega arith)

-- What one round adds to the value.
added :
    (i acc b : ℕ)
    → i < 10
    → (i == 9 && ltb 1 b) ≡ false
    → b < 256
    → acc < weight i
    → bit_or acc (u64 (bit_and b 127 <<< (7 * i))) ≡ acc + b % 128 * weight i
added i acc b h k w l = rw (seven_bits i b h k w) (or_above (7 * i) (b % 128) acc l)

pub added_bound : (i acc b : ℕ) → acc < weight i → acc + b % 128 * weight i < weight (i + 1)
added_bound i acc b h = rw (weight-suc i) (step (weight i) (b % 128) h (omega arith))
  where
    step : (p c : ℕ) → acc < p → c < 128 → acc + c * p < 128 * p
    step p c h k = grind arith

tenth_round : (i acc w : ℕ) → acc + w * weight i < 2 ^ 64 → (i == 9 && ltb 1 w) ≡ false
tenth_round i acc w h = elim (dec_eq i 9) [
  | yes e ↦ rw e (small (rw e at h))
  | no ne ↦ rw (==-false i 9 ne)
]
  where
    small : acc + w * weight 9 < 2 ^ 64 → ltb 1 w ≡ false
    small k = ground arith

abbrev pub moved : Reader → ℕ → Reader
moved r n = record r { position = r.position + n }

pub moved_twice : (r : Reader) (n : ℕ) → moved (moved r 1) n ≡ moved r (suc n)
moved_twice r n = ground arith

pub split_weight : (p acc w : ℕ) → (acc + w % 128 * p) + w / 128 * (128 * p) ≡ acc + w * p
split_weight p acc w =
    let e : w / 128 * 128 + w % 128 ≡ w = omega arith in omega (arith, ap (λ (t : ℕ). t * p) e)

module _ (left i acc b : ℕ) (r : Reader) (rest : Bytes) (early : i < 10) (low : acc < weight i)
    (fits : (i == 9 && ltb 1 b) ≡ false) (at : drop r.position r.input ≡ b ∷ rest) where
  pub not_done : done r ≡ false
  not_done = ==-false _ _ (omega (arith, (drop-cons r.position r.input b 0 rest at).0))

  read_byte : here r ≡ b
  read_byte = (drop-cons r.position r.input b 0 rest at).1

  -- The round that ends the loop.
  pub round_last :
      b < 128
      → (i == 0 || not (b == 0)) ≡ true
      → varint_loop (suc left) i acc r ≡ (some (acc + b * weight i), moved r 1)
  unfolding varint_loop
  round_last h c =
      let small : b % 128 ≡ b = omega arith in
      rw (not_done, read_byte)
        (rw (fits, final_byte b h, added i acc b early fits (omega arith) low) (rw c (rw small)))

  pub round_more :
      128 ≤ b
      → b < 256
      → varint_loop (suc left) i acc r
        ≡ varint_loop left (i + 1) (acc + b % 128 * weight i) (moved r 1)
  unfolding varint_loop
  round_more h k =
      rw (not_done, read_byte) (rw (fits, more_bytes b h k, added i acc b early fits k low))

varint_loop-encode :
    (left i acc w : ℕ) (r : Reader) (rest : Bytes)
    → i + suc left ≡ 10
    → acc < weight i
    → acc + w * weight i < 2 ^ 64
    → (i ≡ 0) ⊎ (0 < w)
    → drop r.position r.input ≡ encode_varint (suc left) w ++ rest
    → varint_loop (suc left) i acc r
      ≡ (some (acc + w * weight i), moved r (length (encode_varint (suc left) w)))
varint_loop-encode zero i acc w r rest e h k c d = elim (Bool-cases (ltb w 128)) [
  | inl y ↦ rw y (
      round_last zero i acc w r rest (omega arith) h (tenth_round i acc w k) (rw y at d)
        (ltb→lt w 128 y) (ground arith))
  | inr n ↦
      let nine : i ≡ 9 = omega arith in
      let tiny : acc + w * weight 9 < 2 ^ 64 = rw nine at k in absurd (ground arith)
]
varint_loop-encode (suc left) i acc w r rest e h k c d = elim (Bool-cases (ltb w 128)) [
  | inl y ↦ rw y (
      round_last (suc left) i acc w r rest (omega arith) h (tenth_round i acc w k) (rw y at d)
        (ltb→lt w 128 y) (ground arith))
  | inr n ↦
      let b = w % 128 + 128 in
      let large : 128 ≤ w = ground arith in
      let later : (i == 9 && ltb 1 b) ≡ false = rw (==-false i 9 (omega arith)) in
      let same : b % 128 ≡ w % 128 = omega arith in
      let next_bound = added_bound i acc w h in
      let d' = rw n at d in
      let ih =
        varint_loop-encode left (i + 1) (acc + w % 128 * weight i) (w / 128) (moved r 1) rest
          (omega arith) next_bound (rw (weight-suc i, split_weight (weight i) acc w) k)
          (inr (omega arith)) (drop-cons r.position r.input b 0 _ d').2 in
      rw n (
        round_more (suc left) i acc b r _ (omega arith) h later d' (omega arith) (omega arith)
        ∙ rw same (
            ih
            ∙ rw (weight-suc i, split_weight (weight i) acc w)
                (ap (λ q. (some (acc + w * weight i), q))
                  (moved_twice r (length (encode_varint (suc left) (w / 128)))))))
]

-- Where the input goes on with the shortest form of a 64-bit value, `varint` returns that value
-- and moves behind it.
pub varint-encode_varint :
    (v : ℕ) (r : Reader) (rest : Bytes)
    → v < 2 ^ 64
    → drop r.position r.input ≡ encode_varint 10 v ++ rest
    → varint r ≡ (some v, record r { position = r.position + length (encode_varint 10 v) })
unfolding varint
varint-encode_varint v r rest h d =
    let e : 0 + v * weight 0 ≡ v = omega arith in
    let k : 0 + v * weight 0 < 2 ^ 64 = rw e h in
    rw e at (varint_loop-encode 9 0 0 v r rest refl (omega arith) k (inl refl) d)
