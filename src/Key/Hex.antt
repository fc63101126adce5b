-- ===== src/Key/Hex.antt =====
-- `ChannelKey::from_hex` against a recursion on pairs of digits.
use mathlib.Core.Option
use mathlib.Core.Option.{some-injective}
use ovmesh_drpp.Base.{
  ◌>>=◌, ℕ, zero, suc, ◌+◌, ◌-◌, ◌*◌, ◌/◌, ◌%◌, ◌≤◌, ◌<◌, ◌≡◌, refl, sym, ap, ◌∙◌, subst, ◌⊎◌, inl,
  inr, ◌||◌, [], ◌∷◌, ◌++◌, append-nil, append_assoc, Option, none, some, drop_all, dec_eq,
  ==-false, Bytes, IsBytes, length, length-set, get_or, set, take, drop, drop-get_or, take-set-suc,
  u8, ◌<<<◌, bit_or, leb, ◌==◌, if◌then◌else◌, arith,
}
use ovmesh_drpp.Base.Bits.{or_shifted}
use ovmesh_drpp.Key.{ChannelKey, empty_key, bytes, hex_digit, hex_loop, from_hex}

-- The bytes that pairs of hexadecimal digits denote.
abbrev pub unhex : Bytes → Option Bytes
unhex [] = some []
unhex (c ∷ []) = none
unhex (c ∷ d ∷ rest) = do
  a ← hex_digit c
  b ← hex_digit d
  bs ← unhex rest
  some ((a * 16 + b) ∷ bs)

hex_digit-lt : (c : ℕ) {v : ℕ} → hex_digit c ≡ some v → v < 16
unfolding hex_digit
hex_digit-lt c h = ground arith

byte_of_digits : (a b : ℕ) → a < 16 → b < 16 → u8 (bit_or (a <<< 4) b) ≡ a * 16 + b
byte_of_digits a b p q = omega (arith, or_shifted 4 a b q)

split_pair :
    (i left : ℕ) (s : Bytes)
    → i * 2 + suc left * 2 ≡ length s
    → drop (i * 2) s ≡ get_or s (i * 2) 0 ∷ get_or s (i * 2 + 1) 0 ∷ drop ((i + 1) * 2) s
split_pair i left s h =
    let e : i * 2 + 1 ≡ suc (i * 2) = omega arith in
    let f : (i + 1) * 2 ≡ suc (suc (i * 2)) = omega arith in
    rw (e, f)
      (drop-get_or (i * 2) s 0 (omega arith)
        ∙ ap (◌∷◌ (get_or s (i * 2) 0)) (drop-get_or (suc (i * 2)) s 0 (omega arith)))

-- One round of the loop, with the two digits known.
record_bytes :
    (i x : ℕ) (rest : Bytes) (k : ChannelKey)
    → i < length k.data_
    → take (i + 1) (set k.data_ i x) ++ rest ≡ take i k.data_ ++ x ∷ rest
record_bytes i x rest k h =
    let e : i + 1 ≡ suc i = omega arith in
    rw (e, take-set-suc k.data_ i x h) (append_assoc (take i k.data_) (x ∷ []) rest)

prefix-cons :
    (r : Option Bytes) (i x : ℕ) (k : ChannelKey)
    → i < length k.data_
    → Option.map (λ bs. take (i + 1) (set k.data_ i x) ++ bs) r
      ≡ Option.map (λ bs. take i k.data_ ++ bs) (r >>= λ bs. some (x ∷ bs))
prefix-cons none i x k h = refl
prefix-cons (some bs) i x k h = ap some (record_bytes i x bs k h)

-- The bytes that the loop leaves in front are those that were there, then the pairs that follow.
abbrev Follows : ℕ → ℕ → Bytes → ChannelKey → Type 0
Follows left i s k =
    Option.map bytes (hex_loop left i s k)
    ≡ Option.map (λ bs. take i k.data_ ++ bs) (unhex (drop (i * 2) s))

hex_loop-unhex :
    (left i : ℕ) (s : Bytes) (k : ChannelKey)
    → i + left ≡ k.size_
    → k.size_ * 2 ≡ length s
    → k.size_ ≤ length k.data_
    → Follows left i s k
unfolding hex_loop
hex_loop-unhex zero i s k e f g =
    let same : k.size_ ≡ i = omega arith in rw (drop_all s (i * 2) (omega arith), append-nil, same)
hex_loop-unhex (suc left) i s k e f g = rw (split_pair i left s (omega arith)) (
    go (hex_digit (get_or s (i * 2) 0)) (hex_digit (get_or s (i * 2 + 1) 0)) refl refl λ v.
      hex_loop-unhex left (i + 1) s (record k { data_ = set k.data_ i v }) (omega arith) f
        (rw (length-set k.data_ i v) g))
  where
    go :
        (a b : Option ℕ)
        → hex_digit (get_or s (i * 2) 0) ≡ a
        → hex_digit (get_or s (i * 2 + 1) 0) ≡ b
        → ((v : ℕ) → Follows left (i + 1) s (record k { data_ = set k.data_ i v }))
        → Option.map bytes (
            a >>= λ x. b >>= λ y.
            hex_loop left (i + 1) s (record k { data_ = set k.data_ i (u8 (bit_or (x <<< 4) y)) }))
          ≡ Option.map
              (λ bs. take i k.data_ ++ bs)
              (a >>= λ x.
                b >>= λ y. unhex (drop ((i + 1) * 2) s) >>= λ bs. some ((x * 16 + y) ∷ bs))
    go none b p q ih = refl
    go (some x) none p q ih = refl
    go (some x) (some y) p q ih = rw (byte_of_digits x y (hex_digit-lt _ p) (hex_digit-lt _ q)) (
        ih (x * 16 + y) ∙ prefix-cons (unhex (drop ((i + 1) * 2) s)) i (x * 16 + y) k (omega arith))

map_same : (r : Option Bytes) → Option.map (λ bs. bs) r ≡ r
map_same none = refl
map_same (some bs) = refl

whole_text :
    (n : ℕ) (s : Bytes)
    → length s ≡ n * 2
    → n ≤ 32
    → Option.map bytes (hex_loop n 0 s (record empty_key { size_ = n })) ≡ unhex s
whole_text n s e h =
    hex_loop-unhex n 0 s (record empty_key { size_ = n }) (omega arith) (sym e) h
    ∙ map_same (unhex s)

-- `from_hex` accepts a text exactly if it has 32 or 64 characters that are hexadecimal digits,
-- and the bytes of the key are then those that the pairs of digits denote.
pub from_hex-unhex :
    (s : Bytes)
    → Option.map bytes (from_hex s) ≡ (if length s == 32 || length s == 64 then unhex s else none)
unfolding from_hex hex_loop
from_hex-unhex s = elim (dec_eq (length s) 32) [
  | yes e ↦ rw (e, from_hex) (whole_text 16 s e (omega arith))
  | no ne ↦ elim (dec_eq (length s) 64) [
    | yes e ↦ rw (e, from_hex) (whole_text 32 s e (omega arith))
    | no nf ↦ rw (==-false _ _ ne, from_hex) (rw (==-false _ _ nf))
  ]
]

-- Lower-case hexadecimal text.
abbrev pub key_digit : ℕ → ℕ
key_digit v = if leb v 9 then b'0' + v else b'a' + v - 10

abbrev pub hex_text : Bytes → Bytes
hex_text [] = []
hex_text (b ∷ bs) = key_digit (b / 16) ∷ key_digit (b % 16) ∷ hex_text bs

hex_digit-key_digit : (v : ℕ) → v < 16 → hex_digit (key_digit v) ≡ some v
unfolding hex_digit
hex_digit-key_digit v h = ground arith

unhex-hex_text : (bs : Bytes) → IsBytes bs → unhex (hex_text bs) ≡ some bs
unhex-hex_text [] h = refl
unhex-hex_text (b ∷ bs) (p, h) =
    let e : b / 16 * 16 + b % 16 ≡ b = omega arith in
    rw
      (
        hex_digit-key_digit (b / 16) (omega arith),
        hex_digit-key_digit (b % 16) (omega arith),
        unhex-hex_text bs h,
      )
      (rw e)

length-hex_text : (bs : Bytes) → length (hex_text bs) ≡ length bs * 2
length-hex_text [] = refl
length-hex_text (b ∷ bs) = omega (arith, length-hex_text bs)

-- Writing 16 or 32 bytes as hexadecimal text and reading it gives a key with these bytes.
pub from_hex-hex_text :
    (bs : Bytes)
    → IsBytes bs
    → (length bs ≡ 16) ⊎ (length bs ≡ 32)
    → Option.map bytes (from_hex (hex_text bs)) ≡ some bs
from_hex-hex_text bs h (inl e) =
    let n : length (hex_text bs) ≡ 32 = omega (arith, length-hex_text bs) in
    from_hex-unhex (hex_text bs) ∙ rw n (unhex-hex_text bs h)
from_hex-hex_text bs h (inr e) =
    let n : length (hex_text bs) ≡ 64 = omega (arith, length-hex_text bs) in
    from_hex-unhex (hex_text bs) ∙ rw n (unhex-hex_text bs h)

-- What `unhex` returns has half as many bytes, each below 256.
abbrev HalfOf : ℕ → Bytes → Type 0
HalfOf n bs = IsBytes bs × (n ≡ length bs * 2)

pub unhex-IsBytes : (s : Bytes) {bs : Bytes} → unhex s ≡ some bs → HalfOf (length s) bs
unhex-IsBytes [] {bs} e = subst (HalfOf 0) (some-injective _ _ e) (tt, refl)
unhex-IsBytes (c ∷ []) e = cc
unhex-IsBytes (c ∷ d ∷ rest) {bs} e =
    go (hex_digit c) (hex_digit d) (unhex rest) refl refl e λ zs w. unhex-IsBytes rest w
  where
    go :
        (a b : Option ℕ) (r : Option Bytes)
        → hex_digit c ≡ a
        → hex_digit d ≡ b
        → (a >>= λ x. b >>= λ y. r >>= λ zs. some ((x * 16 + y) ∷ zs)) ≡ some bs
        → ((zs : Bytes) → r ≡ some zs → HalfOf (length rest) zs)
        → HalfOf (suc (suc (length rest))) bs
    go none b r p q h ih = cc
    go (some x) none r p q h ih = cc
    go (some x) (some y) none p q h ih = cc
    go (some x) (some y) (some zs) p q h ih =
        subst (HalfOf (suc (suc (length rest)))) (some-injective _ _ h) (
          (omega (arith, hex_digit-lt c p, hex_digit-lt d q), (ih zs refl).0),
          omega (arith, (ih zs refl).1),
        )
