-- ===== src/Key/Base64.antt =====
-- `ChannelKey::from_user_input` on Base64 text, against the standard encoder.
use mathlib.Core.Option
use mathlib.Core.Option.{some-injective}
use ovmesh_drpp.Base.{
  ◌>>=◌, ℕ, zero, suc, ◌+◌, ◌-◌, ◌*◌, ◌/◌, ◌%◌, ◌^◌, ◌≤◌, ◌<◌, ◌≡◌, refl, sym, ap, ap₂, ◌∙◌, subst,
  inl, inr, List, [], ◌∷◌, ◌++◌, append-nil, append_assoc, Option, none, some, Bool-cases, leb→le,
  Bytes, All, length, length-set, get_or, take, drop, drop-get_or, take-set_add, u8, u32, equal,
  low_mask, ◌<<<◌, bit_or, bit_and, leb, ◌==◌, if◌then◌else◌, arith,
}
use ovmesh_drpp.Base.Bits.{or_shifted, and_mask}
use ovmesh_drpp.Key.{
  empty_key, bytes, base64_digit, base64_loop, Decoder, absorb, checked_key, from_base64,
}

abbrev pub IsSextet : ℕ → Type 0
IsSextet v = v < 64

-- The bytes of a list of sextets, and the bits that are left over behind the last byte.
abbrev pub unpack : List ℕ → Bytes
unpack (a ∷ b ∷ c ∷ d ∷ rest) =
    (a * 4 + b / 16) ∷ (b % 16 * 16 + c / 4) ∷ (c % 4 * 64 + d) ∷ unpack rest
unpack (a ∷ b ∷ c ∷ []) = (a * 4 + b / 16) ∷ (b % 16 * 16 + c / 4) ∷ []
unpack (a ∷ b ∷ []) = (a * 4 + b / 16) ∷ []
unpack _ = []

abbrev pub left_over : List ℕ → ℕ
left_over (a ∷ b ∷ c ∷ d ∷ rest) = left_over rest
left_over (a ∷ b ∷ c ∷ []) = c % 4
left_over (a ∷ b ∷ []) = b % 16
left_over (a ∷ []) = a
left_over [] = 0

-- `absorb` with the bytes of the key as a list.
record Run : Type 0 where
  value : ℕ
  bits : ℕ
  out : Bytes

feed : ℕ → Run → Run
feed v r =
    let value = r.value % 2 ^ 26 * 64 + v in
    if leb 8 (r.bits + 6)
    then record {
      value = value;
      bits = r.bits + 6 - 8;
      out = r.out ++ (value / 2 ^ (r.bits + 6 - 8) % 256) ∷ [];
    }
    else record { value = value; bits = r.bits + 6; out = r.out }

feed_all : List ℕ → Run → Run
feed_all [] r = r
feed_all (v ∷ vs) r = feed_all vs (feed v r)

-- A decoder and a run that agree, with room for `left` more sextets.
record Same (d : Decoder) (r : Run) (left : ℕ) : Type 0 where
  same_value : d.value ≡ r.value
  same_bits : d.bits ≡ r.bits
  same_out : bytes d.key ≡ r.out
  width : length d.key.data_ ≡ 32
  room : d.key.size_ * 8 + d.bits + left * 6 ≤ 263

shift_in : (value v : ℕ) → v < 64 → bit_or (u32 (value <<< 6)) v ≡ value % 2 ^ 26 * 64 + v
shift_in value v h =
    let e : u32 (value <<< 6) ≡ (value % 2 ^ 26) <<< 6 = omega arith in
    rw e (or_shifted 6 (value % 2 ^ 26) v h)

absorb-Same :
    (v : ℕ) (d : Decoder) (r : Run) (left : ℕ)
    → v < 64
    → Same d r (suc left)
    → Same (absorb v d) (feed v r) left
unfolding absorb feed
absorb-Same v d r left h s =
    rw (s.same_bits, s.same_value, shift_in r.value v h)
      (elim (Bool-cases (leb 8 (r.bits + 6))) [
        | inl e ↦ rw e (record {
          same_value = refl;
          same_bits = refl;
          same_out =
              rw
                (take-set_add d.key.data_ d.key.size_
                  (u8 ((r.value % 2 ^ 26 * 64 + v) / 2 ^ (r.bits + 6 - 8)))
                  (omega (arith, leb→le 8 (r.bits + 6) e)))
                (rw s.same_out);
          width = length-set d.key.data_ d.key.size_ _ ∙ s.width;
          room = omega (arith, leb→le 8 (r.bits + 6) e);
        })
        | inr e ↦ rw e (record {
          same_value = refl;
          same_bits = refl;
          same_out = s.same_out;
          width = s.width;
          room = omega arith;
        })
      ])

abbrev pub sextets : Bytes → Option (List ℕ)
sextets [] = some []
sextets (c ∷ cs) = do v ← base64_digit c; vs ← sextets cs; some (v ∷ vs)

pub base64_digit-lt : (c : ℕ) {v : ℕ} → base64_digit c ≡ some v → v < 64
unfolding base64_digit
base64_digit-lt c h = ground arith

-- The loop fails where a character is no digit, and otherwise feeds every sextet in.
abbrev Ends : Option (List ℕ) → Run → Option Decoder → Type 0
Ends none r o = o ≡ none
Ends (some vs) r o = (d : Decoder) × (o ≡ some d) × Same d (feed_all vs r) 0

Ends-cons :
    (vs : Option (List ℕ)) (v : ℕ) (r : Run) (o : Option Decoder)
    → Ends vs (feed v r) o
    → Ends (vs >>= λ ws. some (v ∷ ws)) r o
unfolding feed_all
Ends-cons none v r o h = h
Ends-cons (some vs) v r o h = h

base64_loop-Ends :
    (left i : ℕ) (input : Bytes) (d : Decoder) (r : Run)
    → i + left ≤ length input
    → Same d r left
    → Ends (sextets (take left (drop i input))) r (base64_loop left i input d)
unfolding base64_loop feed_all
base64_loop-Ends zero i input d r h s = (d, refl, s)
base64_loop-Ends (suc left) i input d r h s = rw (drop-get_or i input 0 (omega arith)) (
    go (base64_digit (get_or input i 0)) refl λ v p.
      let e : suc i ≡ i + 1 = omega arith in
      rw e (
        base64_loop-Ends left (i + 1) input (absorb v d) (feed v r) (omega arith)
          (absorb-Same v d r left p s)))
  where
    go :
        (o : Option ℕ)
        → base64_digit (get_or input i 0) ≡ o
        → ((v : ℕ)
            → v < 64
            → Ends
                (sextets (take left (drop (suc i) input)))
                (feed v r)
                (base64_loop left (i + 1) input (absorb v d)))
        → Ends
            (o >>= λ v. sextets (take left (drop (suc i) input)) >>= λ vs. some (v ∷ vs))
            r
            (o >>= λ v. base64_loop left (i + 1) input (absorb v d))
    go none e ih = refl
    go (some v) e ih = Ends-cons _ v r _ (ih v (base64_digit-lt _ e))

module _ (A : ℕ) (out : Bytes) where
  abbrev start : Run
  start = record { value = A; bits = 0; out = out }

-- What is known at the end of a run that starts with no bits waiting.
record Unpacks (vs : List ℕ) (out : Bytes) (r : Run) : Type 0 where
  bytes_out : r.out ≡ out ++ unpack vs
  rest_bits : r.value % 2 ^ r.bits ≡ left_over vs

first_byte :
    (X a b : ℕ) → a < 64 → b < 64 → ((X * 64 + a) % 2 ^ 26 * 64 + b) / 16 % 256 ≡ a * 4 + b / 16
first_byte X a b p q = omega arith

second_byte :
    (X b c : ℕ) → b < 64 → c < 64 → ((X * 64 + b) % 2 ^ 26 * 64 + c) / 4 % 256 ≡ b % 16 * 16 + c / 4
second_byte X b c p q = omega arith

third_byte :
    (X c d : ℕ) → c < 64 → d < 64 → ((X * 64 + c) % 2 ^ 26 * 64 + d) / 1 % 256 ≡ c % 4 * 64 + d
third_byte X c d p q = omega arith

append_two : (out : Bytes) (x y : ℕ) → (out ++ x ∷ []) ++ y ∷ [] ≡ out ++ x ∷ y ∷ []
append_two out x y = simp append_assoc

append_three :
    (out rest : Bytes) (x y z : ℕ)
    → (((out ++ x ∷ []) ++ y ∷ []) ++ z ∷ []) ++ rest ≡ out ++ x ∷ y ∷ z ∷ rest
append_three out rest x y z = simp append_assoc

feed_all-Unpacks :
    (vs : List ℕ) (A : ℕ) (out : Bytes)
    → All IsSextet vs
    → Unpacks vs out (feed_all vs (start A out))
unfolding feed_all feed
feed_all-Unpacks [] A out h = record { bytes_out = sym (append-nil out); rest_bits = omega arith }
feed_all-Unpacks (a ∷ []) A out h = record {
  bytes_out = sym (append-nil out);
  rest_bits = omega arith;
}
feed_all-Unpacks (a ∷ b ∷ []) A out (p, (q, _)) = record {
  bytes_out = ap (λ x. out ++ x ∷ []) (first_byte _ a b p q);
  rest_bits = omega arith;
}
feed_all-Unpacks (a ∷ b ∷ c ∷ []) A out (p, (q, (w, _))) = record {
  bytes_out =
      append_two out _ _
      ∙ ap₂ (λ x y. out ++ x ∷ y ∷ []) (first_byte _ a b p q) (second_byte _ b c q w);
  rest_bits = omega arith;
}
feed_all-Unpacks (a ∷ b ∷ c ∷ d ∷ rest) A out (p, (q, (w, (z, h)))) =
    let ih = feed_all-Unpacks rest _ _ h in
    record {
      bytes_out =
          ih.bytes_out
          ∙ rw (first_byte _ a b p q, second_byte _ b c q w, third_byte _ c d w z)
              (append_three out (unpack rest) _ _ _);
      rest_bits = ih.rest_bits;
    }

pub sextets-IsSextet : (cs : Bytes) {vs : List ℕ} → sextets cs ≡ some vs → All IsSextet vs
sextets-IsSextet [] e = subst (All IsSextet) (some-injective _ _ e) tt
sextets-IsSextet (c ∷ cs) {vs} e =
    go (base64_digit c) (sextets cs) refl e (λ ws w. sextets-IsSextet cs w)
  where
    go :
        (a : Option ℕ) (r : Option (List ℕ))
        → base64_digit c ≡ a
        → (a >>= λ v. r >>= λ ws. some (v ∷ ws)) ≡ some vs
        → ((ws : List ℕ) → r ≡ some ws → All IsSextet ws)
        → All IsSextet vs
    go none r p h ih = cc
    go (some v) none p h ih = cc
    go (some v) (some ws) p h ih =
        subst (All IsSextet) (some-injective _ _ h) (base64_digit-lt c p, ih ws refl)

-- What a text without its padding denotes: the left-over bits must be zero.
abbrev pub whole_bytes : List ℕ → Option Bytes
whole_bytes vs = if left_over vs == 0 then some (unpack vs) else none

checked_key-whole_bytes :
    (vs : List ℕ) (d : Decoder)
    → All IsSextet vs
    → Same d (feed_all vs (start 0 [])) 0
    → Option.map bytes (checked_key d) ≡ whole_bytes vs
unfolding checked_key
checked_key-whole_bytes vs d h s =
    let u = feed_all-Unpacks vs 0 [] h in
    let r = feed_all vs (start 0 []) in
    let low : bit_and d.value (low_mask d.bits) ≡ left_over vs =
      rw (and_mask d.bits d.value, s.same_value, s.same_bits) u.rest_bits in
    rw low (elim (Bool-cases (left_over vs == 0)) [
      | inl e ↦ rw e (ap some (s.same_out ∙ u.bytes_out))
      | inr e ↦ rw e
    ])

finish :
    (o : Option (List ℕ)) (m : Option Decoder)
    → ((vs : List ℕ) → o ≡ some vs → All IsSextet vs)
    → Ends o (start 0 []) m
    → Option.map bytes (m >>= checked_key) ≡ (o >>= whole_bytes)
finish none m h e = rw e
finish (some vs) m h (d, e, s) = rw e (checked_key-whole_bytes vs d (h vs refl) s)

-- `from_base64` decodes the first `chars` characters, if the padding follows.
pub from_base64-whole_bytes :
    (chars : ℕ) (padding input : Bytes)
    → chars ≤ length input
    → chars ≤ 43
    → Option.map bytes (from_base64 chars padding input) ≡ (
        if equal (drop chars input) padding
        then sextets (take chars input) >>= whole_bytes
        else none)
unfolding from_base64
from_base64-whole_bytes chars padding input h k =
    elim (Bool-cases (equal (drop chars input) padding)) [
      | inr e ↦ rw e
      | inl e ↦ rw e (
          finish (sextets (take chars input)) _ (λ vs p. sextets-IsSextet (take chars input) p)
            (base64_loop-Ends chars 0 input (record { value = 0; bits = 0; key = empty_key })
              (start 0 []) (omega arith)
              (record {
                same_value = refl;
                same_bits = refl;
                same_out = refl;
                width = refl;
                room = omega arith;
              })))
    ]
