-- ===== src/Decimal/RoundTrip.antt =====
-- Printed decimal numbers are read back, and what they are made of.
use Prim.Native.Nat.{◌^◌}
use ovmesh_drpp.Base.{
  ℕ, zero, suc, ◌+◌, ◌/◌, ◌%◌, ◌<◌, ◌≤◌, true, false, ◌&&◌, [], ◌∷◌, some, Bytes, All, leb, ◌==◌,
  Bool-cases, ◌≡◌, ◌≢◌, refl, sym, ap, ◌∙◌, inl, inr, arith, subst, ℤ, pos, negsuc,
}
use native.Mathlib.Nat.{pow-suc}
use ovmesh_drpp.Decimal.{
  write_digits, to_string, signed_to_string, read_digits, from_chars, signed_from_chars,
}

abbrev pub IsDigit : ℕ → Type 0
IsDigit c = (b'0' ≤ c) × (c ≤ b'9')

write_digits-IsDigit :
    (left n : ℕ) (out : Bytes) → All IsDigit out → All IsDigit (write_digits left n out)
unfolding write_digits
write_digits-IsDigit zero n out h = h
write_digits-IsDigit (suc left) n out h = elim (Bool-cases (n / 10 == 0)) [
  | inl t ↦ rw t (omega arith, h)
  | inr f ↦ rw f (write_digits-IsDigit left (n / 10) _ (omega arith, h))
]

read_digit :
    (n : ℕ) (out : Bytes) → read_digits (n / 10) ((b'0' + n % 10) ∷ out) ≡ read_digits n out
unfolding read_digits
read_digit n out =
    let t : (leb b'0' (b'0' + n % 10) && leb (b'0' + n % 10) b'9') ≡ true = ground arith in
    rw t (ap (λ k. read_digits k out) (omega arith))

-- One round: the last digit stands in front of the text, behind the digits before it.
read-round :
    (left n : ℕ) (out : Bytes)
    → (n / 10 ≢ 0
        → read_digits 0 (write_digits left (n / 10) ((b'0' + n % 10) ∷ out))
          ≡ read_digits (n / 10) ((b'0' + n % 10) ∷ out))
    → read_digits 0 (write_digits (suc left) n out) ≡ read_digits n out
unfolding write_digits
read-round left n out h = elim (Bool-cases (n / 10 == 0)) [
  | inl t ↦ rw t (
      ap (λ k. read_digits k ((b'0' + n % 10) ∷ out)) {y = n / 10} (ground arith)
      ∙ read_digit n out)
  | inr f ↦ rw f (h (ground arith) ∙ read_digit n out)
]

read-write_digits :
    (left n : ℕ) (out : Bytes)
    → n < 10 ^ suc left
    → read_digits 0 (write_digits (suc left) n out) ≡ read_digits n out
read-write_digits zero n out h = read-round 0 n out (λ e. absurd (e (omega arith)))
read-write_digits (suc left) n out h =
    let small : n / 10 < 10 ^ suc left = omega (arith, pow-suc 10 (suc left)) in
    read-round (suc left) n out (λ e. read-write_digits left (n / 10) _ small)

write_digits-cons :
    (left n : ℕ) (out : Bytes) → (c : ℕ) × (s : Bytes) × (write_digits (suc left) n out ≡ c ∷ s)
unfolding write_digits
write_digits-cons left n out = elim (Bool-cases (n / 10 == 0)) [
  | inl t ↦ rw t (b'0' + n % 10, out, refl)
  | inr f ↦ rw f (longer left (n / 10) (b'0' + n % 10) out)
]
  where
    longer : (l m c : ℕ) (s : Bytes) → (d : ℕ) × (t : Bytes) × (write_digits l m (c ∷ s) ≡ d ∷ t)
    longer zero m c s = (c, s, refl)
    longer (suc l) m c s = elim (Bool-cases (m / 10 == 0)) [
      | inl t ↦ rw t (b'0' + m % 10, c ∷ s, refl)
      | inr f ↦ rw f (longer l (m / 10) (b'0' + m % 10) (c ∷ s))
    ]

abbrev NotEmpty : Bytes → Type 0
NotEmpty s = (c : ℕ) × (t : Bytes) × (s ≡ c ∷ t)

from_chars-read :
    (limit n : ℕ) (s : Bytes)
    → NotEmpty s
    → read_digits 0 s ≡ some n
    → n ≤ limit
    → from_chars limit s ≡ some n
unfolding from_chars
from_chars-read limit n s (c, t, e) r h =
    let q : read_digits 0 (c ∷ t) ≡ some n = ap (read_digits 0) (sym e) ∙ r in
    let k : leb n limit ≡ true = ground arith in rw e (rw q (rw k refl))

-- A printed number of at most 20 digits is read back by any type that holds it.
pub from_chars-to_string :
    (limit n : ℕ) → n < 10 ^ 20 → n ≤ limit → from_chars limit (to_string n) ≡ some n
from_chars-to_string limit n w h =
    from_chars-read limit n (to_string n) (write_digits-cons 19 n [])
      (read-write_digits 19 n [] w ∙ end_of n) h
  where
    end_of : (n : ℕ) → read_digits n [] ≡ some n
    end_of n = unfold read_digits in refl

pub to_string-IsDigit : (n : ℕ) → All IsDigit (to_string n)
to_string-IsDigit n = write_digits-IsDigit 20 n [] tt

-- The values that a signed type with the greatest value `limit` holds.
abbrev pub Holds : (limit : ℕ) → ℤ → Type 0
Holds limit (pos n) = n ≤ limit
Holds limit (negsuc n) = n ≤ limit

pub signed_from_chars-signed_to_string :
    (limit : ℕ) (z : ℤ)
    → limit < 2 ^ 63
    → Holds limit z
    → signed_from_chars limit (signed_to_string z) ≡ some z
unfolding signed_from_chars
signed_from_chars-signed_to_string limit (pos n) w h =
    let (c, t, e) = write_digits-cons 19 n [] in
    let digit : IsDigit c = (to_list e (to_string-IsDigit n)).0 in
    let minus : (c == b'-') ≡ false = ground arith in
    let back : from_chars limit (c ∷ t) ≡ some n =
      ap (from_chars limit) (sym e) ∙ from_chars-to_string limit n (omega arith) h in
    rw e (rw minus (rw back refl))
  where
    to_list : {s t : Bytes} → s ≡ t → All IsDigit s → All IsDigit t
    to_list e = subst (All IsDigit) e
signed_from_chars-signed_to_string limit (negsuc n) w h =
    let back = from_chars-to_string (limit + 1) (n + 1) (omega arith) (omega arith) in
    let positive : (n + 1 == 0) ≡ false = ground arith in
    rw back (rw positive (ap (λ k. some (negsuc k)) (omega arith)))
