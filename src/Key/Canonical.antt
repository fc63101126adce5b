-- ===== src/Key/Canonical.antt =====
-- `ChannelKey::from_user_input` of src/protocol.cpp on Base64 text, against the standard padded
-- encoder, and the sizes of keys.
use mathlib.Core.Option
use mathlib.Core.Option.{some-injective}
use ovmesh_drpp.Base.{
  ◌>>=◌, ℕ, suc, ◌+◌, ◌*◌, ◌/◌, ◌%◌, ◌≤◌, ◌<◌, ◌≡◌, ◌≢◌, refl, sym, ap, ◌∙◌, subst, ◌⊎◌, inl, inr,
  Bool, true, false, ◌||◌, List, [], ◌∷◌, ◌++◌, map, Option, none, some, Bool-cases, dec_eq,
  ==-false, ==_iff, Bytes, IsBytes, All, length, length-append, length-take, take-append-drop,
  replicate, take, drop, take-append, drop-append, equal, equal_iff, codes, ◌==◌, if◌then◌else◌,
  arith,
}
use ovmesh_drpp.Key.{
  bytes, from_hex, from_base64, from_user_input, public_key_token, public_key_hex,
}
use ovmesh_drpp.Key.Encoder.{
  base64_char, pack, padding, to_base64, pack-IsSextet, unpack-pack, left_over-pack, pack-unpack,
  sextets-base64_char, sextets_text,
}
use ovmesh_drpp.Key.Hex.{from_hex-unhex, unhex-IsBytes}
use ovmesh_drpp.Key.Base64.{
  IsSextet, unpack, left_over, sextets, sextets-IsSextet, whole_bytes, from_base64-whole_bytes,
}

not_token : (s : Bytes) (n : ℕ) → length s ≡ n → 4 < n → equal s public_key_token ≡ false
not_token s n e h = elim (Bool-cases (equal s public_key_token)) [
  | inl y ↦ absurd (omega (arith, ap length ((equal_iff s public_key_token).0 y)))
  | inr y ↦ y
]

at_24 : (s : Bytes) → length s ≡ 24 → from_user_input s ≡ from_base64 22 (codes "==") s
unfolding from_user_input
at_24 s e = rw e (rw (not_token s 24 e (omega arith)))

at_44 : (s : Bytes) → length s ≡ 44 → from_user_input s ≡ from_base64 43 (codes "=") s
unfolding from_user_input
at_44 s e = rw e (rw (not_token s 44 e (omega arith)))

length-pack : (bs : Bytes) → length (pack bs) ≡ (length bs * 4 + 2) / 3
length-pack [] = refl
length-pack (x ∷ []) = refl
length-pack (x ∷ y ∷ []) = refl
length-pack (x ∷ y ∷ z ∷ rest) = omega (arith, length-pack rest)

padding_by_length : (bs bs' : Bytes) → length bs ≡ length bs' → padding bs ≡ padding bs'
padding_by_length [] [] e = refl
padding_by_length [] (_ ∷ _) e = absurd (omega arith)
padding_by_length (x ∷ []) (x' ∷ []) e = refl
padding_by_length (x ∷ []) (_ ∷ _ ∷ _) e = absurd (omega arith)
padding_by_length (x ∷ y ∷ []) (_ ∷ _ ∷ []) e = refl
padding_by_length (x ∷ y ∷ []) (_ ∷ _ ∷ _ ∷ _) e = absurd (omega arith)
padding_by_length (x ∷ y ∷ z ∷ r) (_ ∷ _ ∷ _ ∷ r') e = padding_by_length r r' (omega arith)
padding_by_length _ _ e = absurd (omega arith)

length-map : (f : ℕ → ℕ) (xs : List ℕ) → length (map f xs) ≡ length xs
length-map f [] = refl
length-map f (x ∷ xs) = ap suc (length-map f xs)

equal_self : (s : Bytes) → equal s s ≡ true
equal_self s = (equal_iff s s).1 refl

take-append_of : (xs ys : Bytes) (n : ℕ) → length xs ≡ n → take n (xs ++ ys) ≡ xs
take-append_of xs ys n e = rw (← e) (take-append xs ys)

drop-append_of : (xs ys : Bytes) (n : ℕ) → length xs ≡ n → drop n (xs ++ ys) ≡ ys
drop-append_of xs ys n e = rw (← e) (drop-append xs ys)

-- `from_base64` on a text whose padding is right.
base64_of_text :
    (chars : ℕ) (pad cs : Bytes) {vs : List ℕ}
    → length cs ≡ chars
    → chars ≤ 43
    → sextets cs ≡ some vs
    → Option.map bytes (from_base64 chars pad (cs ++ pad)) ≡ whole_bytes vs
base64_of_text chars pad cs e h s =
    from_base64-whole_bytes chars pad (cs ++ pad) (omega (arith, length-append cs pad)) h
    ∙ rw (drop-append_of cs pad chars e, take-append_of cs pad chars e, equal_self pad, s)

read_back :
    (chars : ℕ) (bs pad : Bytes)
    → padding bs ≡ pad
    → IsBytes bs
    → length (pack bs) ≡ chars
    → chars ≤ 43
    → Option.map bytes (from_base64 chars pad (to_base64 bs)) ≡ some bs
read_back chars bs pad p h e k = rw (← p) (
    base64_of_text chars (padding bs) (map base64_char (pack bs)) (length-map _ (pack bs) ∙ e) k
      (sextets-base64_char (pack bs) (pack-IsSextet bs h))
    ∙ rw (left_over-pack bs h, unpack-pack bs h))

length_text :
    (bs pad : Bytes) → padding bs ≡ pad → length (to_base64 bs) ≡ length (pack bs) + length pad
length_text bs pad e = rw e (
    length-append (map base64_char (pack bs)) pad ∙ omega (arith, length-map base64_char (pack bs)))

unpack-IsBytes : (vs : List ℕ) → All IsSextet vs → IsBytes (unpack vs)
unpack-IsBytes [] h = tt
unpack-IsBytes (a ∷ []) h = tt
unpack-IsBytes (a ∷ b ∷ []) (p, (q, _)) = omega arith
unpack-IsBytes (a ∷ b ∷ c ∷ []) (p, (q, (w, _))) = omega arith
unpack-IsBytes (a ∷ b ∷ c ∷ d ∷ rest) (p, (q, (w, (z, h)))) =
    (omega arith, (omega arith, (omega arith, unpack-IsBytes rest h)))

-- `s` is the spelling of `bs` with this padding and so many characters before it.
abbrev Spells : ℕ → Bytes → Bytes → Bytes → Type 0
Spells chars pad s bs =
    (s ≡ map base64_char (pack bs) ++ pad) × IsBytes bs × (length (pack bs) ≡ chars)

Spells-unpack :
    (chars : ℕ) (s : Bytes) (vs : List ℕ)
    → chars ≤ length s
    → chars % 4 ≢ 1
    → sextets (take chars s) ≡ some vs
    → left_over vs ≡ 0
    → Spells chars (drop chars s) s (unpack vs)
Spells-unpack chars s vs h n w l =
    let text = sextets_text (take chars s) w in
    let good = sextets-IsSextet (take chars s) w in
    let count : length vs ≡ chars =
      omega (arith, ap length text, length-map base64_char vs, length-take chars s) in
    let back : pack (unpack vs) ≡ vs = pack-unpack vs good l (λ e. n (rw (← count) e)) in
    (rw (back, ← text) (sym (take-append-drop chars s)), unpack-IsBytes vs good, rw back count)

abbrev sixteen : Bytes
sixteen = replicate 16 0

abbrev thirty_two : Bytes
thirty_two = replicate 32 0

-- Writing 16 or 32 bytes as padded Base64 and reading the text as user input gives a key with
-- these bytes.
pub from_user_input-to_base64 :
    (bs : Bytes)
    → IsBytes bs
    → (length bs ≡ 16) ⊎ (length bs ≡ 32)
    → Option.map bytes (from_user_input (to_base64 bs)) ≡ some bs
from_user_input-to_base64 bs h (inl e) =
    let pad : padding bs ≡ codes "==" = padding_by_length bs sixteen e in
    let n : length (pack bs) ≡ 22 = omega (arith, length-pack bs) in
    let total : length (to_base64 bs) ≡ 24 = length_text bs (codes "==") pad ∙ omega arith in
    ap (Option.map bytes) (at_24 (to_base64 bs) total)
    ∙ read_back 22 bs (codes "==") pad h n (omega arith)
from_user_input-to_base64 bs h (inr e) =
    let pad : padding bs ≡ codes "=" = padding_by_length bs thirty_two e in
    let n : length (pack bs) ≡ 43 = omega (arith, length-pack bs) in
    let total : length (to_base64 bs) ≡ 44 = length_text bs (codes "=") pad ∙ omega arith in
    ap (Option.map bytes) (at_44 (to_base64 bs) total)
    ∙ read_back 43 bs (codes "=") pad h n (omega arith)

-- What a successful `from_base64` says of its text.
from_base64-Spells :
    (chars : ℕ) (pad s : Bytes) {bs : Bytes}
    → chars ≤ length s
    → chars ≤ 43
    → chars % 4 ≢ 1
    → Option.map bytes (from_base64 chars pad s) ≡ some bs
    → Spells chars pad s bs
from_base64-Spells chars pad s {bs} h k n e =
    go (equal (drop chars s) pad) (sextets (take chars s)) refl refl
      (sym (from_base64-whole_bytes chars pad s h k) ∙ e)
  where
    inside :
        (vs : List ℕ) (z : Bool)
        → (left_over vs == 0) ≡ z
        → sextets (take chars s) ≡ some vs
        → drop chars s ≡ pad
        → (if z then some (unpack vs) else none) ≡ some bs
        → Spells chars pad s bs
    inside vs true q w d f =
        subst (Spells chars pad s) (some-injective _ _ f)
          (rw d at (Spells-unpack chars s vs h n w ((==_iff _ 0).0 q)))
    inside vs false q w d f = cc

    go :
        (t : Bool) (o : Option (List ℕ))
        → equal (drop chars s) pad ≡ t
        → sextets (take chars s) ≡ o
        → (if t then o >>= whole_bytes else none) ≡ some bs
        → Spells chars pad s bs
    go false o p q f = cc
    go true none p q f = cc
    go true (some vs) p q f =
        inside vs (left_over vs == 0) refl q ((equal_iff (drop chars s) pad).0 p) f

-- A key is 16 or 32 bytes.
abbrev pub IsKeyMaterial : Bytes → Type 0
IsKeyMaterial bs = IsBytes bs × ((length bs ≡ 16) ⊎ (length bs ≡ 32))

spelling_128 : (s bs : Bytes) → Spells 22 (codes "==") s bs → (s ≡ to_base64 bs) × IsKeyMaterial bs
spelling_128 s bs (e, h, n) =
    let k : length bs ≡ 16 = omega (arith, length-pack bs) in
    (rw (padding_by_length bs sixteen k) e, (h, inl k))

spelling_256 : (s bs : Bytes) → Spells 43 (codes "=") s bs → (s ≡ to_base64 bs) × IsKeyMaterial bs
spelling_256 s bs (e, h, n) =
    let k : length bs ≡ 32 = omega (arith, length-pack bs) in
    (rw (padding_by_length bs thirty_two k) e, (h, inr k))

-- No other spelling is accepted: a text of 24 or 44 characters that is read as a key is the padded
-- Base64 of the bytes of that key, which are 16 or 32 bytes, each below 256.
pub from_user_input_canonical :
    (s : Bytes) {bs : Bytes}
    → (length s ≡ 24) ⊎ (length s ≡ 44)
    → Option.map bytes (from_user_input s) ≡ some bs
    → (s ≡ to_base64 bs) × IsKeyMaterial bs
from_user_input_canonical s {bs} (inl e) h = spelling_128 s bs (
    from_base64-Spells 22 (codes "==") s (omega arith) (omega arith) (λ x. absurd (omega arith))
      (ap (Option.map bytes) (sym (at_24 s e)) ∙ h))
from_user_input_canonical s {bs} (inr e) h = spelling_256 s bs (
    from_base64-Spells 43 (codes "=") s (omega arith) (omega arith) (λ x. absurd (omega arith))
      (ap (Option.map bytes) (sym (at_44 s e)) ∙ h))

from_hex-IsKeyMaterial :
    (s : Bytes) {bs : Bytes} → Option.map bytes (from_hex s) ≡ some bs → IsKeyMaterial bs
from_hex-IsKeyMaterial s {bs} h =
    let e = sym (from_hex-unhex s) ∙ h in
    elim (dec_eq (length s) 32) [
      | yes p ↦ let u = unhex-IsBytes s (rw p at e) in (u.0, inl (omega arith))
      | no np ↦ elim (dec_eq (length s) 64) [
        | yes p ↦ let u = unhex-IsBytes s (rw p at e) in (u.0, inr (omega arith))
        | no nq ↦ let q : none ≡ some bs = rw (==-false _ _ np, ==-false _ _ nq) at e in cc
      ]
    ]

-- What `from_user_input` does, by the length of the text and the public token.
user_cases :
    (s : Bytes)
    → (from_user_input s ≡ from_hex s)
      ⊎ ((from_user_input s ≡ from_hex public_key_hex)
          ⊎ (((length s ≡ 24) ⊎ (length s ≡ 44)) ⊎ (from_user_input s ≡ none)))
unfolding from_user_input
user_cases s = elim (Bool-cases (length s == 32 || length s == 64)) [
  | inl p ↦ inl (rw p)
  | inr np ↦ elim (Bool-cases (equal s public_key_token)) [
    | inl q ↦ inr (inl (rw np (rw q)))
    | inr nq ↦ elim (dec_eq (length s) 24) [
      | yes e ↦ inr (inr (inl (inl e)))
      | no ne ↦ elim (dec_eq (length s) 44) [
        | yes e ↦ inr (inr (inl (inr e)))
        | no nf ↦ inr (inr (inr (rw np (rw nq (rw (==-false _ _ ne) (rw (==-false _ _ nf)))))))
      ]
    ]
  ]
]

-- Whatever text the user gives, an accepted key has 16 or 32 bytes, each below 256.
pub from_user_input-IsKeyMaterial :
    (s : Bytes) {bs : Bytes} → Option.map bytes (from_user_input s) ≡ some bs → IsKeyMaterial bs
from_user_input-IsKeyMaterial s {bs} h = elim (user_cases s) [
  | inl e ↦ from_hex-IsKeyMaterial s (ap (Option.map bytes) (sym e) ∙ h)
  | inr (inl e) ↦ from_hex-IsKeyMaterial public_key_hex (ap (Option.map bytes) (sym e) ∙ h)
  | inr (inr (inl l)) ↦ (from_user_input_canonical s l h).1
  | inr (inr (inr e)) ↦ let q : none ≡ some bs = ap (Option.map bytes) (sym e) ∙ h in cc
]
