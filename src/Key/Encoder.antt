-- ===== src/Key/Encoder.antt =====
-- Standard padded Base64, and that it is inverse to the sextets that the loop reads.

use mathlib.Core.Option.{some-injective}
use ovmesh_drpp.Base.{
  ◌>>=◌, ℕ, ◌+◌, ◌-◌, ◌*◌, ◌/◌, ◌%◌, ◌<◌, ◌≡◌, ◌≢◌, refl, ap, ap₂, subst, List, [], ◌∷◌, ◌++◌, map,
  Option, none, some, Bytes, IsBytes, All, length, codes, leb, ◌==◌, if◌then◌else◌, arith,
}
use ovmesh_drpp.Key.{base64_digit}
use ovmesh_drpp.Key.Base64.{IsSextet, unpack, left_over, sextets}

-- The standard alphabet.
abbrev pub base64_char : ℕ → ℕ
base64_char v =
    if leb v 25
    then b'A' + v
    else if leb v 51
    then b'a' + v - 26
    else if leb v 61
    then b'0' + v - 52
    else if v == 62
    then b'+'
    else b'/'

abbrev pub pack : Bytes → List ℕ
pack (x ∷ y ∷ z ∷ rest) =
    (x / 4) ∷ (x % 4 * 16 + y / 16) ∷ (y % 16 * 4 + z / 64) ∷ (z % 64) ∷ pack rest
pack (x ∷ y ∷ []) = (x / 4) ∷ (x % 4 * 16 + y / 16) ∷ (y % 16 * 4) ∷ []
pack (x ∷ []) = (x / 4) ∷ (x % 4 * 16) ∷ []
pack [] = []

abbrev pub padding : Bytes → Bytes
padding (x ∷ y ∷ z ∷ rest) = padding rest
padding (x ∷ y ∷ []) = codes "="
padding (x ∷ []) = codes "=="
padding [] = []

-- Standard Base64 with padding.
abbrev pub to_base64 : Bytes → Bytes
to_base64 bs = map base64_char (pack bs) ++ padding bs

pub pack-IsSextet : (bs : Bytes) → IsBytes bs → All IsSextet (pack bs)
pack-IsSextet [] h = tt
pack-IsSextet (x ∷ []) (p, _) = omega arith
pack-IsSextet (x ∷ y ∷ []) (p, (q, _)) = omega arith
pack-IsSextet (x ∷ y ∷ z ∷ rest) (p, (q, (w, h))) =
    (omega arith, (omega arith, (omega arith, (omega arith, pack-IsSextet rest h))))

pub unpack-pack : (bs : Bytes) → IsBytes bs → unpack (pack bs) ≡ bs
unpack-pack [] h = refl
unpack-pack (x ∷ []) (p, _) = ap (λ t. t ∷ []) (omega arith)
unpack-pack (x ∷ y ∷ []) (p, (q, _)) = ap₂ (λ s t. s ∷ t ∷ []) (omega arith) (omega arith)
unpack-pack (x ∷ y ∷ z ∷ rest) (p, (q, (w, h))) =
    let a : x / 4 * 4 + (x % 4 * 16 + y / 16) / 16 ≡ x = omega arith in
    let b : (x % 4 * 16 + y / 16) % 16 * 16 + (y % 16 * 4 + z / 64) / 4 ≡ y = omega arith in
    let c : (y % 16 * 4 + z / 64) % 4 * 64 + z % 64 ≡ z = omega arith in
    rw (a, b, c, unpack-pack rest h)

pub left_over-pack : (bs : Bytes) → IsBytes bs → left_over (pack bs) ≡ 0
left_over-pack [] h = refl
left_over-pack (x ∷ []) (p, _) = omega arith
left_over-pack (x ∷ y ∷ []) (p, (q, _)) = omega arith
left_over-pack (x ∷ y ∷ z ∷ rest) (p, (q, (w, h))) = left_over-pack rest h

pub pack-unpack :
    (vs : List ℕ) → All IsSextet vs → left_over vs ≡ 0 → length vs % 4 ≢ 1 → pack (unpack vs) ≡ vs
pack-unpack [] h e n = refl
pack-unpack (a ∷ []) h e n = absurd (n refl)
pack-unpack (a ∷ b ∷ []) (p, (q, _)) e n = ap₂ (λ s t. s ∷ t ∷ []) (omega arith) (omega arith)
pack-unpack (a ∷ b ∷ c ∷ []) (p, (q, (w, _))) e n =
    let k : (a * 4 + b / 16) / 4 ≡ a = omega arith in
    let l : (a * 4 + b / 16) % 4 * 16 + (b % 16 * 16 + c / 4) / 16 ≡ b = omega arith in
    let m : (b % 16 * 16 + c / 4) % 16 * 4 ≡ c = omega arith in rw (k, l, m)
pack-unpack (a ∷ b ∷ c ∷ d ∷ rest) (p, (q, (w, (z, h)))) e n =
    let k : (a * 4 + b / 16) / 4 ≡ a = omega arith in
    let l : (a * 4 + b / 16) % 4 * 16 + (b % 16 * 16 + c / 4) / 16 ≡ b = omega arith in
    let m : (b % 16 * 16 + c / 4) % 16 * 4 + (c % 4 * 64 + d) / 64 ≡ c = omega arith in
    let o : (c % 4 * 64 + d) % 64 ≡ d = omega arith in
    rw (k, l, m, o, pack-unpack rest h e (λ f. n (omega arith)))

base64_digit-base64_char : (v : ℕ) → v < 64 → base64_digit (base64_char v) ≡ some v
unfolding base64_digit
base64_digit-base64_char v h = ground arith

base64_char-base64_digit : (c : ℕ) {v : ℕ} → base64_digit c ≡ some v → c ≡ base64_char v
unfolding base64_digit
base64_char-base64_digit c h = ground arith

pub sextets-base64_char : (vs : List ℕ) → All IsSextet vs → sextets (map base64_char vs) ≡ some vs
sextets-base64_char [] h = refl
sextets-base64_char (v ∷ vs) (p, h) = rw (base64_digit-base64_char v p, sextets-base64_char vs h)

pub sextets_text : (cs : Bytes) {vs : List ℕ} → sextets cs ≡ some vs → cs ≡ map base64_char vs
sextets_text [] e = subst (λ ws. [] ≡ map base64_char ws) (some-injective _ _ e) refl
sextets_text (c ∷ cs) {vs} e = go (base64_digit c) (sextets cs) refl e λ ws w. sextets_text cs w
  where
    go :
        (a : Option ℕ) (r : Option (List ℕ))
        → base64_digit c ≡ a
        → (a >>= λ v. r >>= λ ws. some (v ∷ ws)) ≡ some vs
        → ((ws : List ℕ) → r ≡ some ws → cs ≡ map base64_char ws)
        → c ∷ cs ≡ map base64_char vs
    go none r p h ih = cc
    go (some v) none p h ih = cc
    go (some v) (some ws) p h ih =
        subst (λ us. c ∷ cs ≡ map base64_char us) (some-injective _ _ h)
          (ap₂ ◌∷◌ (base64_char-base64_digit c p) (ih ws refl))
