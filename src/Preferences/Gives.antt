-- ===== src/Preferences/Gives.antt =====
-- Bounds of the values that `parse` of src/preferences.cpp reads.
use mathlib.Core.Option.{some-injective}
use ovmesh_drpp.Base.{
  ℕ, ◌+◌, ◌-◌, ◌*◌, ◌%◌, ◌&&◌, ◌||◌, not, ltb, ◌≤◌, ◌<◌, Bool, true, false, [], ◌∷◌, Option, none,
  some, ◌>>=◌, ◌>>◌, guard, Bytes, IsBytes, length, leb, ◌==◌, if◌then◌else◌, bit_or, ◌<<<◌,
  Bool-cases, ◌≡◌, refl, subst, arith, inl, inr, pos, negsuc,
}
use ovmesh_drpp.Base.Bits.{or_shifted}
use ovmesh_drpp.Decimal.{from_chars, signed_from_chars, read_digits}
use ovmesh_drpp.Decimal.RoundTrip.{Holds}
use ovmesh_drpp.TextField.{valid_text, lower_hex_digit, decode_loop, hex_decode}
use ovmesh_drpp.Preferences.Fields.{
  Fields, at, integer_value, integer, signed_integer_value, signed_integer, text,
}

-- Every result has the property `P`.
pub record Gives {A : Type 0} (P : A → Type 0) (o : Option A) : Type 0 where
  pub holds : (a : A) → o ≡ some a → P a

abbrev pub IsAny : {A : Type 0} → A → Type 0
IsAny a = Unit

pub any : {A : Type 0} (o : Option A) → Gives IsAny o
any o = record { holds = λ a e. tt }

pub none-Gives : {A : Type 0} (P : A → Type 0) → Gives P none
none-Gives P = record { holds = λ a e. cc }

pub some-Gives : {A : Type 0} (P : A → Type 0) (a : A) → P a → Gives P (some a)
some-Gives P a h = record { holds = λ b e. subst P (some-injective _ _ e) h }

-- A chain gives what its last step gives, of the results of the steps before.
pub bind-Gives :
    {A B : Type 0} (P : A → Type 0) (Q : B → Type 0) (o : Option A) (f : A → Option B)
    → Gives P o
    → ((a : A) → P a → Gives Q (f a))
    → Gives Q (o >>= f)
bind-Gives P Q none f g rest = none-Gives Q
bind-Gives P Q (some a) f g rest = rest a (g.holds a refl)

pub guard-Gives :
    {B : Type 0} (Q : B → Type 0) (t : Bool) (k : Option B)
    → (t ≡ true → Gives Q k)
    → Gives Q (guard t >> k)
guard-Gives Q true k rest = rest refl
guard-Gives Q false k rest = none-Gives Q

pub if-Gives :
    {A : Type 0} (P : A → Type 0) (t : Bool) (o p : Option A)
    → Gives P o
    → Gives P p
    → Gives P (if t then o else p)
if-Gives P true o p g h = g
if-Gives P false o p g h = h

from_chars-Gives : (limit : ℕ) (s : Bytes) → Gives (λ n. n ≤ limit) (from_chars limit s)
unfolding from_chars
from_chars-Gives limit [] = none-Gives _
from_chars-Gives limit (c ∷ s) =
    bind-Gives IsAny _ (read_digits 0 (c ∷ s)) _ (any _)
      (λ n _. guard-Gives _ (leb n limit) _ (λ low. some-Gives _ n (ground arith)))

signed_from_chars-Gives : (limit : ℕ) (s : Bytes) → Gives (Holds limit) (signed_from_chars limit s)
unfolding signed_from_chars
signed_from_chars-Gives limit [] = none-Gives _
signed_from_chars-Gives limit (c ∷ s) =
    if-Gives (Holds limit) (c == b'-') _ _
      (bind-Gives (λ n. n ≤ limit + 1) (Holds limit) (from_chars (limit + 1) s) _
        (from_chars-Gives (limit + 1) s) (λ n low. some-Gives (Holds limit) _ (negative n low)))
      (bind-Gives (λ n. n ≤ limit) (Holds limit) (from_chars limit (c ∷ s)) _
        (from_chars-Gives limit (c ∷ s)) (λ n low. some-Gives (Holds limit) (pos n) low))
  where
    negative : (n : ℕ) → n ≤ limit + 1 → Holds limit (if n == 0 then pos 0 else negsuc (n - 1))
    negative n low = elim (Bool-cases (n == 0)) [
      | inl t ↦ rw t (omega arith)
      | inr f ↦ rw f (ground arith)
    ]

pub integer-Gives :
    (limit : ℕ) (name : Bytes) (fields : Fields)
    → Gives (λ n. n ≤ limit) (integer limit name fields)
unfolding integer_value
integer-Gives limit name fields = bind-Gives IsAny _ (at name fields) _ (any _) (λ value _.
    bind-Gives (λ n. n ≤ limit) _ (from_chars limit value) _ (from_chars-Gives limit value)
      (λ n low. guard-Gives _ _ _ (λ _. some-Gives _ n low)))

pub signed_integer-Gives :
    (limit : ℕ) (name : Bytes) (fields : Fields)
    → Gives (Holds limit) (signed_integer limit name fields)
unfolding signed_integer_value
signed_integer-Gives limit name fields = bind-Gives IsAny _ (at name fields) _ (any _) (λ value _.
    bind-Gives (Holds limit) _ (signed_from_chars limit value) _
      (signed_from_chars-Gives limit value)
      (λ n low. guard-Gives _ _ _ (λ _. some-Gives (Holds limit) n low)))

lower_hex_digit-Gives : (c : ℕ) → Gives (λ n. n < 16) (lower_hex_digit c)
unfolding lower_hex_digit
lower_hex_digit-Gives c = elim (Bool-cases (leb b'0' c && leb c b'9')) [
  | inl t ↦ rw t (some-Gives _ (c - b'0') (ground arith))
  | inr f ↦ elim (Bool-cases (leb b'a' c && leb c b'f')) [
    | inl t ↦ rw (f, t) (some-Gives _ (c - b'a' + 10) (ground arith))
    | inr g ↦ rw (f, g) (none-Gives _)
  ]
]

joined : (high low : ℕ) → high < 16 → low < 16 → bit_or (high <<< 4) low < 256
joined high low p q =
    let whole : bit_or (high <<< 4) low ≡ high * 16 + low = or_shifted 4 high low (omega arith) in
    omega arith

decode_loop-Gives : (value : Bytes) → Gives IsBytes (decode_loop value)
unfolding decode_loop
decode_loop-Gives [] = some-Gives IsBytes [] tt
decode_loop-Gives (a ∷ []) = some-Gives IsBytes [] tt
decode_loop-Gives (a ∷ b ∷ value) =
    bind-Gives (λ n. n < 16) _ (lower_hex_digit a) _ (lower_hex_digit-Gives a)
      (λ high p.
        bind-Gives (λ n. n < 16) _ (lower_hex_digit b) _ (lower_hex_digit-Gives b)
          (λ low q.
            bind-Gives IsBytes _ (decode_loop value) _ (decode_loop-Gives value)
              (λ rest r. some-Gives IsBytes _ (joined high low p q, r))))

hex_decode-Gives : (value : Bytes) (limit : ℕ) → Gives IsBytes (hex_decode value limit)
unfolding hex_decode
hex_decode-Gives value limit =
    guard-Gives IsBytes (not (ltb (limit * 2) (length value) || not (length value % 2 == 0))) _
      (λ _.
        bind-Gives IsBytes IsBytes (decode_loop value)
          (λ decoded. guard (valid_text decoded limit) >> some decoded) (decode_loop-Gives value)
          (λ decoded h.
            guard-Gives IsBytes (valid_text decoded limit) _ (λ _. some-Gives IsBytes decoded h)))

pub text-Gives :
    (limit : ℕ) (name : Bytes) (fields : Fields) → Gives IsBytes (text limit name fields)
text-Gives limit name fields =
    bind-Gives IsAny IsBytes (at name fields) _ (any _) (λ value _. hex_decode-Gives value limit)
