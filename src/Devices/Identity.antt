-- ===== src/Devices/Identity.antt =====
-- The identity of a serial device, `stable_id` of src/gps_discovery.cpp.
use ovmesh_drpp.Base.{
  ℕ, ◌/◌, ◌%◌, ◌<◌, Bool, true, false, not, [], ◌∷◌, ◌++◌, Bytes, IsBytes, length, ◌==◌,
  if◌then◌else◌, get_or, drop, codes, ◌≡◌, ◌≢◌, refl, sym, ap, ◌∙◌, arith, bit_and, ◌>>>◌,
}
use mathlib.Core.Option.{some-injective}
use ovmesh_drpp.Base.Bits.{and_mask}
use ovmesh_drpp.TextField.{hex_char, hex_encode, decode_loop}
use ovmesh_drpp.TextField.HexCodec.{decode_loop-hex_encode, hex_char_injective}
use ovmesh_drpp.Devices.{
  SerialDeviceMetadata, hex_bytes, hex_id_loop, own_identity, stable_identity,
}

hex_bytes-hex_encode : (value : Bytes) → hex_bytes value ≡ hex_encode value
unfolding hex_bytes hex_encode
hex_bytes-hex_encode [] = refl
hex_bytes-hex_encode (c ∷ value) =
    ap (λ s. hex_char (c >>> 4) ∷ hex_char (bit_and c 15) ∷ s) (hex_bytes-hex_encode value)

hex_bytes_injective : (a b : Bytes) → IsBytes a → IsBytes b → hex_bytes a ≡ hex_bytes b → a ≡ b
hex_bytes_injective a b p q e = some-injective _ _ (
    sym (decode_loop-hex_encode a p)
    ∙ ap decode_loop (sym (hex_bytes-hex_encode a) ∙ e ∙ hex_bytes-hex_encode b)
    ∙ decode_loop-hex_encode b q)

-- The digits of `hex_id`.
abbrev SameDigits : ℕ → ℕ → Type 0
SameDigits v w =
    (hex_char (v / 16 / 16 / 16 % 16) ≡ hex_char (w / 16 / 16 / 16 % 16))
    × (hex_char (v / 16 / 16 % 16) ≡ hex_char (w / 16 / 16 % 16))
    × (hex_char (v / 16 % 16) ≡ hex_char (w / 16 % 16))
    × (hex_char (v % 16) ≡ hex_char (w % 16))

same_digits : (v w : ℕ) → v < 65536 → w < 65536 → SameDigits v w → v ≡ w
same_digits v w p q (a, b, c, d) =
    let a' = hex_char_injective _ _ (omega arith) (omega arith) a in
    let b' = hex_char_injective _ _ (omega arith) (omega arith) b in
    let c' = hex_char_injective _ _ (omega arith) (omega arith) c in
    let d' = hex_char_injective _ _ (omega arith) (omega arith) d in omega arith

masked :
    (a b : ℕ)
    → hex_char (bit_and a 15) ≡ hex_char (bit_and b 15)
    → hex_char (a % 16) ≡ hex_char (b % 16)
masked a b e = ap hex_char (sym (and_mask 4 a)) ∙ e ∙ ap hex_char (and_mask 4 b)

-- The parts of an identity stand at fixed places in the text.
usb_digits :
    (m n : SerialDeviceMetadata)
    → stable_identity m ≡ stable_identity n
    → SameDigits m.vendor_id n.vendor_id × SameDigits m.product_id n.product_id
unfolding stable_identity hex_id_loop
usb_digits m n e =
    let digit : (i : ℕ) → get_or (stable_identity m) i 0 ≡ get_or (stable_identity n) i 0 =
      λ i. ap (λ s. get_or s i 0) e in
    (
      (masked _ _ (digit 4), masked _ _ (digit 5), masked _ _ (digit 6), masked _ _ (digit 7)),
      (masked _ _ (digit 9), masked _ _ (digit 10), masked _ _ (digit 11), masked _ _ (digit 12)),
    )

own_part :
    (m n : SerialDeviceMetadata)
    → stable_identity m ≡ stable_identity n
    → own_identity m ≡ own_identity n
unfolding stable_identity hex_id_loop
own_part m n e = ap (drop 13) e

same_serial :
    (m n : SerialDeviceMetadata)
    → IsBytes m.serial
    → IsBytes n.serial
    → (length m.serial == 0) ≡ false
    → own_identity m ≡ own_identity n
    → m.serial ≡ n.serial
unfolding own_identity
same_serial m n p q h e =
    go (length n.serial == 0) (length n.location == 0) refl (written (length m.serial == 0) h ∙ e)
  where
    differ : (x y : ℕ) → x ≡ y → x ≢ y → m.serial ≡ n.serial
    differ x y k h = absurd (h k)

    written :
        (b : Bool)
        → b ≡ false
        → codes ":serial:" ++ hex_bytes m.serial ≡ (
            if not b
            then codes ":serial:" ++ hex_bytes m.serial
            else if not (length m.location == 0)
            then codes ":location:" ++ hex_bytes m.location
            else codes ":port:" ++ hex_bytes m.path)
    written true k = cc
    written false k = refl

    go :
        (b c : Bool)
        → (length n.serial == 0) ≡ b
        → codes ":serial:" ++ hex_bytes m.serial ≡ (
            if not b
            then codes ":serial:" ++ hex_bytes n.serial
            else if not c
            then codes ":location:" ++ hex_bytes n.location
            else codes ":port:" ++ hex_bytes n.path)
        → m.serial ≡ n.serial
    go false c k f = hex_bytes_injective m.serial n.serial p q (ap (drop 8) f)
    go true false k f = differ 115 108 (ap (λ (s : Bytes). get_or s 1 0) f) (omega arith)
    go true true k f = differ 115 112 (ap (λ (s : Bytes). get_or s 1 0) f) (omega arith)

-- Two devices with the same identity, of which the first has a serial number, have the same
-- vendor, product and serial number, for serial numbers of bytes, and vendors and products of
-- 16 bits.
pub stable_identity_injective :
    (m n : SerialDeviceMetadata)
    → IsBytes m.serial
    → IsBytes n.serial
    → m.vendor_id < 65536
    → n.vendor_id < 65536
    → m.product_id < 65536
    → n.product_id < 65536
    → (length m.serial == 0) ≡ false
    → stable_identity m ≡ stable_identity n
    → (m.vendor_id ≡ n.vendor_id) × (m.product_id ≡ n.product_id) × (m.serial ≡ n.serial)
stable_identity_injective m n p q a b c d h e =
    let (vendor, product) = usb_digits m n e in
    (
      same_digits m.vendor_id n.vendor_id a b vendor,
      same_digits m.product_id n.product_id c d product,
      same_serial m n p q h (own_part m n e),
    )
