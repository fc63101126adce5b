-- ===== src/Protocol/Nonce.antt =====
-- The nonce of a packet, from which its two identifiers can be read back.
use ovmesh_drpp.Base.{ℕ, ◌+◌, ◌*◌, ◌/◌, ◌%◌, ◌^◌, ◌<◌, ◌≡◌, ◌∙◌, ap, arith, bit_or, ◌<<<◌}
use ovmesh_drpp.Base.Bits.{or_above}
use ovmesh_drpp.Protocol.{le32, put32_loop, put32, meshtastic_nonce}

-- Four bytes, the lowest first, make up a number of 32 bits.
assembled :
    (v : ℕ)
    → v < 2 ^ 32
    → bit_or
        (bit_or (bit_or (v % 256) ((v / 256 % 256) <<< 8)) ((v / 65536 % 256) <<< 16))
        ((v / 16777216 % 256) <<< 24)
      ≡ v
assembled v h =
    let a = or_above 8 (v / 256 % 256) (v % 256) (omega arith) in
    let b = or_above 16 (v / 65536 % 256) (v % 65536) (omega arith) in
    let c = or_above 24 (v / 16777216 % 256) (v % 16777216) (omega arith) in
    let first : v % 256 + v / 256 % 256 * 256 ≡ v % 65536 = omega arith in
    let second : v % 65536 + v / 65536 % 256 * 65536 ≡ v % 16777216 = omega arith in
    let third : v % 16777216 + v / 16777216 % 256 * 16777216 ≡ v = omega arith in
    ap (λ x. bit_or (bit_or x ((v / 65536 % 256) <<< 16)) ((v / 16777216 % 256) <<< 24)) (a ∙ first)
    ∙ ap (λ x. bit_or x ((v / 16777216 % 256) <<< 24)) (b ∙ second)
    ∙ c
    ∙ third

-- The nonce of a packet determines its number and its sender: the two 32-bit values that were put
-- in are read back at the offsets 0 and 8.
pub le32-meshtastic_nonce :
    (from id : ℕ)
    → from < 2 ^ 32
    → id < 2 ^ 32
    → (le32 (meshtastic_nonce from id) 0 ≡ id) × (le32 (meshtastic_nonce from id) 8 ≡ from)
unfolding meshtastic_nonce put32 put32_loop
le32-meshtastic_nonce from id f i = (
  ap
        (λ x.
          bit_or (bit_or (bit_or (x % 256) ((id / 256 % 256) <<< 8)) ((id / 65536 % 256) <<< 16))
            ((id / 16777216 % 256) <<< 24))
        {y = id} (omega arith)
      ∙ assembled id i,
  ap
        (λ x.
          bit_or
            (bit_or (bit_or (x % 256) ((from / 256 % 256) <<< 8)) ((from / 65536 % 256) <<< 16))
            ((from / 16777216 % 256) <<< 24))
        {y = from} (omega arith)
      ∙ assembled from f,
)
