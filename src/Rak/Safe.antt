-- ===== src/Rak/Safe.antt =====
-- What the records that `parse_rak_message` of src/rak_process.cpp accepts hold.
use ovmesh_drpp.Base.{
  ℕ, suc, ◌+◌, ◌-◌, ◌*◌, ◌%◌, ◌^◌, ◌≤◌, ◌<◌, Bool, true, not, ◌&&◌, ◌||◌, List, [], ◌∷◌, Option,
  none, some, Bytes, IsBytes, length, ltb, leb, ◌==◌, codes, equal, ◌≡◌, ◌⊎◌, inl, inr, refl, ap,
  arith, pos, negsuc, subst, Bool-cases, Option-cases, Gives, none-Gives, some-Gives, bind-Gives,
  if-Gives, guard-Gives,
}
use ovmesh_drpp.Decimal.{from_chars}
use ovmesh_drpp.TextField.{lower_hex_digit}
use ovmesh_drpp.Floats.{Doubles}
use ovmesh_drpp.Rak.{
  RakMessage, ready, heartbeat, end_of_records, scan, packet, parsed, refused, malformed, reported,
  split_fields, sum, numerics, payload_loop, parse_payload, error_code, in_band, numeric_double,
  parse_scan, parse_packet, parse_kind, as_parsed, parse_fields, parse_rak_message,
}

lower_hex_digit-bound : (c v : ℕ) → lower_hex_digit c ≡ some v → v < 16
unfolding lower_hex_digit
lower_hex_digit-bound c v e = ground arith

abbrev HoldsHalf : Bytes → Bytes → Type 0
HoldsHalf hex p = (length p * 2 ≤ length hex) × IsBytes p

payload_loop-Gives : (hex : Bytes) → Gives (HoldsHalf hex) (payload_loop hex)
unfolding payload_loop
payload_loop-Gives [] = some-Gives [] (omega arith, tt)
payload_loop-Gives (a ∷ []) = some-Gives [] (omega arith, tt)
payload_loop-Gives (a ∷ b ∷ hex) = bind-Gives (lower_hex_digit a) _ (λ high h.
    bind-Gives (lower_hex_digit b) _ (λ low l. bind-Gives (payload_loop hex) _ (λ rest r.
      let (short, bytes) = (payload_loop-Gives hex).result rest r in
      let small = lower_hex_digit-bound a high h in
      let small_too = lower_hex_digit-bound b low l in
      some-Gives ((high * 16 + low) ∷ rest) (omega arith, (omega arith, bytes)))))

-- A payload has at most 255 bytes, and none where the check of the frame failed.
abbrev pub IsPayload : Bool → Bytes → Type 0
IsPayload crc_valid p = (length p ≤ 255) × (IsBytes p × ((p ≡ []) ⊎ (crc_valid ≡ true)))

parse_payload-Gives :
    (crc_valid : Bool) (hex : Bytes) → Gives (IsPayload crc_valid) (parse_payload crc_valid hex)
unfolding parse_payload
parse_payload-Gives crc_valid hex = elim (Bool-cases (equal hex (codes "-"))) [
  | inl e ↦ rw e (some-Gives [] (omega arith, (tt, inl refl)))
  | inr e ↦ rw e (
      guard-Gives (crc_valid && (leb (length hex) 510 && length hex % 2 == 0)) _ (λ ok. record {
        result = λ p read.
            let (short, bytes) = (payload_loop-Gives hex).result p read in
            let size : length hex ≤ 510 = ground arith in
            let crc : crc_valid ≡ true = ground arith in (omega arith, (bytes, inr crc));
      }))
]

numerics-Gives :
    (limit : ℕ) (fields : List Bytes)
    → Gives (λ ns. length ns ≡ length fields) (numerics limit fields)
unfolding numerics
numerics-Gives limit [] = some-Gives [] refl
numerics-Gives limit (field ∷ fields) = bind-Gives (from_chars limit field) _ (λ n _.
    bind-Gives (numerics limit fields) _
      (λ ns r. some-Gives (n ∷ ns) (ap suc ((numerics-Gives limit fields).result ns r))))

module _ {F : Type 0} where
  -- A scan of the band with its 2000 samples; a packet of the band with its modem's settings.
  pub IsSafe : RakMessage F → Type 0
  IsSafe (scan s) =
      (in_band s.frequency_hz ≡ true) × ((length s.counts ≡ 33) × (sum s.counts ≡ 2000))
  IsSafe (packet p) =
      (in_band p.frequency_hz ≡ true)
      × (((p.bandwidth_hz ≡ 125000) ⊎ ((p.bandwidth_hz ≡ 250000) ⊎ (p.bandwidth_hz ≡ 500000)))
          × ((7 ≤ p.spreading_factor)
              × ((p.spreading_factor ≤ 12)
                  × ((5 ≤ p.coding_rate)
                      × ((p.coding_rate ≤ 8) × IsPayload p.crc_valid p.payload)))))
  IsSafe m = Unit

module _ {F : Type 0} (d : Doubles F) where
  parse_scan-Gives :
      (fields : List Bytes)
      → length fields ≡ 37
      → Gives (λ s. IsSafe (scan s)) (parse_scan d fields)
  unfolding parse_scan IsSafe
  parse_scan-Gives [] e = none-Gives
  parse_scan-Gives (_ ∷ []) e = none-Gives
  parse_scan-Gives (_ ∷ _ ∷ []) e = none-Gives
  parse_scan-Gives (_ ∷ _ ∷ _ ∷ []) e = none-Gives
  parse_scan-Gives (_ ∷ f1 ∷ f2 ∷ f3 ∷ rest) e = bind-Gives (from_chars (2 ^ 64 - 1) f1) _ (λ hz _.
      bind-Gives (numeric_double d f2) _ (λ start _. bind-Gives (numeric_double d f3) _ (λ end _.
        guard-Gives
          (in_band hz
            && (not (d.less start (d.value (pos 0)))
                && (not (d.less_equal end start)
                    && not (d.less (d.value (pos 5)) (d.minus end start)))))
          _
          (λ ok. bind-Gives (numerics (2 ^ 32 - 1) rest) _ (λ counts read.
            guard-Gives (sum counts == 2000) _ (λ total.
              let size = (numerics-Gives (2 ^ 32 - 1) rest).result counts read in
              some-Gives _ (ground arith, (omega arith, ground arith))))))))

  parse_packet-Gives :
      (fields : List Bytes) → Gives (λ p. IsSafe (packet p)) (parse_packet d fields)
  unfolding parse_packet IsSafe
  parse_packet-Gives [] = none-Gives
  parse_packet-Gives (_ ∷ []) = none-Gives
  parse_packet-Gives (_ ∷ _ ∷ []) = none-Gives
  parse_packet-Gives (_ ∷ _ ∷ _ ∷ []) = none-Gives
  parse_packet-Gives (_ ∷ _ ∷ _ ∷ _ ∷ []) = none-Gives
  parse_packet-Gives (_ ∷ _ ∷ _ ∷ _ ∷ _ ∷ []) = none-Gives
  parse_packet-Gives (_ ∷ _ ∷ _ ∷ _ ∷ _ ∷ _ ∷ []) = none-Gives
  parse_packet-Gives (_ ∷ _ ∷ _ ∷ _ ∷ _ ∷ _ ∷ _ ∷ []) = none-Gives
  parse_packet-Gives (_ ∷ _ ∷ _ ∷ _ ∷ _ ∷ _ ∷ _ ∷ _ ∷ []) = none-Gives
  parse_packet-Gives (_ ∷ _ ∷ _ ∷ _ ∷ _ ∷ _ ∷ _ ∷ _ ∷ _ ∷ []) = none-Gives
  parse_packet-Gives (_ ∷ f1 ∷ f2 ∷ f3 ∷ f4 ∷ f5 ∷ f6 ∷ f7 ∷ f8 ∷ f9 ∷ []) =
      bind-Gives (from_chars (2 ^ 64 - 1) f1) _ (λ hz _.
        bind-Gives (from_chars (2 ^ 32 - 1) f2) _ (λ bw _.
          bind-Gives (from_chars (2 ^ 32 - 1) f3) _ (λ sf _.
            bind-Gives (from_chars (2 ^ 32 - 1) f4) _ (λ cr _.
              bind-Gives (numeric_double d f5) _ (λ rssi _.
                bind-Gives (numeric_double d f6) _ (λ snr _.
                  bind-Gives (from_chars (2 ^ 32 - 1) f7) _ (λ crc _.
                    bind-Gives (from_chars (2 ^ 32 - 1) f8) _ (λ stamp _.
                      guard-Gives
                        (in_band hz
                          && (bw == 125000 || bw == 250000 || bw == 500000)
                          && (leb 7 sf && leb sf 12)
                          && (leb 5 cr && leb cr 8)
                          && leb crc 1)
                        _
                        (λ ok.
                          guard-Gives
                            (not (d.less rssi (d.value (negsuc 249)))
                              && not (d.less (d.value (pos 100)) rssi)
                              && not (d.less snr (d.value (negsuc 99)))
                              && not (d.less (d.value (pos 100)) snr))
                            _
                            (λ _. bind-Gives (parse_payload (crc == 1) f9) _ (λ payload read.
                              let held = (parse_payload-Gives (crc == 1) f9).result payload read in
                              some-Gives _ (
                                ground arith,
                                (
                                  ground arith,
                                  (
                                    ground arith,
                                    (ground arith, (ground arith, (ground arith, held))),
                                  ),
                                ),
                              ))))))))))))
  parse_packet-Gives (_ ∷ _ ∷ _ ∷ _ ∷ _ ∷ _ ∷ _ ∷ _ ∷ _ ∷ _ ∷ _ ∷ rest) = none-Gives

  parse_kind-Gives : (kind : Bytes) (fields : List Bytes) → Gives IsSafe (parse_kind d kind fields)
  unfolding parse_kind IsSafe
  parse_kind-Gives kind fields =
      if-Gives (equal kind (codes "READY") && length fields == 1) _ _ (λ _. some-Gives ready tt)
        (λ _.
          if-Gives (equal kind (codes "HEARTBEAT") && length fields == 1) _ _
            (λ _. some-Gives heartbeat tt)
            (λ _.
              if-Gives (equal kind (codes "END") && length fields == 1) _ _
                (λ _. some-Gives end_of_records tt)
                (λ _.
                  if-Gives (equal kind (codes "SCAN") && length fields == 37) _ _
                    (λ t. bind-Gives (parse_scan d fields) _ (λ s r.
                      some-Gives (scan s) ((parse_scan-Gives fields (ground arith)).result s r)))
                    (λ _.
                      if-Gives (equal kind (codes "PACKET") && length fields == 10) _ _
                        (λ _.
                          bind-Gives (parse_packet d fields) _
                            (λ p r. some-Gives (packet p) ((parse_packet-Gives fields).result p r)))
                        (λ _. none-Gives)))))

  as_parsed-IsSafe :
      (o : Option (RakMessage F)) (m : RakMessage F)
      → Gives IsSafe o
      → as_parsed d o ≡ parsed m
      → IsSafe m
  as_parsed-IsSafe none m g e = cc
  as_parsed-IsSafe (some n) m g e = subst IsSafe (let same : n ≡ m = cc in same) (g.result n refl)

  parse_fields-IsSafe :
      (fields : List Bytes) (m : RakMessage F) → parse_fields d fields ≡ parsed m → IsSafe m
  unfolding parse_fields
  parse_fields-IsSafe [] m e = cc
  parse_fields-IsSafe (kind ∷ fields) m e = elim (Bool-cases (equal kind (codes "ERROR"))) [
    | inl t ↦ let no : refused (reported (error_code (kind ∷ fields))) ≡ parsed m = rw t at e in cc
    | inr f ↦
        let more : as_parsed d (parse_kind d kind (kind ∷ fields)) ≡ parsed m = rw f at e in
        as_parsed-IsSafe (parse_kind d kind (kind ∷ fields)) m
          (parse_kind-Gives kind (kind ∷ fields)) more
  ]

  -- A scan that `parse_rak_message` accepts lies in the band and has 33 counts of 2000 samples in
  -- all; a packet lies in the band, has the settings of a modem and at most 255 bytes of payload,
  -- and none if the check of its frame failed.
  pub parse_rak_message-IsSafe :
      (line : Bytes) (m : RakMessage F) → parse_rak_message d line ≡ parsed m → IsSafe m
  unfolding parse_rak_message
  parse_rak_message-IsSafe line m e =
      elim (Bool-cases (length line == 0 || ltb 2048 (length line))) [
        | inl t ↦ let no : refused malformed ≡ parsed m = rw t at e in cc
        | inr f ↦ elim (Option-cases (split_fields (length line) 0 line)) [
          | inl n ↦ let no : refused malformed ≡ parsed m = rw (f, n) at e in cc
          | inr (fields, split) ↦
              let more : parse_fields d fields ≡ parsed m = rw (f, split) at e in
              parse_fields-IsSafe fields m more
        ]
      ]
