-- ===== src/Rak.antt =====
-- The records of the concentrator worker: `parse_rak_message` of src/rak_process.cpp, with the types
-- of src/rak_process.hpp and include/ovmesh/concentrator.hpp. Floating-point numbers are values of a
-- type `F` with the operations that the parser uses.
pub mod Fields
pub mod Safe
pub mod Poll
use ovmesh_drpp.Base.{
  ℕ, zero, suc, ◌+◌, ◌-◌, ◌*◌, ◌%◌, ◌^◌, Bool, true, false, not, ◌&&◌, ◌||◌, List, [], ◌∷◌, Option,
  none, some, ◌>>=◌, ◌>>◌, guard, Bytes, length, ltb, leb, ◌==◌, if◌then◌else◌, codes, equal, ℤ,
  pos, negsuc,
}
use ovmesh_drpp.Floats.{Doubles}
use ovmesh_drpp.Decimal.{from_chars}
use ovmesh_drpp.TextField.{lower_hex_digit}
use ovmesh_drpp.Preferences.Fields.{break_at}

pub record Scan (F : Type 0) : Type 0 where
  pub frequency_hz : ℕ
  pub monotonic_start : F
  pub monotonic_end : F
  pub counts : List ℕ

pub record Packet (F : Type 0) : Type 0 where
  pub frequency_hz : ℕ
  pub bandwidth_hz : ℕ
  pub spreading_factor : ℕ
  pub coding_rate : ℕ
  pub rssi_dbm : F
  pub snr_db : F
  pub crc_valid : Bool
  pub hardware_timestamp_us : ℕ
  pub payload : Bytes

-- A message of each kind, with the fields that the parser sets for it.
pub data RakMessage (F : Type 0) : Type 0 where
  ready heartbeat end_of_records : RakMessage F
  scan : Scan F → RakMessage F
  packet : Packet F → RakMessage F

-- The exceptions: `malformed`, and a failure that the worker reports, with its code if it is known.
pub data Refusal : Type 0 where
  malformed : Refusal
  reported : Option Bytes → Refusal

pub data Parsed (F : Type 0) : Type 0 where
  parsed : RakMessage F → Parsed F
  refused : Refusal → Parsed F

-- The loop over the fields of a line, which are parted by one space each; `n` fields stand before.
-- Every round takes a byte at least.
unfoldable pub split_fields : (fuel n : ℕ) → Bytes → Option (List Bytes)
split_fields zero n line = none
split_fields (suc fuel) n line = do
  guard (not (n == 48))
  elim (break_at b' ' line) [
    | none ↦ guard (not (length line == 0)) >> some (line ∷ [])
    | some (field, rest) ↦
        guard (not (length field == 0) && not (length rest == 0))
        >> (split_fields fuel (n + 1) rest >>= λ fields. some (field ∷ fields))
  ]

-- `std::accumulate`
pub sum : List ℕ → ℕ
sum [] = 0
sum (n ∷ ns) = n + sum ns

abbrev pub concentrator_sample_count : List ℕ → ℕ
concentrator_sample_count counts = sum counts

pub numerics : (limit : ℕ) → List Bytes → Option (List ℕ)
numerics limit [] = some []
numerics limit (field ∷ fields) = do
  n ← from_chars limit field
  ns ← numerics limit fields
  some (n ∷ ns)

-- The loop over the hexadecimal digits of a payload, whose number is even there.
unfoldable pub payload_loop : Bytes → Option Bytes
payload_loop (a ∷ b ∷ hex) = do
  high ← lower_hex_digit a
  low ← lower_hex_digit b
  rest ← payload_loop hex
  some ((high * 16 + low) ∷ rest)
payload_loop _ = some []

unfoldable pub parse_payload : (crc_valid : Bool) → Bytes → Option Bytes
parse_payload crc_valid hex =
    if equal hex (codes "-")
    then some []
    else do guard (crc_valid && (leb (length hex) 510 && length hex % 2 == 0)); payload_loop hex

-- The codes that are reported as they are.
abbrev pub known_codes : List Bytes
known_codes =
    codes "operation-timeout"
    ∷ codes "receive-timeout"
    ∷ codes "scan-timeout"
    ∷ codes "initialization-timeout"
    ∷ codes "invalid-arguments"
    ∷ codes "device-unavailable"
    ∷ codes "initialization-failed"
    ∷ codes "receive-failed"
    ∷ codes "usb-ack-header-timeout"
    ∷ codes "usb-ack-body-timeout"
    ∷ codes "usb-request-timeout"
    ∷ codes "scan-start-failed"
    ∷ codes "scan-tune-failed"
    ∷ codes "scan-command-failed"
    ∷ codes "scan-status-failed"
    ∷ codes "scan-read-failed"
    ∷ codes "scan-count-mismatch"
    ∷ codes "scan-incomplete"
    ∷ codes "record-overflow"
    ∷ codes "scanner-close-failed"
    ∷ codes "receiver-close-failed"
    ∷ codes "device-close-failed"
    ∷ []

pub find_code : Bytes → List Bytes → Option Bytes
find_code field [] = none
find_code field (code ∷ known) =
    let later = find_code field known in if equal field code then some code else later

pub error_code : List Bytes → Option Bytes
error_code (_ ∷ field ∷ []) = find_code field known_codes
error_code _ = none

abbrev pub in_band : ℕ → Bool
in_band hz = leb 902000000 hz && leb hz 928000000

module _ {F : Type 0} (d : Doubles F) where
  -- `numeric<double>`
  unfoldable pub numeric_double : Bytes → Option F
  numeric_double s = if ltb 40 (length s) then none else d.stream s

  pub parse_scan : List Bytes → Option (Scan F)
  parse_scan (_ ∷ f1 ∷ f2 ∷ f3 ∷ rest) = do
    frequency_hz ← from_chars (2 ^ 64 - 1) f1
    start ← numeric_double f2
    end ← numeric_double f3
    guard (
        in_band frequency_hz
        && (not (d.less start (d.value (pos 0)))
            && (not (d.less_equal end start)
                && not (d.less (d.value (pos 5)) (d.minus end start)))))
    counts ← numerics (2 ^ 32 - 1) rest
    guard (concentrator_sample_count counts == 2000)
    some (record {
      frequency_hz = frequency_hz;
      monotonic_start = start;
      monotonic_end = end;
      counts = counts;
    })
  parse_scan _ = none

  unfoldable pub parse_packet : List Bytes → Option (Packet F)
  parse_packet (_ ∷ f1 ∷ f2 ∷ f3 ∷ f4 ∷ f5 ∷ f6 ∷ f7 ∷ f8 ∷ f9 ∷ []) = do
    frequency_hz ← from_chars (2 ^ 64 - 1) f1
    bandwidth_hz ← from_chars (2 ^ 32 - 1) f2
    spreading_factor ← from_chars (2 ^ 32 - 1) f3
    coding_rate ← from_chars (2 ^ 32 - 1) f4
    rssi_dbm ← numeric_double f5
    snr_db ← numeric_double f6
    crc ← from_chars (2 ^ 32 - 1) f7
    hardware_timestamp_us ← from_chars (2 ^ 32 - 1) f8
    guard (
        in_band frequency_hz
        && (bandwidth_hz == 125000 || bandwidth_hz == 250000 || bandwidth_hz == 500000)
        && (leb 7 spreading_factor && leb spreading_factor 12)
        && (leb 5 coding_rate && leb coding_rate 8)
        && leb crc 1)
    guard (
        not (d.less rssi_dbm (d.value (negsuc 249)))
        && not (d.less (d.value (pos 100)) rssi_dbm)
        && not (d.less snr_db (d.value (negsuc 99)))
        && not (d.less (d.value (pos 100)) snr_db))
    payload ← parse_payload (crc == 1) f9
    some (record {
      frequency_hz = frequency_hz;
      bandwidth_hz = bandwidth_hz;
      spreading_factor = spreading_factor;
      coding_rate = coding_rate;
      rssi_dbm = rssi_dbm;
      snr_db = snr_db;
      crc_valid = crc == 1;
      hardware_timestamp_us = hardware_timestamp_us;
      payload = payload;
    })
  parse_packet _ = none

  -- A record by its first field; `none` is `malformed`.
  unfoldable pub parse_kind : (kind : Bytes) (fields : List Bytes) → Option (RakMessage F)
  parse_kind kind fields =
      let alone = length fields == 1 in
      if equal kind (codes "READY") && alone
      then some ready
      else if equal kind (codes "HEARTBEAT") && alone
      then some heartbeat
      else if equal kind (codes "END") && alone
      then some end_of_records
      else if equal kind (codes "SCAN") && length fields == 37
      then (parse_scan fields >>= λ s. some (scan s))
      else if equal kind (codes "PACKET") && length fields == 10
      then (parse_packet fields >>= λ p. some (packet p))
      else none

  abbrev pub as_parsed : Option (RakMessage F) → Parsed F
  as_parsed o = elim o [ none ↦ refused malformed | some m ↦ parsed m ]

  unfoldable pub parse_fields : List Bytes → Parsed F
  parse_fields [] = refused malformed
  parse_fields (kind ∷ fields) =
      if equal kind (codes "ERROR")
      then refused (reported (error_code (kind ∷ fields)))
      else as_parsed (parse_kind kind (kind ∷ fields))

  unfoldable pub parse_rak_message : Bytes → Parsed F
  parse_rak_message line =
      if length line == 0 || ltb 2048 (length line)
      then refused malformed
      else elim (split_fields (length line) 0 line) [
        | none ↦ refused malformed
        | some fields ↦ parse_fields fields
      ]
