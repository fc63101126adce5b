-- ===== src/Devices.antt =====
-- The classification and the choice of serial devices: src/gps_discovery.cpp and
-- include/ovmesh/gps_discovery.hpp. The enumeration of the operating system's devices, which gives
-- the metadata, is not modelled. A `std::string` is the list of its bytes.
pub mod Select
pub mod Identity
use ovmesh_drpp.Base.{
  ℕ, zero, suc, ◌+◌, ◌%◌, ◌/◌, Bool, true, false, not, ◌&&◌, ◌||◌, List, [], ◌∷◌, ◌++◌, Option,
  none, some, Bytes, length, ltb, leb, ◌==◌, if◌then◌else◌, get_or, take, drop, codes, equal, ◌>>>◌,
  bit_and, map,
}
use ovmesh_drpp.TextField.{hex_char}

pub record GpsDevice : Type 0 where
  pub path : Bytes
  pub label : Bytes
  pub stable_id : Bytes
  pub automatic_candidate : Bool

pub record SerialDeviceMetadata : Type 0 where
  pub path : Bytes
  pub product : Bytes
  pub manufacturer : Bytes
  pub serial : Bytes
  pub location : Bytes
  pub vendor_id : ℕ
  pub product_id : ℕ

pub record ConcentratorDevice : Type 0 where
  pub path : Bytes
  pub label : Bytes
  pub stable_id : Bytes

abbrev pub maximum_metadata : ℕ
maximum_metadata = 256

abbrev pub maximum_path : ℕ
maximum_path = 1024

unfoldable pub has_byte : ℕ → Bytes → Bool
has_byte x [] = false
has_byte x (c ∷ s) = c == x || has_byte x s

unfoldable pub bounded_text : Bytes → (limit : ℕ) → Bool
bounded_text value limit = leb (length value) limit && not (has_byte 0 value)

pub label_text : Bytes → Bytes
label_text value = map (λ c. if leb 32 c && ltb c 127 then c else b'?') value

-- `hex_bytes`
pub hex_bytes : Bytes → Bytes
hex_bytes [] = []
hex_bytes (c ∷ value) = hex_char (c >>> 4) ∷ hex_char (bit_and c 15) ∷ hex_bytes value

-- The loop of `hex_id`, from the last digit on, in front of what was written.
unfoldable pub hex_id_loop : (left value : ℕ) → Bytes → Bytes
hex_id_loop zero value out = out
hex_id_loop (suc left) value out =
    hex_id_loop left (value >>> 4) (hex_char (bit_and value 15) ∷ out)

abbrev pub hex_id : ℕ → Bytes
hex_id value = hex_id_loop 4 value []

-- `starts_with`
abbrev pub starts_with : Bytes → Bytes → Bool
starts_with s prefix = equal (take (length prefix) s) prefix

-- `std::all_of`
unfoldable pub all_of : (ℕ → Bool) → Bytes → Bool
all_of test [] = true
all_of test (c ∷ s) = test c && all_of test s

abbrev pub digit_char : ℕ → Bool
digit_char c = leb b'0' c && leb c b'9'

abbrev pub path_char : ℕ → Bool
path_char c =
    (leb b'a' c && leb c b'z')
    || (leb b'A' c && leb c b'Z')
    || digit_char c
    || c == b'.'
    || c == b'_'
    || c == b'-'

unfoldable pub local_serial_path : Bytes → Bool
local_serial_path path =
    if not (bounded_text path maximum_path) || length path == 0
    then false
    else if starts_with path (codes "COM")
        && (leb (length path) 8 && (ltb 3 (length path) && not (get_or path 3 0 == b'0')))
    then all_of digit_char (drop 3 path)
    else if not (starts_with path (codes "/dev/")) || length path == 5
    then false
    else all_of path_char (drop 5 path)
      && (not (equal (drop 5 path) (codes ".")) && not (equal (drop 5 path) (codes "..")))

-- `usb` in `classify_gps_serial_device`
abbrev pub usb_identity : SerialDeviceMetadata → Bytes
usb_identity m = codes "usb:" ++ hex_id m.vendor_id ++ codes ":" ++ hex_id m.product_id

-- What stands behind it: the serial number, the location or the path.
unfoldable pub own_identity : SerialDeviceMetadata → Bytes
own_identity m =
    if not (length m.serial == 0)
    then codes ":serial:" ++ hex_bytes m.serial
    else if not (length m.location == 0)
    then codes ":location:" ++ hex_bytes m.location
    else codes ":port:" ++ hex_bytes m.path

unfoldable pub stable_identity : SerialDeviceMetadata → Bytes
stable_identity m = usb_identity m ++ own_identity m

pub device_label : SerialDeviceMetadata → Bytes
device_label m =
    let text = label_text (if length m.product == 0 then m.manufacturer else m.product) in
    let named = if length text == 0 then codes "USB serial device" else text in
    let numbered =
      named ++ codes " (" ++ hex_id m.vendor_id ++ codes ":" ++ hex_id m.product_id ++ codes ")" in
    if length m.serial == 0 then numbered ++ codes " [port-specific identity]" else numbered

abbrev pub metadata_refused : SerialDeviceMetadata → Bool
metadata_refused m =
    not (local_serial_path m.path)
    || not (bounded_text m.serial maximum_metadata)
    || not (bounded_text m.location maximum_path)
    || not (bounded_text m.product maximum_metadata)
    || not (bounded_text m.manufacturer maximum_metadata)
    || m.vendor_id == 0

pub classify_gps_serial_device : SerialDeviceMetadata → Option GpsDevice
classify_gps_serial_device m =
    if metadata_refused m
    then none
    else some (record {
      path = m.path;
      label = device_label m;
      stable_id = stable_identity m;
      automatic_candidate =
          m.vendor_id == 0x1546 && (leb 0x01a5 m.product_id && leb m.product_id 0x01a8);
    })

pub classify_concentrator_serial_device : SerialDeviceMetadata → Option ConcentratorDevice
classify_concentrator_serial_device m =
    if not (m.vendor_id == 0x0483) || not (m.product_id == 0x5740)
    then none
    else elim (classify_gps_serial_device m) [
      | none ↦ none
      | some serial ↦
          some (record { path = serial.path; label = serial.label; stable_id = serial.stable_id })
    ]

abbrev pub withdrawn : GpsDevice → GpsDevice
withdrawn d = record d { automatic_candidate = false }

-- `discover_gps_devices` behind the sort: an error withdraws every automatic candidate.
pub withdraw : (error : Bytes) → List GpsDevice → List GpsDevice
withdraw error devices = if length error == 0 then devices else map withdrawn devices

-- `matches` in `select_gps_device`
abbrev pub matches : (preferred_id : Bytes) → GpsDevice → Bool
matches preferred_id d =
    if length preferred_id == 0 then d.automatic_candidate else equal d.stable_id preferred_id

-- The first loop, from the index `i` on; the outer `none` is its `return std::nullopt`.
unfoldable pub select_loop :
    (preferred_id : Bytes) → (i : ℕ) → List GpsDevice → Option ℕ → Option (Option ℕ)
select_loop preferred_id i [] selected = some selected
select_loop preferred_id i (d ∷ devices) selected =
    let taken = select_loop preferred_id (i + 1) devices (some i) in
    let skipped = select_loop preferred_id (i + 1) devices selected in
    if not (matches preferred_id d) then skipped else elim selected [
      | some j ↦ none
      | none ↦ if length d.stable_id == 0 || not (local_serial_path d.path) then none else taken
    ]

-- The second loop: another device with the identity or the path of the chosen one.
unfoldable pub ambiguous : GpsDevice → (selected i : ℕ) → List GpsDevice → Bool
ambiguous chosen selected i [] = false
ambiguous chosen selected i (d ∷ devices) =
    (not (i == selected) && (equal d.stable_id chosen.stable_id || equal d.path chosen.path))
    || ambiguous chosen selected (i + 1) devices

abbrev pub no_device : GpsDevice
no_device = record { path = []; label = []; stable_id = []; automatic_candidate = false }

unfoldable pub select_gps_device : List GpsDevice → (preferred_id : Bytes) → Option ℕ
select_gps_device devices preferred_id = elim (select_loop preferred_id 0 devices none) [
  | none ↦ none
  | some none ↦ none
  | some (some selected) ↦
      if ambiguous (get_or devices selected no_device) selected 0 devices
      then none
      else some selected
]

abbrev pub as_serial : ConcentratorDevice → GpsDevice
as_serial d = record {
  path = d.path;
  label = d.label;
  stable_id = d.stable_id;
  automatic_candidate = false;
}

pub select_concentrator_device : List ConcentratorDevice → (preferred_id : Bytes) → Option ℕ
select_concentrator_device devices preferred_id =
    if length preferred_id == 0 || not (starts_with preferred_id (codes "usb:0483:5740:"))
    then none
    else select_gps_device (map as_serial devices) preferred_id

-- `discover_concentrator_devices` on the enumerated serial devices.
pub concentrator_candidates : List GpsDevice → List ConcentratorDevice
concentrator_candidates [] = []
concentrator_candidates (d ∷ devices) =
    let rest = concentrator_candidates devices in
    if starts_with d.stable_id (codes "usb:0483:5740:")
    then record { path = d.path; label = d.label; stable_id = d.stable_id } ∷ rest
    else rest
