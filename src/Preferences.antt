-- ===== src/Preferences.antt =====
-- The desktop settings: src/preferences.cpp and include/ovmesh/preferences.hpp. This file has their
-- types and `validate_preferences`; Preferences/Parse reads the settings file, Preferences/Serialize
-- writes it. A throw is false or `none`. Paths are those of a POSIX system.
pub mod Fields
pub mod Parse
pub mod Serialize
pub mod Values
pub mod Lines
pub mod Sections
pub mod BoardSections
pub mod Plain
pub mod RoundTrip
pub mod Size
pub mod Gives
pub mod Ranges
pub mod BoardRanges
pub mod Accepts
use ovmesh_drpp.Base.{
  ℕ, zero, suc, ◌+◌, ◌-◌, ◌*◌, ◌/◌, ◌%◌, Bool, true, false, not, ◌&&◌, ◌||◌, List, [], ◌∷◌, Option,
  none, some, Bytes, length, ltb, leb, ◌==◌, if◌then◌else◌, codes, equal, u32, u64, ℤ, pos, negsuc,
}
use ovmesh_drpp.TextField.{valid_text}
use ovmesh_drpp.Devices.{SerialDeviceMetadata, classify_concentrator_serial_device, starts_with}
use ovmesh_drpp.Concentrator.{
  ConcentratorBoardConfig, ConcentratorConfig, validate_concentrator_config,
}

pub data DesktopReceiver : Type 0 where
  synthetic hack_rf rtl_sdr rak5146 : DesktopReceiver

pub record DesktopPreferences : Type 0 where
  pub gps_enabled : Bool
  pub recording_enabled : Bool
  pub compact_recording : Bool
  pub discover_lora : Bool
  pub decode_enabled : Bool
  pub public_meshtastic_key_enabled : Bool
  pub spectrum_only : Bool
  pub receiver_source : DesktopReceiver
  pub center_hz : ℕ
  pub sample_rate : ℕ
  pub survey_span_hz : ℕ
  pub lna_gain : ℕ
  pub vga_gain : ℕ
  pub amplifier : Bool
  pub rtl_gain_tenths_db : ℤ
  pub rtl_auto_gain : Bool
  pub concentrators : ConcentratorConfig
  pub mixed_fonts : Bool
  pub mobile_position_display : Bool
  pub recording_directory : Bytes
  pub gps_device_id : Bytes
  pub gps_baud : ℕ
  pub tuning_offset_hz : ℤ

abbrev pub maximum_settings_size : ℕ
maximum_settings_size = 32768

abbrev pub maximum_path_size : ℕ
maximum_path_size = 4096

abbrev pub maximum_device_id_size : ℕ
maximum_device_id_size = 4096

-- The components of a path, from the one on whose first bytes are `name`, backwards.
unfoldable pub is_dots : Bytes → Bool
is_dots name = equal name (codes ".") || equal name (codes "..")

-- Whether a component of a path is one or two dots; `name` is the component so far.
unfoldable pub has_dots : (name : Bytes) → Bytes → Bool
has_dots name [] = is_dots name
has_dots name (c ∷ s) = if c == b'/' then is_dots name || has_dots [] s else has_dots (c ∷ name) s

-- `absolute_directory` does not throw. A path that starts with two slashes is refused, so that the
-- root, which is refused too, is one slash.
unfoldable pub absolute_directory : Bytes → Bool
absolute_directory value =
    valid_text value maximum_path_size
    && (starts_with value (codes "/") && not (starts_with value (codes "//")))
    && not (has_dots [] value)
    && not (equal value (codes "/"))

-- The sum of a frequency and an offset, which are far below the limits of `int64_t`.
abbrev pub below : ℕ → ℤ → (limit : ℕ) → Bool
below center (pos n) limit = ltb (center + n) limit
below center (negsuc n) limit = ltb center (limit + (n + 1))

abbrev pub above : ℕ → ℤ → (limit : ℕ) → Bool
above center (pos n) limit = ltb limit (center + n)
above center (negsuc n) limit = ltb (limit + (n + 1)) center

-- `value < -low || value > high`
abbrev pub outside : (low high : ℕ) → ℤ → Bool
outside low high (pos n) = ltb high n
outside low high (negsuc n) = ltb low (n + 1)

abbrev pub is_rtl : DesktopReceiver → Bool
is_rtl rtl_sdr = true
is_rtl _ = false

abbrev pub is_rak : DesktopReceiver → Bool
is_rak rak5146 = true
is_rak _ = false

unfoldable pub known_baud : ℕ → Bool
known_baud baud =
    baud == 4800
    || baud == 9600
    || baud == 19200
    || baud == 38400
    || baud == 57600
    || baud == 115200

-- The tests by receiver on frequency, rate and amplifier.
unfoldable pub receiver_accepted : DesktopPreferences → Bool
receiver_accepted p =
    if is_rtl p.receiver_source
    then not (
        ltb p.center_hz 24000000
        || ltb 1766000000 p.center_hz
        || below p.center_hz p.tuning_offset_hz 24000000
        || above p.center_hz p.tuning_offset_hz 1766000000)
      && ((p.sample_rate == 1000000 || p.sample_rate == 2000000) && not p.amplifier)
    else if is_rak p.receiver_source
    then true
    else p.sample_rate == 8000000
      || p.sample_rate == 10000000
      || p.sample_rate == 12000000
      || p.sample_rate == 16000000
      || p.sample_rate == 20000000

unfoldable pub span_accepted : DesktopPreferences → Bool
span_accepted p =
    (is_rak p.receiver_source
      || not (ltb p.survey_span_hz 500000 || ltb (u32 (p.sample_rate * 4) / 5) p.survey_span_hz))
    && not (
        ltb p.center_hz (p.survey_span_hz / 2)
        || ltb 6000000000 (u64 (p.center_hz + p.survey_span_hz / 2)))

unfoldable pub gains_accepted : DesktopPreferences → Bool
gains_accepted p =
    not (
      ltb 40 p.lna_gain
      || not (p.lna_gain % 8 == 0)
      || ltb 62 p.vga_gain
      || not (p.vga_gain % 2 == 0))
    && not (outside 100 600 p.rtl_gain_tenths_db)

-- A selected board's metadata.
abbrev pub board_metadata : ConcentratorBoardConfig → SerialDeviceMetadata
board_metadata b = record {
  path = b.device_path;
  product = [];
  manufacturer = [];
  serial = [];
  location = [];
  vendor_id = 0x0483;
  product_id = 0x5740;
}

unfoldable pub board_accepted : ConcentratorBoardConfig → Bool
board_accepted b =
    (valid_text b.device_path 1024 && valid_text b.device_id 2048)
    && (if length b.device_path == 0
        then length b.device_id == 0
        else not (length b.device_id == 0)
          && (starts_with b.device_id (codes "usb:0483:5740:")
              && elim (classify_concentrator_serial_device (board_metadata b)) [
                | none ↦ false
                | some _ ↦ true
              ]))

unfoldable pub boards_accepted : List ConcentratorBoardConfig → Bool
boards_accepted [] = true
boards_accepted (b ∷ bs) = board_accepted b && boards_accepted bs

-- The concentrators are validated with the preferred survey only where they receive it.
unfoldable pub concentrators_accepted : DesktopPreferences → Bool
concentrators_accepted p =
    let rak = is_rak p.receiver_source in
    elim (validate_concentrator_config p.concentrators (if rak then p.center_hz else 915000000)
      (if rak then p.survey_span_hz else 26000000) (if rak then p.tuning_offset_hz else pos 0)
      false) [ none ↦ true | some _ ↦ false ]

unfoldable pub validate_preferences : DesktopPreferences → Bool
validate_preferences p =
    absolute_directory p.recording_directory
    && valid_text p.gps_device_id maximum_device_id_size
    && known_baud p.gps_baud
    && not (outside 100000 100000 p.tuning_offset_hz)
    && not (ltb p.center_hz 1000000 || ltb 6000000000 p.center_hz)
    && not (
        below p.center_hz p.tuning_offset_hz 1000000
        || above p.center_hz p.tuning_offset_hz 6000000000)
    && receiver_accepted p
    && span_accepted p
    && gains_accepted p
    && boards_accepted p.concentrators.boards
    && concentrators_accepted p
