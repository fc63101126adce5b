-- ===== src/Preferences/Parse.antt =====
-- `parse` of src/preferences.cpp from the map of fields on: the test of the set of names, and the
-- settings by version. The versions, which are one character each, are compared by that character.
use Prim.Native.String.{String}
use ovmesh_drpp.Preferences.Fields.{
  Fields, at, contains, contains_all, read_fields, boolean, integer, signed_integer, text,
  baud_value, max_u32, max_u64,
}
use ovmesh_drpp.Base.{
  ℕ, zero, suc, ◌+◌, ◌-◌, ◌*◌, ◌^◌, Bool, true, false, not, ◌&&◌, ◌||◌, List, [], ◌∷◌, ◌++◌, Option,
  none, some, ◌>>=◌, ◌>>◌, guard, Bytes, length, ltb, leb, ◌==◌, if◌then◌else◌, codes, equal, pos,
}
use ovmesh_drpp.Decimal.{to_string}
use ovmesh_drpp.Concentrator.{ConcentratorBoardConfig}
use ovmesh_drpp.Preferences.{
  DesktopReceiver, synthetic, hack_rf, rtl_sdr, rak5146, DesktopPreferences, maximum_settings_size,
  maximum_path_size, maximum_device_id_size, validate_preferences,
}

-- `version`, as a number; `none` where it is unsupported.
unfoldable pub parse_version : Bytes → Option ℕ
parse_version (c ∷ []) = if leb b'1' c && leb c b'8' then some (c - b'0') else none
parse_version _ = none

-- The tests of the set of names for a version.
unfoldable pub names_accepted : (version : ℕ) → Fields → Bool
names_accepted version fields =
    let has : String → Bool = λ name. contains (codes name) fields in
    let size = length fields in
    if version == 1
    then size == 6
    else if version == 2
    then size == 7 && has "tuning_offset_hz"
    else if version == 3
    then size == 8 && (has "tuning_offset_hz" && has "discover_lora")
    else if version == 4
    then size == 9 && (has "tuning_offset_hz" && (has "discover_lora" && has "compact_recording"))
    else (leb 7 version || size == (if version == 6 then 22 else 20))
      && (contains_all
            (codes "tuning_offset_hz"
              ∷ codes "discover_lora"
              ∷ codes "compact_recording"
              ∷ codes "spectrum_only"
              ∷ codes "receiver_source"
              ∷ codes "center_hz"
              ∷ codes "sample_rate"
              ∷ codes "survey_span_hz"
              ∷ codes "lna_gain"
              ∷ codes "vga_gain"
              ∷ codes "amplifier"
              ∷ codes "mixed_fonts"
              ∷ codes "mobile_position_display"
              ∷ codes "decode_enabled"
              ∷ [])
            fields
          && (version == 5 || (has "rtl_gain_tenths_db" && has "rtl_auto_gain")))

-- The preferred receiver by its name.
unfoldable pub receiver_value : (version : ℕ) → Bytes → Option DesktopReceiver
receiver_value version source =
    if equal source (codes "synthetic")
    then some synthetic
    else if equal source (codes "hackrf")
    then some hack_rf
    else if leb 6 version && equal source (codes "rtl_sdr")
    then some rtl_sdr
    else if leb 7 version && equal source (codes "rak5146")
    then some rak5146
    else none

-- The fields of every version, on the default settings.
unfoldable pub parse_general :
    (version : ℕ) → Fields → DesktopPreferences → Option DesktopPreferences
parse_general version fields p = do
  gps_enabled ← boolean (codes "gps_enabled") fields
  recording_enabled ← boolean (codes "recording_enabled") fields
  discover_lora ←
      if leb 3 version then boolean (codes "discover_lora") fields else some p.discover_lora
  compact_recording ←
      if leb 4 version then boolean (codes "compact_recording") fields else some p.compact_recording
  recording_directory ← text maximum_path_size (codes "recording_directory") fields
  gps_device_id ← text maximum_device_id_size (codes "gps_device_id") fields
  gps_baud ← at (codes "gps_baud") fields >>= baud_value
  tuning_offset_hz ←
      if version == 1
      then some p.tuning_offset_hz
      else signed_integer (2 ^ 63 - 1) (codes "tuning_offset_hz") fields
  some (record p {
    gps_enabled = gps_enabled;
    recording_enabled = recording_enabled;
    discover_lora = discover_lora;
    compact_recording = compact_recording;
    recording_directory = recording_directory;
    gps_device_id = gps_device_id;
    gps_baud = gps_baud;
    tuning_offset_hz = tuning_offset_hz;
  })

-- `if (version >= "5")`
unfoldable pub parse_receiver :
    (version : ℕ) → Fields → DesktopPreferences → Option DesktopPreferences
parse_receiver version fields p = if ltb version 5 then some p else do
  receiver_source ← at (codes "receiver_source") fields >>= receiver_value version
  center_hz ← integer max_u64 (codes "center_hz") fields
  sample_rate ← integer max_u32 (codes "sample_rate") fields
  survey_span_hz ← integer max_u32 (codes "survey_span_hz") fields
  lna_gain ← integer max_u32 (codes "lna_gain") fields
  vga_gain ← integer max_u32 (codes "vga_gain") fields
  amplifier ← boolean (codes "amplifier") fields
  decode_enabled ← boolean (codes "decode_enabled") fields
  spectrum_only ← boolean (codes "spectrum_only") fields
  mixed_fonts ← boolean (codes "mixed_fonts") fields
  mobile_position_display ← boolean (codes "mobile_position_display") fields
  some (record p {
    receiver_source = receiver_source;
    center_hz = center_hz;
    sample_rate = sample_rate;
    survey_span_hz = survey_span_hz;
    lna_gain = lna_gain;
    vga_gain = vga_gain;
    amplifier = amplifier;
    decode_enabled = decode_enabled;
    spectrum_only = spectrum_only;
    mixed_fonts = mixed_fonts;
    mobile_position_display = mobile_position_display;
  })

-- `if (version >= "6")`
unfoldable pub parse_rtl : (version : ℕ) → Fields → DesktopPreferences → Option DesktopPreferences
parse_rtl version fields p = if ltb version 6 then some p else do
  rtl_gain_tenths_db ← signed_integer (2 ^ 31 - 1) (codes "rtl_gain_tenths_db") fields
  rtl_auto_gain ← boolean (codes "rtl_auto_gain") fields
  some (record p { rtl_gain_tenths_db = rtl_gain_tenths_db; rtl_auto_gain = rtl_auto_gain })

-- `"rak_" + std::to_string(i) + "_"` with a name behind it.
abbrev pub board_name : ℕ → Bytes → Bytes
board_name i name = codes "rak_" ++ to_string i ++ codes "_" ++ name

unfoldable pub parse_board : ℕ → Fields → Option ConcentratorBoardConfig
parse_board i fields = do
  device_path ← text 1024 (board_name i (codes "path")) fields
  device_id ← text 2048 (board_name i (codes "id")) fields
  packets_enabled ← boolean (board_name i (codes "packets")) fields
  frequency_hz ← integer max_u64 (board_name i (codes "frequency_hz")) fields
  bandwidth_hz ← integer max_u32 (board_name i (codes "bandwidth_hz")) fields
  spreading_factor ← integer max_u32 (board_name i (codes "sf")) fields
  sync_word ← integer max_u32 (board_name i (codes "sync_word")) fields
  some (record {
    device_path = device_path;
    device_id = device_id;
    packets_enabled = packets_enabled;
    frequency_hz = frequency_hz;
    bandwidth_hz = bandwidth_hz;
    spreading_factor = spreading_factor;
    sync_word = sync_word;
  })

-- The loop over the boards, with `left` boards to go from the index `i` on.
unfoldable pub parse_boards : (left i : ℕ) → Fields → Option (List ConcentratorBoardConfig)
parse_boards zero i fields = some []
parse_boards (suc left) i fields = do
  board ← parse_board i fields
  boards ← parse_boards left (i + 1) fields
  some (board ∷ boards)

-- `if (version >= "7")`
unfoldable pub parse_concentrators :
    (version : ℕ) → Fields → DesktopPreferences → Option DesktopPreferences
parse_concentrators version fields p = if ltb version 7 then some p else do
  count ← integer max_u32 (codes "rak_board_count") fields
  guard (
      not (ltb count 1 || ltb 2 count)
      && length fields == (if version == 8 then 28 else 27) + count * 7)
  scan_enabled ← boolean (codes "rak_scan_enabled") fields
  decode_enabled ← boolean (codes "rak_decode_enabled") fields
  scan_step_hz ← integer max_u32 (codes "rak_scan_step_hz") fields
  scan_samples ← integer max_u32 (codes "rak_scan_samples") fields
  boards ← parse_boards count 0 fields
  some (record p {
    concentrators = record {
      boards = boards;
      scan_enabled = scan_enabled;
      decode_enabled = decode_enabled;
      scan_step_hz = scan_step_hz;
      scan_samples = scan_samples;
    };
  })

-- `if (version == "8")`
unfoldable pub parse_public_key :
    (version : ℕ) → Fields → DesktopPreferences → Option DesktopPreferences
parse_public_key version fields p = if not (version == 8) then some p else do
  enabled ← boolean (codes "public_meshtastic_key_enabled") fields
  some (record p { public_meshtastic_key_enabled = enabled })

-- `DesktopPreferences result;`
abbrev pub default_preferences : DesktopPreferences
default_preferences = record {
  gps_enabled = true;
  recording_enabled = true;
  compact_recording = true;
  discover_lora = false;
  decode_enabled = false;
  public_meshtastic_key_enabled = false;
  spectrum_only = true;
  receiver_source = hack_rf;
  center_hz = 907500000;
  sample_rate = 16000000;
  survey_span_hz = 10000000;
  lna_gain = 16;
  vga_gain = 16;
  amplifier = false;
  rtl_gain_tenths_db = pos 280;
  rtl_auto_gain = false;
  concentrators = record {
    boards =
        record {
          device_path = [];
          device_id = [];
          packets_enabled = false;
          frequency_hz = 906875000;
          bandwidth_hz = 250000;
          spreading_factor = 11;
          sync_word = 0x2b;
        }
        ∷ [];
    scan_enabled = true;
    decode_enabled = false;
    scan_step_hz = 200000;
    scan_samples = 2000;
  };
  mixed_fonts = true;
  mobile_position_display = false;
  recording_directory = [];
  gps_device_id = [];
  gps_baud = 9600;
  tuning_offset_hz = pos 0;
}

-- `parse` from the map of fields on.
unfoldable pub parse_values : Fields → Option DesktopPreferences
parse_values fields = do
  guard (
      contains_all
        (codes "version"
          ∷ codes "gps_enabled"
          ∷ codes "recording_enabled"
          ∷ codes "recording_directory"
          ∷ codes "gps_device_id"
          ∷ codes "gps_baud"
          ∷ [])
        fields)
  version ← at (codes "version") fields >>= parse_version
  guard (names_accepted version fields)
  general ← parse_general version fields default_preferences
  receiver ← parse_receiver version fields general
  rtl ← parse_rtl version fields receiver
  concentrators ← parse_concentrators version fields rtl
  result ← parse_public_key version fields concentrators
  guard (validate_preferences result)
  some result

unfoldable pub last_byte : Bytes → ℕ
last_byte [] = 0
last_byte (c ∷ []) = c
last_byte (c ∷ d ∷ s) = last_byte (d ∷ s)

unfoldable pub parse : Bytes → Option DesktopPreferences
parse input = do
  guard (
      not (
        length input == 0
        || ltb maximum_settings_size (length input)
        || not (last_byte input == 10)))
  fields ← read_fields (length input) [] input
  parse_values fields
