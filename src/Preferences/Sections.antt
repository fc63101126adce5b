-- ===== src/Preferences/Sections.antt =====
-- Each part of `parse` of src/preferences.cpp reads from the written settings what it was given.
use ovmesh_drpp.Base.{◌-◌, ◌^◌, ◌≤◌, true, some, IsBytes, All, equal, ◌≡◌, refl, arith}
use ovmesh_drpp.TextField.{valid_text}
use ovmesh_drpp.TextField.HexCodec.{hex_decode-hex_encode}
use ovmesh_drpp.Decimal.RoundTrip.{Holds}
use ovmesh_drpp.Concentrator.{ConcentratorBoardConfig}
use ovmesh_drpp.Preferences.{
  DesktopPreferences, known_baud, maximum_path_size, maximum_device_id_size,
}
use ovmesh_drpp.Preferences.Fields.{at, max_u32, max_u64}
use ovmesh_drpp.Preferences.Parse.{parse_general, parse_receiver, parse_rtl, parse_public_key}
use ovmesh_drpp.Preferences.Serialize.{settings}
use ovmesh_drpp.Preferences.Values.{
  boolean_value-switch, receiver_value-receiver_name, integer_value-to_string,
  signed_integer_value-signed_to_string, baud_value-to_string,
}

-- The fields of a board are values of their types.
pub record BoardInRange (b : ConcentratorBoardConfig) : Type 0 where
  pub device_path : IsBytes b.device_path
  pub device_id : IsBytes b.device_id
  pub frequency_hz : b.frequency_hz ≤ max_u64
  pub bandwidth_hz : b.bandwidth_hz ≤ max_u32
  pub spreading_factor : b.spreading_factor ≤ max_u32
  pub sync_word : b.sync_word ≤ max_u32

-- So are those of the settings.
pub record InRange (p : DesktopPreferences) : Type 0 where
  pub recording_directory : IsBytes p.recording_directory
  pub gps_device_id : IsBytes p.gps_device_id
  pub center_hz : p.center_hz ≤ max_u64
  pub sample_rate : p.sample_rate ≤ max_u32
  pub survey_span_hz : p.survey_span_hz ≤ max_u32
  pub lna_gain : p.lna_gain ≤ max_u32
  pub vga_gain : p.vga_gain ≤ max_u32
  pub tuning_offset_hz : Holds (2 ^ 63 - 1) p.tuning_offset_hz
  pub rtl_gain_tenths_db : Holds (2 ^ 31 - 1) p.rtl_gain_tenths_db
  pub scan_step_hz : p.concentrators.scan_step_hz ≤ max_u32
  pub scan_samples : p.concentrators.scan_samples ≤ max_u32
  pub boards : All BoardInRange p.concentrators.boards

-- The settings of `q` with those of `p` that a part reads.
abbrev pub with_general : DesktopPreferences → DesktopPreferences → DesktopPreferences
with_general p q = record q {
  gps_enabled = p.gps_enabled;
  recording_enabled = p.recording_enabled;
  discover_lora = p.discover_lora;
  compact_recording = p.compact_recording;
  recording_directory = p.recording_directory;
  gps_device_id = p.gps_device_id;
  gps_baud = p.gps_baud;
  tuning_offset_hz = p.tuning_offset_hz;
}

abbrev pub with_receiver : DesktopPreferences → DesktopPreferences → DesktopPreferences
with_receiver p q = record q {
  receiver_source = p.receiver_source;
  center_hz = p.center_hz;
  sample_rate = p.sample_rate;
  survey_span_hz = p.survey_span_hz;
  lna_gain = p.lna_gain;
  vga_gain = p.vga_gain;
  amplifier = p.amplifier;
  decode_enabled = p.decode_enabled;
  spectrum_only = p.spectrum_only;
  mixed_fonts = p.mixed_fonts;
  mobile_position_display = p.mobile_position_display;
}

abbrev pub with_rtl : DesktopPreferences → DesktopPreferences → DesktopPreferences
with_rtl p q = record q {
  rtl_gain_tenths_db = p.rtl_gain_tenths_db;
  rtl_auto_gain = p.rtl_auto_gain;
}

abbrev pub with_concentrators : DesktopPreferences → DesktopPreferences → DesktopPreferences
with_concentrators p q = record q { concentrators = p.concentrators }

abbrev pub with_public_key : DesktopPreferences → DesktopPreferences → DesktopPreferences
with_public_key p q = record q { public_meshtastic_key_enabled = p.public_meshtastic_key_enabled }

module _ (p q : DesktopPreferences) (range : InRange p) where
  pub parse_general-settings :
      valid_text p.recording_directory maximum_path_size ≡ true
      → valid_text p.gps_device_id maximum_device_id_size ≡ true
      → known_baud p.gps_baud ≡ true
      → parse_general 8 (settings p) q ≡ some (with_general p q)
  unfolding parse_general at equal
  parse_general-settings directory device baud =
      rw
        (
          boolean_value-switch p.gps_enabled,
          boolean_value-switch p.recording_enabled,
          boolean_value-switch p.discover_lora,
          boolean_value-switch p.compact_recording,
          hex_decode-hex_encode p.recording_directory maximum_path_size range.recording_directory
              directory,
          hex_decode-hex_encode p.gps_device_id maximum_device_id_size range.gps_device_id device,
          baud_value-to_string p.gps_baud baud,
          signed_integer_value-signed_to_string (2 ^ 63 - 1) p.tuning_offset_hz (omega arith)
              range.tuning_offset_hz,
        )
        refl

  pub parse_receiver-settings : parse_receiver 8 (settings p) q ≡ some (with_receiver p q)
  unfolding parse_receiver at equal
  parse_receiver-settings =
      rw
        (
          receiver_value-receiver_name p.receiver_source,
          integer_value-to_string max_u64 p.center_hz (omega arith) range.center_hz,
          integer_value-to_string max_u32 p.sample_rate (omega arith) range.sample_rate,
          integer_value-to_string max_u32 p.survey_span_hz (omega arith) range.survey_span_hz,
          integer_value-to_string max_u32 p.lna_gain (omega arith) range.lna_gain,
          integer_value-to_string max_u32 p.vga_gain (omega arith) range.vga_gain,
          boolean_value-switch p.amplifier,
          boolean_value-switch p.decode_enabled,
          boolean_value-switch p.spectrum_only,
          boolean_value-switch p.mixed_fonts,
          boolean_value-switch p.mobile_position_display,
        )
        refl

  pub parse_rtl-settings : parse_rtl 8 (settings p) q ≡ some (with_rtl p q)
  unfolding parse_rtl at equal
  parse_rtl-settings =
      rw
        (
          signed_integer_value-signed_to_string (2 ^ 31 - 1) p.rtl_gain_tenths_db (omega arith)
              range.rtl_gain_tenths_db,
          boolean_value-switch p.rtl_auto_gain,
        )
        refl

  pub parse_public_key-settings : parse_public_key 8 (settings p) q ≡ some (with_public_key p q)
  unfolding parse_public_key at equal
  parse_public_key-settings = rw (boolean_value-switch p.public_meshtastic_key_enabled) refl
