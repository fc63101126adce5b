-- ===== src/Preferences/Serialize.antt =====
-- `serialize` of src/preferences.cpp.
use ovmesh_drpp.Base.{
  ℕ, ◌+◌, Bool, not, List, [], ◌∷◌, ◌++◌, Option, some, ◌>>◌, guard, Bytes, length, ltb,
  if◌then◌else◌, codes,
}
use ovmesh_drpp.TextField.{hex_encode}
use ovmesh_drpp.Decimal.{to_string, signed_to_string}
use ovmesh_drpp.Concentrator.{ConcentratorBoardConfig}
use ovmesh_drpp.Preferences.{
  DesktopReceiver, synthetic, hack_rf, rtl_sdr, rak5146, DesktopPreferences, maximum_settings_size,
  validate_preferences,
}
use ovmesh_drpp.Preferences.Fields.{Fields}
use ovmesh_drpp.Preferences.Parse.{board_name}

abbrev pub switch : Bool → Bytes
switch b = if b then codes "1" else codes "0"

abbrev pub receiver_name : DesktopReceiver → Bytes
receiver_name hack_rf = codes "hackrf"
receiver_name rtl_sdr = codes "rtl_sdr"
receiver_name rak5146 = codes "rak5146"
receiver_name synthetic = codes "synthetic"

-- The lines of a board, in front of what follows.
abbrev pub board_settings : ℕ → ConcentratorBoardConfig → Fields → Fields
board_settings i board rest =
    (board_name i (codes "path"), hex_encode board.device_path)
    ∷ (board_name i (codes "id"), hex_encode board.device_id)
    ∷ (board_name i (codes "packets"), switch board.packets_enabled)
    ∷ (board_name i (codes "frequency_hz"), to_string board.frequency_hz)
    ∷ (board_name i (codes "bandwidth_hz"), to_string board.bandwidth_hz)
    ∷ (board_name i (codes "sf"), to_string board.spreading_factor)
    ∷ (board_name i (codes "sync_word"), to_string board.sync_word)
    ∷ rest

-- The loop over the boards, from the index `i` on.
abbrev pub boards_settings : (i : ℕ) → List ConcentratorBoardConfig → Fields
boards_settings i [] = []
boards_settings i (board ∷ boards) = board_settings i board (boards_settings (i + 1) boards)

-- The names and values of all lines, in their order.
abbrev pub settings : DesktopPreferences → Fields
settings p =
    (codes "version", codes "8")
    ∷ (codes "gps_enabled", switch p.gps_enabled)
    ∷ (codes "recording_enabled", switch p.recording_enabled)
    ∷ (codes "recording_directory", hex_encode p.recording_directory)
    ∷ (codes "gps_device_id", hex_encode p.gps_device_id)
    ∷ (codes "gps_baud", to_string p.gps_baud)
    ∷ (codes "tuning_offset_hz", signed_to_string p.tuning_offset_hz)
    ∷ (codes "discover_lora", switch p.discover_lora)
    ∷ (codes "compact_recording", switch p.compact_recording)
    ∷ (codes "decode_enabled", switch p.decode_enabled)
    ∷ (codes "public_meshtastic_key_enabled", switch p.public_meshtastic_key_enabled)
    ∷ (codes "spectrum_only", switch p.spectrum_only)
    ∷ (codes "receiver_source", receiver_name p.receiver_source)
    ∷ (codes "center_hz", to_string p.center_hz)
    ∷ (codes "sample_rate", to_string p.sample_rate)
    ∷ (codes "survey_span_hz", to_string p.survey_span_hz)
    ∷ (codes "lna_gain", to_string p.lna_gain)
    ∷ (codes "vga_gain", to_string p.vga_gain)
    ∷ (codes "amplifier", switch p.amplifier)
    ∷ (codes "mixed_fonts", switch p.mixed_fonts)
    ∷ (codes "mobile_position_display", switch p.mobile_position_display)
    ∷ (codes "rtl_gain_tenths_db", signed_to_string p.rtl_gain_tenths_db)
    ∷ (codes "rtl_auto_gain", switch p.rtl_auto_gain)
    ∷ (codes "rak_board_count", to_string (length p.concentrators.boards))
    ∷ (codes "rak_scan_enabled", switch p.concentrators.scan_enabled)
    ∷ (codes "rak_decode_enabled", switch p.concentrators.decode_enabled)
    ∷ (codes "rak_scan_step_hz", to_string p.concentrators.scan_step_hz)
    ∷ (codes "rak_scan_samples", to_string p.concentrators.scan_samples)
    ∷ boards_settings 0 p.concentrators.boards

-- The lines themselves: `name=value` and a line feed.
unfoldable pub write_lines : Fields → Bytes
write_lines [] = []
write_lines ((name, value) ∷ fields) = (name ++ b'=' ∷ (value ++ 10 ∷ [])) ++ write_lines fields

unfoldable pub serialize : DesktopPreferences → Option Bytes
serialize p = do
  guard (validate_preferences p)
  let result = write_lines (settings p)
  guard (not (ltb maximum_settings_size (length result)))
  some result
