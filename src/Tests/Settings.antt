-- ===== src/Tests/Settings.antt =====
-- Runs of the modelled settings and device code, and the instances of its theorems.
use ovmesh_drpp.Base.{
  IsBytes, ltb, ltb→lt, true, false, List, [], ◌∷◌, some, ◌≡◌, ◌↔◌, refl, Bytes, codes, equal,
  arith, pos,
}
use ovmesh_drpp.TextField.{
  valid_text, valid_loop, hex_encode, hex_decode, decode_loop, lower_hex_digit,
}
use ovmesh_drpp.TextField.HexCodec.{hex_decode-hex_encode}
use ovmesh_drpp.Devices.{
  GpsDevice, SerialDeviceMetadata, own_identity, stable_identity, select_gps_device, select_loop,
  ambiguous, local_serial_path, bounded_text, has_byte, all_of,
}
use ovmesh_drpp.Devices.Select.{Chosen, select_gps_device_iff}
use ovmesh_drpp.Devices.Identity.{stable_identity_injective}
use ovmesh_drpp.Concentrator.{
  validate_concentrator_config, all_boards, board_error, boards_loop, modem_error,
}
use ovmesh_drpp.Preferences.{
  DesktopPreferences, is_dots, has_dots, absolute_directory, known_baud, receiver_accepted,
  span_accepted, gains_accepted, board_accepted, boards_accepted, concentrators_accepted,
  validate_preferences,
}
use ovmesh_drpp.Preferences.Fields.{
  Fields, at, read_fields, read_field, break_at, contains_all, boolean_value, baud_value, baud_loop,
}
use ovmesh_drpp.Preferences.Parse.{
  parse, default_preferences, parse_values, parse_version, names_accepted, parse_general,
  parse_receiver, parse_rtl, parse_concentrators, parse_public_key, last_byte,
}
use ovmesh_drpp.Preferences.Serialize.{settings, write_lines, serialize}
use ovmesh_drpp.Preferences.Lines.{
  both, are_names, is_name, without, are_names-IsLine, fresh, read_fields-write_lines,
}
use ovmesh_drpp.Preferences.Sections.{InRange}
use ovmesh_drpp.Preferences.RoundTrip.{parse-serialize}
use ovmesh_drpp.Preferences.Size.{serialize_valid}
use ovmesh_drpp.Preferences.Accepts.{parse-serialize-parse}

bytes-IsBytes : (s : Bytes) → all_of (λ c. ltb c 256) s ≡ true → IsBytes s
unfolding all_of
bytes-IsBytes [] h = tt
bytes-IsBytes (c ∷ s) h =
    let (first, others) = both (ltb c 256) (all_of (λ d. ltb d 256) s) h in
    (ltb→lt c 256 first, bytes-IsBytes s others)

hex_decode-hex_encode_example : hex_decode (hex_encode (codes "/tmp")) 16 ≡ some (codes "/tmp")
unfolding valid_text valid_loop all_of
hex_decode-hex_encode_example =
    hex_decode-hex_encode (codes "/tmp") 16 (bytes-IsBytes (codes "/tmp") refl) refl

abbrev receiver : SerialDeviceMetadata
receiver = record {
  path = codes "/dev/ttyACM0";
  product = codes "u-blox 8";
  manufacturer = [];
  serial = codes "A7";
  location = [];
  vendor_id = 0x1546;
  product_id = 0x01a8;
}

abbrev moved_receiver : SerialDeviceMetadata
moved_receiver = record receiver { path = codes "/dev/ttyACM1"; location = codes "1-2" }

same_identity : stable_identity receiver ≡ stable_identity moved_receiver
unfolding stable_identity own_identity
same_identity = refl

stable_identity_injective_example :
    (receiver.vendor_id ≡ moved_receiver.vendor_id)
    × (receiver.product_id ≡ moved_receiver.product_id)
    × (receiver.serial ≡ moved_receiver.serial)
unfolding all_of
stable_identity_injective_example =
    stable_identity_injective receiver moved_receiver (bytes-IsBytes (codes "A7") refl)
      (bytes-IsBytes (codes "A7") refl) (omega arith) (omega arith) (omega arith) (omega arith) refl
      same_identity

abbrev two_receivers : List GpsDevice
two_receivers =
    record {
      path = codes "/dev/ttyUSB0";
      label = [];
      stable_id = codes "usb:1";
      automatic_candidate = false;
    }
    ∷ record {
      path = codes "/dev/ttyACM0";
      label = [];
      stable_id = codes "usb:2";
      automatic_candidate = true;
    }
    ∷ []

select_two_receivers : select_gps_device two_receivers [] ≡ some 1
unfolding select_gps_device select_loop ambiguous local_serial_path bounded_text has_byte all_of
    equal
select_two_receivers = refl

select_gps_device_iff_example :
    (select_gps_device two_receivers [] ≡ some 1) ↔ Chosen [] two_receivers 1
select_gps_device_iff_example = select_gps_device_iff two_receivers [] 1

abbrev two_fields : Fields
two_fields = (codes "version", codes "8") ∷ (codes "gps", []) ∷ []

read_fields-write_lines_example : read_fields 20 [] (write_lines two_fields) ≡ some two_fields
unfolding fresh at equal write_lines are_names is_name without
read_fields-write_lines_example =
    read_fields-write_lines 20 [] two_fields
      (are_names-IsLine two_fields refl ((refl, tt), (tt, tt))) refl (omega arith) (omega arith)

abbrev some_settings : DesktopPreferences
some_settings = record default_preferences {
  recording_directory = codes "/data/survey";
  tuning_offset_hz = pos 250;
}

some_settings_valid : validate_preferences some_settings ≡ true
unfolding validate_preferences absolute_directory valid_text valid_loop has_dots is_dots known_baud
    receiver_accepted span_accepted gains_accepted board_accepted boards_accepted
    concentrators_accepted validate_concentrator_config all_boards board_error boards_loop
    modem_error equal
some_settings_valid = refl

serialize_valid_example : serialize some_settings ≡ some (write_lines (settings some_settings))
serialize_valid_example = serialize_valid some_settings some_settings_valid

some_settings-InRange : InRange some_settings
unfolding all_of
some_settings-InRange = record {
  recording_directory = bytes-IsBytes (codes "/data/survey") refl;
  gps_device_id = tt;
  center_hz = omega arith;
  sample_rate = omega arith;
  survey_span_hz = omega arith;
  lna_gain = omega arith;
  vga_gain = omega arith;
  tuning_offset_hz = omega arith;
  rtl_gain_tenths_db = omega arith;
  scan_step_hz = omega arith;
  scan_samples = omega arith;
  boards = (
    record {
      device_path = tt;
      device_id = tt;
      frequency_hz = omega arith;
      bandwidth_hz = omega arith;
      spreading_factor = omega arith;
      sync_word = omega arith;
    },
    tt,
  );
}

parse-serialize_example : parse (write_lines (settings some_settings)) ≡ some some_settings
parse-serialize_example =
    parse-serialize some_settings _ some_settings-InRange serialize_valid_example

-- The settings of the first version.
abbrev old_text : Bytes
old_text =
    codes
      "version=1\ngps_enabled=0\nrecording_enabled=1\nrecording_directory=2f64\ngps_device_id=\ngps_baud=4800\n"

abbrev old_settings : DesktopPreferences
old_settings = record default_preferences {
  gps_enabled = false;
  recording_directory = codes "/d";
  gps_baud = 4800;
}

old_text_read : parse old_text ≡ some old_settings
unfolding parse parse_values read_fields read_field break_at contains_all at equal parse_version
    names_accepted parse_general parse_receiver parse_rtl parse_concentrators parse_public_key
    boolean_value hex_decode decode_loop valid_text valid_loop baud_value baud_loop
    validate_preferences last_byte absolute_directory known_baud receiver_accepted span_accepted
    gains_accepted board_accepted boards_accepted concentrators_accepted
    validate_concentrator_config all_boards board_error boards_loop modem_error has_dots is_dots
    all_of lower_hex_digit
old_text_read = refl

parse-serialize-parse_example :
    (serialize old_settings ≡ some (write_lines (settings old_settings)))
    × (parse (write_lines (settings old_settings)) ≡ some old_settings)
parse-serialize-parse_example = parse-serialize-parse old_text old_settings old_text_read
