-- ===== src/Preferences/Size.antt =====
-- Every settings file that `serialize` of src/preferences.cpp writes is within its limit.
use ovmesh_drpp.Base.{
  ℕ, zero, suc, ◌+◌, ◌-◌, ◌*◌, ◌/◌, ◌%◌, ◌≤◌, ◌<◌, Bool, true, false, not, ◌&&◌, List, [], ◌∷◌,
  some, ◌>>◌, guard, Bytes, length, ltb, ◌==◌, codes, ◌≡◌, ap, ◌∙◌, arith, ℤ, pos, negsuc,
  Bool-cases, inl, inr,
}
use ovmesh_drpp.TextField.{valid_text, hex_encode}
use ovmesh_drpp.TextField.HexCodec.{length-hex_encode, valid_text-length}
use ovmesh_drpp.Decimal.{write_digits, to_string, signed_to_string}
use ovmesh_drpp.Concentrator.{ConcentratorBoardConfig}
use ovmesh_drpp.Preferences.{
  DesktopReceiver, synthetic, hack_rf, rtl_sdr, rak5146, DesktopPreferences, maximum_settings_size,
  maximum_path_size, maximum_device_id_size, board_accepted, boards_accepted, validate_preferences,
}
use ovmesh_drpp.Preferences.Fields.{Fields}
use ovmesh_drpp.Preferences.Serialize.{
  settings, boards_settings, switch, receiver_name, write_lines, serialize,
}
use ovmesh_drpp.Preferences.Lines.{both, length-write_line}
use ovmesh_drpp.Preferences.RoundTrip.{Accepted, validate_preferences-Accepted}

data AtMost : ℕ → Bytes → Type 0 where
  at_most : {k : ℕ} {s : Bytes} → length s ≤ k → AtMost k s

-- Lines shorter than the room, which is used up line by line.
data Fits : ℕ → Fields → Type 0 where
  none_fits : {room : ℕ} → Fits (suc room) []
  ◌|+◌ :
      {room k : ℕ} {name value : Bytes} {fields : Fields}
      → AtMost k value
      → Fits (room - (length name + k + 2)) fields
      → Fits room ((name, value) ∷ fields)

infixr 5 ◌|+◌
length-write_lines :
    (fields : Fields) (room : ℕ) → Fits room fields → length (write_lines fields) < room
unfolding write_lines
length-write_lines [] zero fits = elim fits [ ]
length-write_lines [] (suc room) none_fits = omega arith
length-write_lines ((name, value) ∷ fields) room (◌|+◌ {k = k} (at_most short) fits) =
    let size = length-write_line name value fields in
    let others = length-write_lines fields (room - (length name + k + 2)) fits in
    omega (arith, short)

length-write_digits :
    (left n : ℕ) (out : Bytes) → length (write_digits left n out) ≤ left + length out
unfolding write_digits
length-write_digits zero n out = omega arith
length-write_digits (suc left) n out =
    let more = length-write_digits left (n / 10) ((b'0' + n % 10) ∷ out) in
    elim (Bool-cases (n / 10 == 0)) [ inl e ↦ rw e (omega arith) | inr e ↦ rw e (omega arith) ]

to_string_fits : (n : ℕ) → AtMost 20 (to_string n)
to_string_fits n = at_most (length-write_digits 20 n [])

signed_to_string_fits : (z : ℤ) → AtMost 21 (signed_to_string z)
signed_to_string_fits (pos n) = let h = length-write_digits 20 n [] in at_most (omega arith)
signed_to_string_fits (negsuc n) =
    let h = length-write_digits 20 (n + 1) [] in at_most (omega arith)

switch_fits : (b : Bool) → AtMost 1 (switch b)
switch_fits true = at_most (omega arith)
switch_fits false = at_most (omega arith)

receiver_name_fits : (r : DesktopReceiver) → AtMost 9 (receiver_name r)
receiver_name_fits synthetic = at_most (omega arith)
receiver_name_fits hack_rf = at_most (omega arith)
receiver_name_fits rtl_sdr = at_most (omega arith)
receiver_name_fits rak5146 = at_most (omega arith)

hex_encode_fits :
    (s : Bytes) (limit : ℕ) → valid_text s limit ≡ true → AtMost (limit * 2) (hex_encode s)
hex_encode_fits s limit h =
    let short = valid_text-length s limit h in
    let size = length-hex_encode s in at_most (omega arith)

board_texts :
    (b : ConcentratorBoardConfig)
    → board_accepted b ≡ true
    → (valid_text b.device_path 1024 ≡ true) × (valid_text b.device_id 2048 ≡ true)
unfolding board_accepted
board_texts b h =
    both (valid_text b.device_path 1024) (valid_text b.device_id 2048)
      (both (valid_text b.device_path 1024 && valid_text b.device_id 2048) _ h).0

boards_settings_fit :
    (boards : List ConcentratorBoardConfig)
    → boards_accepted boards ≡ true
    → length boards ≤ 2
    → Fits 15687 (boards_settings 0 boards)
unfolding boards_accepted write_digits
boards_settings_fit [] ok h = none_fits
boards_settings_fit (b ∷ []) ok h =
    let (this, _) = both (board_accepted b) true ok in
    let texts = board_texts b this in
    hex_encode_fits b.device_path 1024 texts.0
    |+ hex_encode_fits b.device_id 2048 texts.1
    |+ switch_fits b.packets_enabled
    |+ to_string_fits b.frequency_hz
    |+ to_string_fits b.bandwidth_hz
    |+ to_string_fits b.spreading_factor
    |+ to_string_fits b.sync_word
    |+ none_fits
boards_settings_fit (a ∷ b ∷ []) ok h =
    let (this, rest) = both (board_accepted a) (board_accepted b && true) ok in
    let (that, _) = both (board_accepted b) true rest in
    let first = board_texts a this in
    let second = board_texts b that in
    hex_encode_fits a.device_path 1024 first.0
    |+ hex_encode_fits a.device_id 2048 first.1
    |+ switch_fits a.packets_enabled
    |+ to_string_fits a.frequency_hz
    |+ to_string_fits a.bandwidth_hz
    |+ to_string_fits a.spreading_factor
    |+ to_string_fits a.sync_word
    |+ hex_encode_fits b.device_path 1024 second.0
    |+ hex_encode_fits b.device_id 2048 second.1
    |+ switch_fits b.packets_enabled
    |+ to_string_fits b.frequency_hz
    |+ to_string_fits b.bandwidth_hz
    |+ to_string_fits b.spreading_factor
    |+ to_string_fits b.sync_word
    |+ none_fits
boards_settings_fit (a ∷ b ∷ c ∷ boards) ok h = absurd (omega arith)

version_fits : AtMost 1 (codes "8")
version_fits = at_most (omega arith)

settings_fit : (p : DesktopPreferences) → Accepted p → Fits 32769 (settings p)
settings_fit p a =
    version_fits
    |+ switch_fits p.gps_enabled
    |+ switch_fits p.recording_enabled
    |+ hex_encode_fits p.recording_directory maximum_path_size a.directory
    |+ hex_encode_fits p.gps_device_id maximum_device_id_size a.device
    |+ to_string_fits p.gps_baud
    |+ signed_to_string_fits p.tuning_offset_hz
    |+ switch_fits p.discover_lora
    |+ switch_fits p.compact_recording
    |+ switch_fits p.decode_enabled
    |+ switch_fits p.public_meshtastic_key_enabled
    |+ switch_fits p.spectrum_only
    |+ receiver_name_fits p.receiver_source
    |+ to_string_fits p.center_hz
    |+ to_string_fits p.sample_rate
    |+ to_string_fits p.survey_span_hz
    |+ to_string_fits p.lna_gain
    |+ to_string_fits p.vga_gain
    |+ switch_fits p.amplifier
    |+ switch_fits p.mixed_fonts
    |+ switch_fits p.mobile_position_display
    |+ signed_to_string_fits p.rtl_gain_tenths_db
    |+ switch_fits p.rtl_auto_gain
    |+ to_string_fits (length p.concentrators.boards)
    |+ switch_fits p.concentrators.scan_enabled
    |+ switch_fits p.concentrators.decode_enabled
    |+ to_string_fits p.concentrators.scan_step_hz
    |+ to_string_fits p.concentrators.scan_samples
    |+ boards_settings_fit p.concentrators.boards a.boards a.no_more

-- Every valid setting is written: the test of the size never fails behind `validate_preferences`.
pub serialize_valid :
    (p : DesktopPreferences)
    → validate_preferences p ≡ true
    → serialize p ≡ some (write_lines (settings p))
unfolding serialize
serialize_valid p valid =
    let output = write_lines (settings p) in
    let short =
      length-write_lines (settings p) 32769
        (settings_fit p (validate_preferences-Accepted p valid)) in
    let small : ltb maximum_settings_size (length output) ≡ false = ground arith in
    ap (λ a. guard a >> (guard (not (ltb maximum_settings_size (length output))) >> some output))
      valid
    ∙ ap (λ b. guard (not b) >> some output) small
