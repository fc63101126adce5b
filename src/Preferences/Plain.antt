-- ===== src/Preferences/Plain.antt =====
-- The values that `serialize` of src/preferences.cpp writes hold no line feed, and its lines have
-- distinct names.
use ovmesh_drpp.Base.{
  ℕ, ◌+◌, ◌/◌, ◌≤◌, ◌<◌, Bool, true, false, List, [], ◌∷◌, Bytes, IsBytes, All, length, ◌==◌,
  ==-false, codes, equal, ◌≡◌, refl, arith, ℤ, pos, negsuc, bit_and,
}
use ovmesh_drpp.Base.Bits.{and_mask}
use ovmesh_drpp.TextField.{hex_char, hex_encode}
use ovmesh_drpp.Decimal.{write_digits, to_string, signed_to_string}
use ovmesh_drpp.Decimal.RoundTrip.{IsDigit, to_string-IsDigit}
use ovmesh_drpp.Concentrator.{ConcentratorBoardConfig}
use ovmesh_drpp.Preferences.{
  DesktopReceiver, synthetic, hack_rf, rtl_sdr, rak5146, DesktopPreferences,
}
use ovmesh_drpp.Preferences.Fields.{Fields, at}
use ovmesh_drpp.Preferences.Serialize.{settings, boards_settings, switch, receiver_name}
use ovmesh_drpp.Preferences.Sections.{InRange, BoardInRange}
use ovmesh_drpp.Preferences.Lines.{
  Without, IsLine, fresh, are_names, is_name, without, are_names-IsLine, without-Without,
}

hex_char_plain : (n : ℕ) → n < 16 → (hex_char n == 10) ≡ false
hex_char_plain n h = ground arith

hex_encode_plain : (value : Bytes) → IsBytes value → Without 10 (hex_encode value)
unfolding hex_encode
hex_encode_plain [] h = tt
hex_encode_plain (b ∷ value) (p, h) =
    let low = and_mask 4 b in
    (
      hex_char_plain (b / 16) (omega arith),
      (hex_char_plain (bit_and b 15) (omega arith), hex_encode_plain value h),
    )

digits_plain : (s : Bytes) → All IsDigit s → Without 10 s
digits_plain [] h = tt
digits_plain (c ∷ s) (d, h) = (==-false c 10 (λ e. omega arith), digits_plain s h)

to_string_plain : (n : ℕ) → Without 10 (to_string n)
to_string_plain n = digits_plain (to_string n) (to_string-IsDigit n)

signed_to_string_plain : (z : ℤ) → Without 10 (signed_to_string z)
signed_to_string_plain (pos n) = to_string_plain n
signed_to_string_plain (negsuc n) = (refl, to_string_plain (n + 1))

switch_plain : (b : Bool) → Without 10 (switch b)
switch_plain true = (refl, tt)
switch_plain false = (refl, tt)

receiver_name_plain : (r : DesktopReceiver) → Without 10 (receiver_name r)
unfolding without
receiver_name_plain synthetic = without-Without 10 (codes "synthetic") refl
receiver_name_plain hack_rf = without-Without 10 (codes "hackrf") refl
receiver_name_plain rtl_sdr = without-Without 10 (codes "rtl_sdr") refl
receiver_name_plain rak5146 = without-Without 10 (codes "rak5146") refl

data Plain : Fields → Type 0 where
  none_plain : Plain []
  ◌|>◌ :
      {name value : Bytes} {fields : Fields}
      → Without 10 value
      → Plain fields
      → Plain ((name, value) ∷ fields)

infixr 5 ◌|>◌
Plain-All : (fields : Fields) → Plain fields → All (λ (name, value). Without 10 value) fields
Plain-All [] none_plain = tt
Plain-All ((name, value) ∷ fields) (v |> rest) = (v, Plain-All fields rest)

boards_settings-Plain :
    (i : ℕ) (bs : List ConcentratorBoardConfig) → All BoardInRange bs → Plain (boards_settings i bs)
boards_settings-Plain i [] range = none_plain
boards_settings-Plain i (b ∷ bs) (range, ranges) =
    hex_encode_plain b.device_path range.device_path
    |> hex_encode_plain b.device_id range.device_id
    |> switch_plain b.packets_enabled
    |> to_string_plain b.frequency_hz
    |> to_string_plain b.bandwidth_hz
    |> to_string_plain b.spreading_factor
    |> to_string_plain b.sync_word
    |> boards_settings-Plain (i + 1) bs ranges

settings-Plain : (p : DesktopPreferences) → InRange p → Plain (settings p)
settings-Plain p range =
    (refl, tt)
    |> switch_plain p.gps_enabled
    |> switch_plain p.recording_enabled
    |> hex_encode_plain p.recording_directory range.recording_directory
    |> hex_encode_plain p.gps_device_id range.gps_device_id
    |> to_string_plain p.gps_baud
    |> signed_to_string_plain p.tuning_offset_hz
    |> switch_plain p.discover_lora
    |> switch_plain p.compact_recording
    |> switch_plain p.decode_enabled
    |> switch_plain p.public_meshtastic_key_enabled
    |> switch_plain p.spectrum_only
    |> receiver_name_plain p.receiver_source
    |> to_string_plain p.center_hz
    |> to_string_plain p.sample_rate
    |> to_string_plain p.survey_span_hz
    |> to_string_plain p.lna_gain
    |> to_string_plain p.vga_gain
    |> switch_plain p.amplifier
    |> switch_plain p.mixed_fonts
    |> switch_plain p.mobile_position_display
    |> signed_to_string_plain p.rtl_gain_tenths_db
    |> switch_plain p.rtl_auto_gain
    |> to_string_plain (length p.concentrators.boards)
    |> switch_plain p.concentrators.scan_enabled
    |> switch_plain p.concentrators.decode_enabled
    |> to_string_plain p.concentrators.scan_step_hz
    |> to_string_plain p.concentrators.scan_samples
    |> boards_settings-Plain 0 p.concentrators.boards range.boards

-- With one board or two, every line has a name, and no name stands twice.
settings_named :
    (p : DesktopPreferences) (boards : List ConcentratorBoardConfig)
    → p.concentrators.boards ≡ boards
    → length boards ≤ 2
    → (are_names (settings p) ≡ true) × (fresh [] (settings p) ≡ true)
unfolding are_names is_name without fresh at equal write_digits
settings_named p [] e h = (rw e refl, rw e refl)
settings_named p (b ∷ []) e h = (rw e refl, rw e refl)
settings_named p (a ∷ b ∷ []) e h = (rw e refl, rw e refl)
settings_named p (a ∷ b ∷ c ∷ boards) e h = absurd (omega arith)

pub settings-IsLine :
    (p : DesktopPreferences)
    → InRange p
    → length p.concentrators.boards ≤ 2
    → All IsLine (settings p)
settings-IsLine p range no_more =
    are_names-IsLine (settings p) (settings_named p p.concentrators.boards refl no_more).0
      (Plain-All (settings p) (settings-Plain p range))

pub settings_fresh :
    (p : DesktopPreferences) → length p.concentrators.boards ≤ 2 → fresh [] (settings p) ≡ true
settings_fresh p no_more = (settings_named p p.concentrators.boards refl no_more).1
