-- ===== src/Preferences/RoundTrip.antt =====
-- `parse` of what `serialize` of src/preferences.cpp writes.
use mathlib.Core.Option.{some-injective}
use ovmesh_drpp.Base.{
  ◌≤◌, ◌<◌, Bool, true, false, not, ◌||◌, [], ◌∷◌, ◌++◌, Option, none, some, ◌>>=◌, ◌>>◌, guard,
  Bytes, length, append-nil, ltb, ◌==◌, if◌then◌else◌, equal, ◌≡◌, refl, sym, ap, ◌∙◌, arith,
}
use ovmesh_drpp.TextField.{valid_text}
use ovmesh_drpp.Concentrator.{ConfigError, validate_concentrator_config}
use ovmesh_drpp.Preferences.{
  DesktopPreferences, maximum_settings_size, maximum_path_size, maximum_device_id_size, known_baud,
  absolute_directory, boards_accepted, concentrators_accepted, validate_preferences,
}
use ovmesh_drpp.Preferences.Fields.{Fields, at, contains_all, read_fields}
use ovmesh_drpp.Preferences.Parse.{parse, parse_values, parse_version, names_accepted, last_byte}
use ovmesh_drpp.Preferences.Serialize.{settings, write_lines, serialize}
use ovmesh_drpp.Preferences.Lines.{read_fields-write_lines, length-write_line}
use ovmesh_drpp.Preferences.Plain.{settings-IsLine, settings_fresh}
use ovmesh_drpp.Preferences.Sections.{
  InRange, parse_general-settings, parse_receiver-settings, parse_rtl-settings,
  parse_public_key-settings,
}
use ovmesh_drpp.Preferences.BoardSections.{length-boards_settings, parse_concentrators-settings}

pub record Accepted (p : DesktopPreferences) : Type 0 where
  pub directory : valid_text p.recording_directory maximum_path_size ≡ true
  pub device : valid_text p.gps_device_id maximum_device_id_size ≡ true
  pub baud : known_baud p.gps_baud ≡ true
  pub boards : boards_accepted p.concentrators.boards ≡ true
  pub some_board : 1 ≤ length p.concentrators.boards
  pub no_more : length p.concentrators.boards ≤ 2

abbrev is_none : Option ConfigError → Bool
is_none o = elim o [ none ↦ true | some _ ↦ false ]

first_guard :
    (c : Bool) (e : ConfigError) (o : Option ConfigError)
    → is_none (if c then some e else o) ≡ true
    → c ≡ false
first_guard true e o h = cc
first_guard false e o h = refl

board_count_accepted :
    (p : DesktopPreferences)
    → concentrators_accepted p ≡ true
    → (length p.concentrators.boards == 0 || ltb 2 (length p.concentrators.boards)) ≡ false
unfolding concentrators_accepted validate_concentrator_config
board_count_accepted p h = first_guard _ _ _ h

pub validate_preferences-Accepted :
    (p : DesktopPreferences) → validate_preferences p ≡ true → Accepted p
unfolding validate_preferences absolute_directory
validate_preferences-Accepted p h =
    let directory : valid_text p.recording_directory maximum_path_size ≡ true = ground arith in
    let device : valid_text p.gps_device_id maximum_device_id_size ≡ true = ground arith in
    let baud : known_baud p.gps_baud ≡ true = ground arith in
    let boards : boards_accepted p.concentrators.boards ≡ true = ground arith in
    let concentrators : concentrators_accepted p ≡ true = ground arith in
    let counted = board_count_accepted p concentrators in
    record {
      directory = directory;
      device = device;
      baud = baud;
      boards = boards;
      some_board = ground arith;
      no_more = ground arith;
    }

-- The settings are read back from their names and values.
pub parse_values-settings :
    (p : DesktopPreferences)
    → InRange p
    → validate_preferences p ≡ true
    → parse_values (settings p) ≡ some p
unfolding parse_values contains_all names_accepted parse_version at equal
parse_values-settings p range valid =
    let a = validate_preferences-Accepted p valid in
    rw (parse_general-settings p _ range a.directory a.device a.baud) (
      rw (parse_receiver-settings p _ range) (
        rw (parse_rtl-settings p _ range) (
          rw (parse_concentrators-settings p _ range a.some_board a.no_more a.boards)
            (rw (parse_public_key-settings p _ range) (ap (λ b. guard b >> some p) valid)))))

last_byte-append : (s t : Bytes) → 0 < length t → last_byte (s ++ t) ≡ last_byte t
unfolding last_byte
last_byte-append s [] h = absurd (omega arith)
last_byte-append [] (d ∷ t) h = refl
last_byte-append (a ∷ []) (d ∷ t) h = refl
last_byte-append (a ∷ b ∷ s) (d ∷ t) h = last_byte-append (b ∷ s) (d ∷ t) h

last_byte-line : (name value : Bytes) → last_byte (name ++ b'=' ∷ (value ++ 10 ∷ [])) ≡ 10
unfolding last_byte
last_byte-line name value =
    last_byte-append name (b'=' ∷ (value ++ 10 ∷ [])) (omega arith)
    ∙ last_byte-append (b'=' ∷ value) (10 ∷ []) (omega arith)

last_byte-write_lines : (fields : Fields) → 0 < length fields → last_byte (write_lines fields) ≡ 10
unfolding write_lines
last_byte-write_lines [] h = absurd (omega arith)
last_byte-write_lines ((name, value) ∷ []) h =
    ap last_byte (append-nil _) ∙ last_byte-line name value
last_byte-write_lines ((name, value) ∷ (n, v) ∷ fields) h =
    let more = length-write_line n v fields in
    last_byte-append (name ++ b'=' ∷ (value ++ 10 ∷ [])) (write_lines ((n, v) ∷ fields))
      (omega arith)
    ∙ last_byte-write_lines ((n, v) ∷ fields) (omega arith)

guard_both :
    (a b : Bool) (r output : Bytes)
    → (guard a >> (guard b >> some r)) ≡ some output
    → (a ≡ true) × ((b ≡ true) × (r ≡ output))
guard_both true true r output h = (refl, (refl, some-injective _ _ h))
guard_both true false r output h = cc
guard_both false b r output h = cc

last_byte-feed : (s : Bytes) → last_byte s ≡ 10 → 0 < length s
unfolding last_byte
last_byte-feed [] h = absurd (omega arith)
last_byte-feed (c ∷ s) h = omega arith

parse-read_fields :
    (input : Bytes) (fields : Fields)
    → length input ≤ maximum_settings_size
    → last_byte input ≡ 10
    → read_fields (length input) [] input ≡ some fields
    → parse input ≡ parse_values fields
unfolding parse
parse-read_fields input fields small last read =
    let test = not (
      length input == 0
      || ltb maximum_settings_size (length input)
      || not (last_byte input == 10)) in
    let some_byte = last_byte-feed input last in
    let accepted : test ≡ true = ground arith in
    ap (λ b. guard b >> (read_fields (length input) [] input >>= parse_values)) accepted
    ∙ ap (λ r. r >>= parse_values) read

-- `parse` reads the lines of the settings.
parse-settings :
    (p : DesktopPreferences)
    → InRange p
    → validate_preferences p ≡ true
    → length (write_lines (settings p)) ≤ maximum_settings_size
    → parse (write_lines (settings p)) ≡ some p
parse-settings p range valid small =
    let a = validate_preferences-Accepted p valid in
    let count = length-boards_settings 0 p.concentrators.boards in
    let written = write_lines (settings p) in
    let read =
      read_fields-write_lines (length written) [] (settings p) (settings-IsLine p range a.no_more)
        (settings_fresh p a.no_more) (omega (arith, a.no_more)) (omega arith) in
    parse-read_fields written (settings p) small (last_byte-write_lines (settings p) (omega arith))
      read
    ∙ parse_values-settings p range valid

-- What `serialize` writes, `parse` reads as the same settings, for settings whose fields are values
-- of their types.
pub parse-serialize :
    (p : DesktopPreferences) (output : Bytes)
    → InRange p
    → serialize p ≡ some output
    → parse output ≡ some p
unfolding serialize
parse-serialize p output range written =
    let (valid, (small, same)) =
      guard_both (validate_preferences p)
        (not (ltb maximum_settings_size (length (write_lines (settings p))))) _ _ written in
    ap parse (sym same) ∙ parse-settings p range valid (ground arith)
