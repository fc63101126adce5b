-- ===== src/Preferences/BoardSections.antt =====
-- The boards of the concentrator settings, as `parse` of src/preferences.cpp reads them back.
use ovmesh_drpp.Base.{
  ℕ, ◌+◌, ◌*◌, ◌≤◌, true, not, ◌&&◌, ◌||◌, List, [], ◌∷◌, some, All, length, ltb, ◌==◌, codes,
  equal, ◌≡◌, refl, arith,
}
use ovmesh_drpp.TextField.{valid_text, hex_encode}
use ovmesh_drpp.TextField.HexCodec.{hex_decode-hex_encode}
use ovmesh_drpp.Decimal.{write_digits, to_string}
use ovmesh_drpp.Concentrator.{ConcentratorBoardConfig}
use ovmesh_drpp.Preferences.{DesktopPreferences, board_accepted, boards_accepted}
use ovmesh_drpp.Preferences.Fields.{Fields, at, max_u32, max_u64}
use ovmesh_drpp.Preferences.Parse.{parse_board, parse_boards, parse_concentrators, board_name}
use ovmesh_drpp.Preferences.Serialize.{settings, boards_settings, switch}
use ovmesh_drpp.Preferences.Lines.{both}
use ovmesh_drpp.Preferences.Values.{boolean_value-switch, integer_value-to_string}
use ovmesh_drpp.Preferences.Sections.{BoardInRange, InRange, with_concentrators}

-- The values of the board with the index `i` stand under its names.
record HasBoard (fields : Fields) (i : ℕ) (b : ConcentratorBoardConfig) : Type 0 where
  path : at (board_name i (codes "path")) fields ≡ some (hex_encode b.device_path)
  id : at (board_name i (codes "id")) fields ≡ some (hex_encode b.device_id)
  packets : at (board_name i (codes "packets")) fields ≡ some (switch b.packets_enabled)
  frequency_hz : at (board_name i (codes "frequency_hz")) fields ≡ some (to_string b.frequency_hz)
  bandwidth_hz : at (board_name i (codes "bandwidth_hz")) fields ≡ some (to_string b.bandwidth_hz)
  sf : at (board_name i (codes "sf")) fields ≡ some (to_string b.spreading_factor)
  sync_word : at (board_name i (codes "sync_word")) fields ≡ some (to_string b.sync_word)

parse_board-HasBoard :
    (fields : Fields) (i : ℕ) (b : ConcentratorBoardConfig)
    → BoardInRange b
    → valid_text b.device_path 1024 ≡ true
    → valid_text b.device_id 2048 ≡ true
    → HasBoard fields i b
    → parse_board i fields ≡ some b
unfolding parse_board
parse_board-HasBoard fields i b range path id has =
    rw (has.path, has.id, has.packets, has.frequency_hz, has.bandwidth_hz, has.sf, has.sync_word)
      (rw
        (
          hex_decode-hex_encode b.device_path 1024 range.device_path path,
          hex_decode-hex_encode b.device_id 2048 range.device_id id,
          boolean_value-switch b.packets_enabled,
          integer_value-to_string max_u64 b.frequency_hz (omega arith) range.frequency_hz,
          integer_value-to_string max_u32 b.bandwidth_hz (omega arith) range.bandwidth_hz,
          integer_value-to_string max_u32 b.spreading_factor (omega arith) range.spreading_factor,
          integer_value-to_string max_u32 b.sync_word (omega arith) range.sync_word,
        )
        refl)

-- A predicate of every board, with its index.
HaveBoards : Fields → ℕ → List ConcentratorBoardConfig → Type 0
HaveBoards fields i [] = Unit
HaveBoards fields i (b ∷ bs) = HasBoard fields i b × HaveBoards fields (i + 1) bs

settings-HaveBoards :
    (p : DesktopPreferences) (boards : List ConcentratorBoardConfig)
    → p.concentrators.boards ≡ boards
    → length boards ≤ 2
    → HaveBoards (settings p) 0 boards
unfolding HaveBoards at equal write_digits
settings-HaveBoards p [] e h = tt
settings-HaveBoards p (b ∷ []) e h = (
  record {
    path = rw e refl;
    id = rw e refl;
    packets = rw e refl;
    frequency_hz = rw e refl;
    bandwidth_hz = rw e refl;
    sf = rw e refl;
    sync_word = rw e refl;
  },
  tt,
)
settings-HaveBoards p (a ∷ b ∷ []) e h = (
  record {
    path = rw e refl;
    id = rw e refl;
    packets = rw e refl;
    frequency_hz = rw e refl;
    bandwidth_hz = rw e refl;
    sf = rw e refl;
    sync_word = rw e refl;
  },
  (
    record {
      path = rw e refl;
      id = rw e refl;
      packets = rw e refl;
      frequency_hz = rw e refl;
      bandwidth_hz = rw e refl;
      sf = rw e refl;
      sync_word = rw e refl;
    },
    tt,
  ),
)
settings-HaveBoards p (a ∷ b ∷ c ∷ boards) e h = absurd (omega arith)

parse_boards-HaveBoards :
    (fields : Fields) (i : ℕ) (bs : List ConcentratorBoardConfig)
    → All BoardInRange bs
    → boards_accepted bs ≡ true
    → HaveBoards fields i bs
    → parse_boards (length bs) i fields ≡ some bs
unfolding parse_boards HaveBoards boards_accepted board_accepted
parse_boards-HaveBoards fields i [] range ok has = refl
parse_boards-HaveBoards fields i (b ∷ bs) (range, ranges) ok (this, others) =
    let (accepted, rest) = both (board_accepted b) (boards_accepted bs) ok in
    let (texts, _) =
      both (valid_text b.device_path 1024 && valid_text b.device_id 2048) _ accepted in
    let (path, id) = both (valid_text b.device_path 1024) (valid_text b.device_id 2048) texts in
    rw
      (
        parse_board-HasBoard fields i b range path id this,
        parse_boards-HaveBoards fields (i + 1) bs ranges rest others,
      )
      refl

pub length-boards_settings :
    (i : ℕ) (bs : List ConcentratorBoardConfig) → length (boards_settings i bs) ≡ length bs * 7
length-boards_settings i [] = refl
length-boards_settings i (b ∷ bs) = omega (arith, length-boards_settings (i + 1) bs)

pub parse_concentrators-settings :
    (p q : DesktopPreferences)
    → InRange p
    → 1 ≤ length p.concentrators.boards
    → length p.concentrators.boards ≤ 2
    → boards_accepted p.concentrators.boards ≡ true
    → parse_concentrators 8 (settings p) q ≡ some (with_concentrators p q)
unfolding parse_concentrators at equal
parse_concentrators-settings p q range some_board no_more ok =
    let c = p.concentrators in
    let n = length c.boards in
    let sized = length-boards_settings 0 c.boards in
    let counted : (not (ltb n 1 || ltb 2 n) && length (settings p) == 28 + n * 7) ≡ true =
      ground arith in
    rw (integer_value-to_string max_u32 n (omega arith) (omega arith)) (
      rw counted (
        rw
          (
            boolean_value-switch c.scan_enabled,
            boolean_value-switch c.decode_enabled,
            integer_value-to_string max_u32 c.scan_step_hz (omega arith) range.scan_step_hz,
            integer_value-to_string max_u32 c.scan_samples (omega arith) range.scan_samples,
            parse_boards-HaveBoards (settings p) 0 c.boards range.boards ok
                (settings-HaveBoards p c.boards refl no_more),
          )
          refl))
