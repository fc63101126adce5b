-- ===== src/Concentrator.antt =====
-- The validation of a concentrator configuration: `validate_concentrator_config` of
-- src/concentrator.cpp, with the types of include/ovmesh/concentrator.hpp. An exception is an
-- error value. The code compares edges as `double`; at these points every number is below 2^53 in
-- magnitude and a multiple of one half, so the comparisons are exact, and are written here with
-- both sides doubled and with sums in place of differences.
pub mod Safe
use ovmesh_drpp.Base.{
  ℤ, pos, negsuc, ℕ, zero, suc, ◌+◌, ◌*◌, Bool, true, false, not, ◌&&◌, ◌||◌, List, [], ◌∷◌, Option,
  none, some, Bytes, length, ltb, ◌==◌, equal, if◌then◌else◌,
}

pub record ConcentratorBoardConfig : Type 0 where
  pub device_path : Bytes
  pub device_id : Bytes
  pub packets_enabled : Bool
  pub frequency_hz : ℕ
  pub bandwidth_hz : ℕ
  pub spreading_factor : ℕ
  pub sync_word : ℕ

pub record ConcentratorConfig : Type 0 where
  pub boards : List ConcentratorBoardConfig
  pub scan_enabled : Bool
  pub decode_enabled : Bool
  pub scan_step_hz : ℕ
  pub scan_samples : ℕ

-- One value for each `throw`.
pub data ConfigError : Type 0 where
  board_count survey_range survey_edges scan_settings : ConfigError
  device_selection same_device nothing_enabled : ConfigError
  modem_bandwidth modem_settings packet_frequency packet_range : ConfigError

-- `contains '\0'`
unfoldable pub has_nul : Bytes → Bool
has_nul [] = false
has_nul (c ∷ cs) = c == 0 || has_nul cs

-- `offset < -100000 || offset > 100000`
abbrev pub offset_refused : ℤ → Bool
offset_refused (pos n) = ltb 100000 n
offset_refused (negsuc n) = ltb 99999 n

-- `lower < 902000000 || upper > 928000000 || lower + offset < 902000000 || upper + offset > 928000000`
abbrev pub edges_refused : (center span : ℕ) → ℤ → Bool
edges_refused center span (pos n) =
    ltb (2 * center) (1804000000 + span)
    || ltb 1856000000 (2 * center + span)
    || ltb (2 * center + 2 * n) (1804000000 + span)
    || ltb 1856000000 (2 * center + span + 2 * n)
edges_refused center span (negsuc n) =
    ltb (2 * center) (1804000000 + span)
    || ltb 1856000000 (2 * center + span)
    || ltb (2 * center) (1804000000 + span + 2 * (n + 1))
    || ltb (1856000000 + 2 * (n + 1)) (2 * center + span)

-- The device tests for a board; `first` is `c.boards[0]` for every board but the first.
unfoldable pub device_error :
    Option ConcentratorBoardConfig → ConcentratorBoardConfig → Option ConfigError
device_error first b =
    if length b.device_path == 0
      || ltb 1024 (length b.device_path)
      || ltb 2048 (length b.device_id)
      || has_nul b.device_path
      || has_nul b.device_id
    then some device_selection
    else elim first [
      | none ↦ none
      | some f ↦
          if equal b.device_path f.device_path
            || (not (length b.device_id == 0) && equal b.device_id f.device_id)
          then some same_device
          else none
    ]

abbrev pub or_else : Option ConfigError → Option ConfigError → Option ConfigError
or_else (some e) rest = some e
or_else none rest = rest

module _ (c : ConcentratorConfig) (center span : ℕ) where
  unfoldable pub modem_error : ConcentratorBoardConfig → Option ConfigError
  modem_error b =
      if not b.packets_enabled && not c.scan_enabled
      then some nothing_enabled
      else if not (b.bandwidth_hz == 125000)
          && (not (b.bandwidth_hz == 250000) && not (b.bandwidth_hz == 500000))
      then some modem_bandwidth
      else if ltb b.spreading_factor 7
          || ltb 12 b.spreading_factor
          || (not (b.sync_word == 0x2b) && (not (b.sync_word == 0x12) && not (b.sync_word == 0x34)))
      then some modem_settings
      else if ltb b.frequency_hz 902000000 || ltb 928000000 b.frequency_hz
      then some packet_frequency
      else if b.packets_enabled
          && (ltb (2 * b.frequency_hz + span) (2 * center + b.bandwidth_hz)
              || ltb (2 * center + span) (2 * b.frequency_hz + b.bandwidth_hz))
      then some packet_range
      else none

module _ (c : ConcentratorConfig) (center span : ℕ) (require_paths : Bool) where
  unfoldable pub board_error :
      Option ConcentratorBoardConfig → ConcentratorBoardConfig → Option ConfigError
  board_error first b =
      or_else (if require_paths then device_error first b else none) (modem_error c center span b)

  -- The loop behind the first board.
  unfoldable pub boards_loop :
      ConcentratorBoardConfig → List ConcentratorBoardConfig → Option ConfigError
  boards_loop first [] = none
  boards_loop first (b ∷ bs) = or_else (board_error (some first) b) (boards_loop first bs)

  unfoldable pub all_boards : List ConcentratorBoardConfig → Option ConfigError
  all_boards [] = none
  all_boards (b ∷ bs) = or_else (board_error none b) (boards_loop b bs)

unfoldable pub validate_concentrator_config :
    ConcentratorConfig → (center span : ℕ) → ℤ → Bool → Option ConfigError
validate_concentrator_config c center span offset require_paths =
    if length c.boards == 0 || ltb 2 (length c.boards)
    then some board_count
    else if ltb center 902000000
        || ltb 928000000 center
        || ltb span 500000
        || ltb 26000000 span
        || offset_refused offset
    then some survey_range
    else if edges_refused center span offset
    then some survey_edges
    else if ltb c.scan_step_hz 25000 || ltb 1000000 c.scan_step_hz || not (c.scan_samples == 2000)
    then some scan_settings
    else all_boards c center span require_paths c.boards
