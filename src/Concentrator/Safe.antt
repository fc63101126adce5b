-- ===== src/Concentrator/Safe.antt =====
-- What an accepted concentrator configuration guarantees.
use ovmesh_drpp.Base.{
  ℤ, pos, negsuc, ℕ, ◌+◌, ◌*◌, ◌≤◌, ◌<◌, Bool, true, false, not, ◌&&◌, ◌||◌, List, [], ◌∷◌, Option,
  none, some, All, length, ltb, ◌==◌, equal, equal_iff, if◌then◌else◌, ◌≡◌, ◌≢◌, ◌⊎◌, inl, inr,
  refl, subst, arith,
}
use ovmesh_drpp.Concentrator.{
  ConcentratorBoardConfig, ConcentratorConfig, ConfigError, has_nul, device_error, modem_error,
  board_error, or_else, boards_loop, all_boards, edges_refused, offset_refused,
  validate_concentrator_config,
}

-- No packets are received, or the whole bandwidth of the board's profile lies between 902 and
-- 928 MHz; edges are doubled.
abbrev pub PacketsInside : ConcentratorBoardConfig → Type 0
PacketsInside b =
    (b.packets_enabled ≡ false)
    ⊎ ((1804000000 + b.bandwidth_hz ≤ 2 * b.frequency_hz)
        × (2 * b.frequency_hz + b.bandwidth_hz ≤ 1856000000))

-- The test did not stop the validation.
passed :
    (t : Bool) (x : ConfigError) (o : Option ConfigError)
    → (if t then some x else o) ≡ none
    → (t ≡ false) × (o ≡ none)
passed true x o e = cc
passed false x o e = (refl, e)

or_else-none : (o p : Option ConfigError) → or_else o p ≡ none → (o ≡ none) × (p ≡ none)
or_else-none none p e = (refl, e)
or_else-none (some x) p e = cc

module _ (c : ConcentratorConfig) (center span : ℕ) where
  modem_error-PacketsInside :
      (b : ConcentratorBoardConfig)
      → 1804000000 + span ≤ 2 * center
      → 2 * center + span ≤ 1856000000
      → modem_error c center span b ≡ none
      → PacketsInside b
  unfolding modem_error
  modem_error-PacketsInside b l u e =
      let (_, e1) = passed (not b.packets_enabled && not c.scan_enabled) _ _ e in
      let (_, e2) =
        passed
          (not (b.bandwidth_hz == 125000)
            && (not (b.bandwidth_hz == 250000) && not (b.bandwidth_hz == 500000)))
          _ _ e1 in
      let (_, e3) =
        passed
          (ltb b.spreading_factor 7
            || ltb 12 b.spreading_factor
            || (not (b.sync_word == 0x2b)
                && (not (b.sync_word == 0x12) && not (b.sync_word == 0x34))))
          _ _ e2 in
      let (_, e4) = passed (ltb b.frequency_hz 902000000 || ltb 928000000 b.frequency_hz) _ _ e3 in
      let (t, _) =
        passed
          (b.packets_enabled
            && (ltb (2 * b.frequency_hz + span) (2 * center + b.bandwidth_hz)
                || ltb (2 * center + span) (2 * b.frequency_hz + b.bandwidth_hz)))
          _ _ e4 in
      inside b.packets_enabled t
    where
      inside :
          (p : Bool)
          → (p
              && (ltb (2 * b.frequency_hz + span) (2 * center + b.bandwidth_hz)
                  || ltb (2 * center + span) (2 * b.frequency_hz + b.bandwidth_hz)))
            ≡ false
          → (p ≡ false)
            ⊎ ((1804000000 + b.bandwidth_hz ≤ 2 * b.frequency_hz)
                × (2 * b.frequency_hz + b.bandwidth_hz ≤ 1856000000))
      inside true t = inr (ground arith, ground arith)
      inside false t = inl refl

  module _ (require_paths : Bool) (l : 1804000000 + span ≤ 2 * center)
      (u : 2 * center + span ≤ 1856000000) where
    board_error-PacketsInside :
        (first : Option ConcentratorBoardConfig) (b : ConcentratorBoardConfig)
        → board_error c center span require_paths first b ≡ none
        → PacketsInside b
    unfolding board_error
    board_error-PacketsInside first b e = modem_error-PacketsInside b l u (or_else-none _ _ e).1

    boards_loop-PacketsInside :
        (first : ConcentratorBoardConfig) (bs : List ConcentratorBoardConfig)
        → boards_loop c center span require_paths first bs ≡ none
        → All PacketsInside bs
    unfolding boards_loop
    boards_loop-PacketsInside first [] e = tt
    boards_loop-PacketsInside first (b ∷ bs) e =
        let (here, rest) = or_else-none _ _ e in
        (board_error-PacketsInside (some first) b here, boards_loop-PacketsInside first bs rest)

    all_boards-PacketsInside :
        (bs : List ConcentratorBoardConfig)
        → all_boards c center span require_paths bs ≡ none
        → All PacketsInside bs
    unfolding all_boards
    all_boards-PacketsInside [] e = tt
    all_boards-PacketsInside (b ∷ bs) e =
        let (here, rest) = or_else-none _ _ e in
        (board_error-PacketsInside none b here, boards_loop-PacketsInside b bs rest)

edges :
    (center span : ℕ) (offset : ℤ)
    → edges_refused center span offset ≡ false
    → (1804000000 + span ≤ 2 * center) × (2 * center + span ≤ 1856000000)
edges center span (pos n) e = (ground arith, ground arith)
edges center span (negsuc n) e = (ground arith, ground arith)

-- The second of two boards is another device.
abbrev pub DistinctDevices : List ConcentratorBoardConfig → Type 0
DistinctDevices (a ∷ b ∷ []) = b.device_path ≢ a.device_path
DistinctDevices _ = Unit

device_error_distinct :
    (a b : ConcentratorBoardConfig) → device_error (some a) b ≡ none → b.device_path ≢ a.device_path
unfolding device_error
device_error_distinct a b e same =
    let (_, choice) =
      passed
        (length b.device_path == 0
          || ltb 1024 (length b.device_path)
          || ltb 2048 (length b.device_id)
          || has_nul b.device_path
          || has_nul b.device_id)
        _ _ e in
    let (t, _) =
      passed
        (equal b.device_path a.device_path
          || (not (length b.device_id == 0) && equal b.device_id a.device_id))
        _ _ choice in
    let p = (equal_iff b.device_path a.device_path).1 same in
    let q : (true || (not (length b.device_id == 0) && equal b.device_id a.device_id)) ≡ false =
      subst (λ x. (x || (not (length b.device_id == 0) && equal b.device_id a.device_id)) ≡ false) p
        t in
    cc

all_boards-DistinctDevices :
    (c : ConcentratorConfig) (center span : ℕ) (bs : List ConcentratorBoardConfig)
    → all_boards c center span true bs ≡ none
    → DistinctDevices bs
unfolding all_boards boards_loop board_error
all_boards-DistinctDevices c center span [] e = tt
all_boards-DistinctDevices c center span (a ∷ []) e = tt
all_boards-DistinctDevices c center span (a ∷ b ∷ []) e =
    let (_, rest) =
      or_else-none (or_else (device_error none a) (modem_error c center span a)) _ e in
    let (second, _) =
      or_else-none (or_else (device_error (some a) b) (modem_error c center span b)) _ rest in
    device_error_distinct a b (or_else-none (device_error (some a) b) _ second).0
all_boards-DistinctDevices c center span (a ∷ b ∷ d ∷ bs) e = tt

-- An accepted configuration has one or two boards; on each board that receives packets the whole
-- bandwidth of its profile lies between 902 and 928 MHz; and where device paths are required, two
-- boards have different ones.
pub validate_concentrator_config_safe :
    (c : ConcentratorConfig) (center span : ℕ) (offset : ℤ) (require_paths : Bool)
    → validate_concentrator_config c center span offset require_paths ≡ none
    → (0 < length c.boards)
      × (length c.boards ≤ 2)
      × All PacketsInside c.boards
      × ((require_paths ≡ false) ⊎ DistinctDevices c.boards)
unfolding validate_concentrator_config
validate_concentrator_config_safe c center span offset require_paths e =
    let (count, e1) = passed (length c.boards == 0 || ltb 2 (length c.boards)) _ _ e in
    let (_, e2) =
      passed
        (ltb center 902000000
          || ltb 928000000 center
          || ltb span 500000
          || ltb 26000000 span
          || offset_refused offset)
        _ _ e1 in
    let (inside, e3) = passed (edges_refused center span offset) _ _ e2 in
    let (_, e4) =
      passed
        (ltb c.scan_step_hz 25000 || ltb 1000000 c.scan_step_hz || not (c.scan_samples == 2000)) _ _
        e3 in
    let (l, u) = edges center span offset inside in
    (
      ground arith,
      ground arith,
      all_boards-PacketsInside c center span require_paths l u c.boards e4,
      devices require_paths e4,
    )
  where
    devices :
        (r : Bool)
        → all_boards c center span r c.boards ≡ none
        → (r ≡ false) ⊎ DistinctDevices c.boards
    devices true h = inr (all_boards-DistinctDevices c center span c.boards h)
    devices false h = inl refl
