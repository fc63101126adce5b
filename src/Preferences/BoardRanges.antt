-- ===== src/Preferences/BoardRanges.antt =====
-- What `parse` of src/preferences.cpp reads of the concentrator's boards are values of the fields'
-- types.
use ovmesh_drpp.Base.{
  ℕ, zero, suc, ◌+◌, ◌*◌, ◌≤◌, [], ◌∷◌, IsBytes, All, length, ltb, ◌==◌, not, ◌||◌, ◌&&◌,
  if◌then◌else◌, codes,
}
use ovmesh_drpp.Preferences.{DesktopPreferences}
use ovmesh_drpp.Preferences.Fields.{Fields, integer, boolean, max_u32, max_u64}
use ovmesh_drpp.Preferences.Parse.{board_name, parse_board, parse_boards, parse_concentrators}
use ovmesh_drpp.Preferences.Sections.{BoardInRange, InRange}
use ovmesh_drpp.Preferences.Gives.{
  Gives, some-Gives, bind-Gives, guard-Gives, if-Gives, integer-Gives, text-Gives,
}
use ovmesh_drpp.Preferences.Ranges.{step}

parse_board-InRange : (i : ℕ) (fields : Fields) → Gives BoardInRange (parse_board i fields)
unfolding parse_board
parse_board-InRange i fields =
    bind-Gives IsBytes BoardInRange _ _ (text-Gives 1024 (board_name i (codes "path")) fields)
      (λ a ha.
        bind-Gives IsBytes BoardInRange _ _ (text-Gives 2048 (board_name i (codes "id")) fields)
          (λ b hb. step BoardInRange (boolean (board_name i (codes "packets")) fields) _ (λ _.
            bind-Gives (λ n. n ≤ max_u64) BoardInRange _ _
              (integer-Gives max_u64 (board_name i (codes "frequency_hz")) fields)
              (λ c hc.
                bind-Gives (λ n. n ≤ max_u32) BoardInRange _ _
                  (integer-Gives max_u32 (board_name i (codes "bandwidth_hz")) fields)
                  (λ d hd.
                    bind-Gives (λ n. n ≤ max_u32) BoardInRange _ _
                      (integer-Gives max_u32 (board_name i (codes "sf")) fields)
                      (λ e he.
                        bind-Gives (λ n. n ≤ max_u32) BoardInRange _ _
                          (integer-Gives max_u32 (board_name i (codes "sync_word")) fields)
                          (λ g hg. some-Gives BoardInRange _ (record {
                            device_path = ha;
                            device_id = hb;
                            frequency_hz = hc;
                            bandwidth_hz = hd;
                            spreading_factor = he;
                            sync_word = hg;
                          }))))))))

parse_boards-InRange :
    (left i : ℕ) (fields : Fields) → Gives (All BoardInRange) (parse_boards left i fields)
unfolding parse_boards
parse_boards-InRange zero i fields = some-Gives (All BoardInRange) [] tt
parse_boards-InRange (suc left) i fields =
    bind-Gives BoardInRange (All BoardInRange) (parse_board i fields) _
      (parse_board-InRange i fields)
      (λ b hb.
        bind-Gives (All BoardInRange) (All BoardInRange) (parse_boards left (i + 1) fields) _
          (parse_boards-InRange left (i + 1) fields)
          (λ bs hbs. some-Gives (All BoardInRange) (b ∷ bs) (hb, hbs)))

pub parse_concentrators-InRange :
    (version : ℕ) (fields : Fields) (p : DesktopPreferences)
    → InRange p
    → Gives InRange (parse_concentrators version fields p)
unfolding parse_concentrators
parse_concentrators-InRange version fields p h =
    if-Gives InRange (ltb version 7) _ _ (some-Gives InRange p h) (
      step InRange (integer max_u32 (codes "rak_board_count") fields) _ (λ count.
        guard-Gives InRange
          (not (ltb count 1 || ltb 2 count)
            && length fields == (if version == 8 then 28 else 27) + count * 7)
          _
          (λ _. step InRange (boolean (codes "rak_scan_enabled") fields) _ (λ _.
            step InRange (boolean (codes "rak_decode_enabled") fields) _ (λ _.
              bind-Gives (λ n. n ≤ max_u32) InRange _ _
                (integer-Gives max_u32 (codes "rak_scan_step_hz") fields)
                (λ a ha.
                  bind-Gives (λ n. n ≤ max_u32) InRange _ _
                    (integer-Gives max_u32 (codes "rak_scan_samples") fields)
                    (λ b hb.
                      bind-Gives (All BoardInRange) InRange (parse_boards count 0 fields) _
                        (parse_boards-InRange count 0 fields)
                        (λ bs hbs. some-Gives InRange _ (record {
                          recording_directory = h.recording_directory;
                          gps_device_id = h.gps_device_id;
                          center_hz = h.center_hz;
                          sample_rate = h.sample_rate;
                          survey_span_hz = h.survey_span_hz;
                          lna_gain = h.lna_gain;
                          vga_gain = h.vga_gain;
                          tuning_offset_hz = h.tuning_offset_hz;
                          rtl_gain_tenths_db = h.rtl_gain_tenths_db;
                          scan_step_hz = ha;
                          scan_samples = hb;
                          boards = hbs;
                        })))))))))
