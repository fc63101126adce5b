-- ===== src/Preferences/Ranges.antt =====
-- What each part of `parse` of src/preferences.cpp reads are values of the fields' types.
use Prim.Native.Nat.{◌^◌}
use ovmesh_drpp.Base.{
  ℕ, ◌-◌, ◌≤◌, Option, some, ◌>>=◌, IsBytes, ltb, leb, ◌==◌, not, if◌then◌else◌, codes, arith,
}
use ovmesh_drpp.Decimal.RoundTrip.{Holds}
use ovmesh_drpp.Preferences.{DesktopPreferences, maximum_path_size, maximum_device_id_size}
use ovmesh_drpp.Preferences.Fields.{Fields, at, boolean, baud_value, max_u32, max_u64}
use ovmesh_drpp.Preferences.Parse.{
  default_preferences, receiver_value, parse_general, parse_receiver, parse_rtl, parse_public_key,
}
use ovmesh_drpp.Preferences.Sections.{InRange}
use ovmesh_drpp.Preferences.Gives.{
  Gives, IsAny, any, some-Gives, bind-Gives, if-Gives, integer-Gives, signed_integer-Gives,
  text-Gives,
}

pub default-InRange : InRange default_preferences
default-InRange = record {
  recording_directory = tt;
  gps_device_id = tt;
  center_hz = omega arith;
  sample_rate = omega arith;
  survey_span_hz = omega arith;
  lna_gain = omega arith;
  vga_gain = omega arith;
  tuning_offset_hz = omega arith;
  rtl_gain_tenths_db = omega arith;
  scan_step_hz = omega arith;
  scan_samples = omega arith;
  boards = (
    record {
      device_path = tt;
      device_id = tt;
      frequency_hz = omega arith;
      bandwidth_hz = omega arith;
      spreading_factor = omega arith;
      sync_word = omega arith;
    },
    tt,
  );
}

-- A step whose result needs no bound.
pub step :
    {A B : Type 0} (Q : B → Type 0) (o : Option A) (f : A → Option B)
    → ((a : A) → Gives Q (f a))
    → Gives Q (o >>= f)
step Q o f rest = bind-Gives IsAny Q o f (any o) (λ a _. rest a)

pub parse_general-InRange :
    (version : ℕ) (fields : Fields) (p : DesktopPreferences)
    → InRange p
    → Gives InRange (parse_general version fields p)
unfolding parse_general
parse_general-InRange version fields p h =
    step InRange (boolean (codes "gps_enabled") fields) _ (λ a.
      step InRange (boolean (codes "recording_enabled") fields) _ (λ b.
        step InRange
          (if leb 3 version then boolean (codes "discover_lora") fields else some p.discover_lora) _
          (λ c.
            step InRange
              (if leb 4 version
                then boolean (codes "compact_recording") fields
                else some p.compact_recording)
              _
              (λ d.
                bind-Gives IsBytes InRange _ _
                  (text-Gives maximum_path_size (codes "recording_directory") fields)
                  (λ e he.
                    bind-Gives IsBytes InRange _ _
                      (text-Gives maximum_device_id_size (codes "gps_device_id") fields)
                      (λ g hg. step InRange (at (codes "gps_baud") fields >>= baud_value) _ (λ i.
                        bind-Gives (Holds (2 ^ 63 - 1)) InRange _ _
                          (if-Gives (Holds (2 ^ 63 - 1)) (version == 1) _ _
                            (some-Gives (Holds (2 ^ 63 - 1)) p.tuning_offset_hz h.tuning_offset_hz)
                            (signed_integer-Gives (2 ^ 63 - 1) (codes "tuning_offset_hz") fields))
                          (λ j hj. some-Gives InRange _ (record {
                            recording_directory = he;
                            gps_device_id = hg;
                            center_hz = h.center_hz;
                            sample_rate = h.sample_rate;
                            survey_span_hz = h.survey_span_hz;
                            lna_gain = h.lna_gain;
                            vga_gain = h.vga_gain;
                            tuning_offset_hz = hj;
                            rtl_gain_tenths_db = h.rtl_gain_tenths_db;
                            scan_step_hz = h.scan_step_hz;
                            scan_samples = h.scan_samples;
                            boards = h.boards;
                          })))))))))

pub parse_receiver-InRange :
    (version : ℕ) (fields : Fields) (p : DesktopPreferences)
    → InRange p
    → Gives InRange (parse_receiver version fields p)
unfolding parse_receiver
parse_receiver-InRange version fields p h =
    if-Gives InRange (ltb version 5) _ _ (some-Gives InRange p h) (
      step InRange (at (codes "receiver_source") fields >>= receiver_value version) _ (λ _.
        bind-Gives (λ n. n ≤ max_u64) InRange _ _ (integer-Gives max_u64 (codes "center_hz") fields)
          (λ a ha.
            bind-Gives (λ n. n ≤ max_u32) InRange _ _
              (integer-Gives max_u32 (codes "sample_rate") fields)
              (λ b hb.
                bind-Gives (λ n. n ≤ max_u32) InRange _ _
                  (integer-Gives max_u32 (codes "survey_span_hz") fields)
                  (λ c hc.
                    bind-Gives (λ n. n ≤ max_u32) InRange _ _
                      (integer-Gives max_u32 (codes "lna_gain") fields)
                      (λ d hd.
                        bind-Gives (λ n. n ≤ max_u32) InRange _ _
                          (integer-Gives max_u32 (codes "vga_gain") fields)
                          (λ e he. step InRange (boolean (codes "amplifier") fields) _ (λ _.
                            step InRange (boolean (codes "decode_enabled") fields) _ (λ _.
                              step InRange (boolean (codes "spectrum_only") fields) _ (λ _.
                                step InRange (boolean (codes "mixed_fonts") fields) _ (λ _.
                                  step InRange (boolean (codes "mobile_position_display") fields) _
                                    (λ _. some-Gives InRange _ (record {
                                      recording_directory = h.recording_directory;
                                      gps_device_id = h.gps_device_id;
                                      center_hz = ha;
                                      sample_rate = hb;
                                      survey_span_hz = hc;
                                      lna_gain = hd;
                                      vga_gain = he;
                                      tuning_offset_hz = h.tuning_offset_hz;
                                      rtl_gain_tenths_db = h.rtl_gain_tenths_db;
                                      scan_step_hz = h.scan_step_hz;
                                      scan_samples = h.scan_samples;
                                      boards = h.boards;
                                    })))))))))))))

pub parse_rtl-InRange :
    (version : ℕ) (fields : Fields) (p : DesktopPreferences)
    → InRange p
    → Gives InRange (parse_rtl version fields p)
unfolding parse_rtl
parse_rtl-InRange version fields p h =
    if-Gives InRange (ltb version 6) _ _ (some-Gives InRange p h) (
      bind-Gives (Holds (2 ^ 31 - 1)) InRange _ _
        (signed_integer-Gives (2 ^ 31 - 1) (codes "rtl_gain_tenths_db") fields)
        (λ a ha. step InRange (boolean (codes "rtl_auto_gain") fields) _ (λ _.
          some-Gives InRange _ (record {
            recording_directory = h.recording_directory;
            gps_device_id = h.gps_device_id;
            center_hz = h.center_hz;
            sample_rate = h.sample_rate;
            survey_span_hz = h.survey_span_hz;
            lna_gain = h.lna_gain;
            vga_gain = h.vga_gain;
            tuning_offset_hz = h.tuning_offset_hz;
            rtl_gain_tenths_db = ha;
            scan_step_hz = h.scan_step_hz;
            scan_samples = h.scan_samples;
            boards = h.boards;
          }))))

pub parse_public_key-InRange :
    (version : ℕ) (fields : Fields) (p : DesktopPreferences)
    → InRange p
    → Gives InRange (parse_public_key version fields p)
unfolding parse_public_key
parse_public_key-InRange version fields p h =
    if-Gives InRange (not (version == 8)) _ _ (some-Gives InRange p h) (
      step InRange (boolean (codes "public_meshtastic_key_enabled") fields) _ (λ _.
        some-Gives InRange _ (record {
          recording_directory = h.recording_directory;
          gps_device_id = h.gps_device_id;
          center_hz = h.center_hz;
          sample_rate = h.sample_rate;
          survey_span_hz = h.survey_span_hz;
          lna_gain = h.lna_gain;
          vga_gain = h.vga_gain;
          tuning_offset_hz = h.tuning_offset_hz;
          rtl_gain_tenths_db = h.rtl_gain_tenths_db;
          scan_step_hz = h.scan_step_hz;
          scan_samples = h.scan_samples;
          boards = h.boards;
        })))
