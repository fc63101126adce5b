-- ===== src/Tests/Positions.antt =====
-- Runs of the modelled GPS receiver, and the instances of its theorems. Here every number is whole:
-- minutes lose their fraction, and positions are north and east.
use ovmesh_drpp.Base.{
  ℕ, ◌≡◌, ◌↔◌, refl, true, false, [], ◌∷◌, ◌++◌, none, some, Bytes, List, codes, equal, map,
}
use ovmesh_drpp.Tests.Numbers.{whole_numbers}
use ovmesh_drpp.Gps.{PositionFix, position_loop}
use ovmesh_drpp.Gps.Numbers.{
  sys_days, days_before_year, day_sum, month_lengths, is_leap, date_ok, digits, integer_loop,
  bounded_integer, whole_loop, fraction_loop, magnitude_value, decimal, clock_seconds, date_seconds,
  coordinate, hex_value,
}
use ovmesh_drpp.Gps.Nmea.{
  without_line_end, checksum_loop, sentence_body, split_commas, sentence_kind, one_of, conclude_fix,
  parse_rmc, parse_nmea_fields, parse_nmea,
}
use ovmesh_drpp.Gps.Valid.{IsTrusted, parse_nmea-IsTrusted}
use ovmesh_drpp.Gps.History.{position_at, IsLast, position_at_iff}
use ovmesh_drpp.Preferences.Fields.{break_at}
use ovmesh_drpp.Devices.{all_of, has_byte}
use ovmesh_drpp.Gps.Serial.{
  Arrival, arrived, valid_fix, complement, connect, call_back, order_fix, deliver, complete_line,
  take_byte, take_bytes, read_round, new_gps,
}
use ovmesh_drpp.Gps.Serial.Start.{
  status, opened, open_device, start_error, start_checked, start, has_text,
}
use ovmesh_drpp.Gps.Serial.Connection.{IsSerial}
use ovmesh_drpp.Gps.Serial.Shown.{IsShown}
use ovmesh_drpp.Gps.Serial.Life.{Event, round, started, happen, live, live-new_gps}

-- 2000-02-29 has 11016 days before it, since 1970.
leap_day : sys_days 2000 2 29 ≡ 11016
unfolding sys_days days_before_year day_sum month_lengths is_leap
leap_day = refl

no_leap_day : date_ok 2001 2 29 ≡ false
unfolding date_ok month_lengths is_leap
no_leap_day = refl

abbrev rmc_line : Bytes
rmc_line =
    codes "$GPRMC,123519,A,4807.038,N,01131.000,E,022.4,084.4,230394,003.1,W*6A" ++ 13 ∷ 10 ∷ []

abbrev rmc_fix : PositionFix ℕ
rmc_fix = record {
  latitude = 48;
  longitude = 11;
  altitude_m = none;
  utc_seconds = 764426119;
  monotonic_seconds = 50;
  valid = true;
  manual = false;
  source = codes "NMEA RMC; GNSS UTC";
  hdop = none;
  satellites = 0;
}

rmc_parsed : parse_nmea whole_numbers rmc_line 50 764426121 ≡ some rmc_fix
unfolding parse_nmea sentence_body without_line_end equal break_at hex_value checksum_loop
    split_commas parse_nmea_fields sentence_kind clock_seconds digits all_of bounded_integer
    integer_loop decimal magnitude_value whole_loop fraction_loop parse_rmc date_seconds date_ok
    sys_days days_before_year day_sum month_lengths is_leap one_of coordinate conclude_fix
rmc_parsed = refl

parse_nmea-IsTrusted_example : IsTrusted whole_numbers rmc_line 50 764426121 rmc_fix
parse_nmea-IsTrusted_example =
    parse_nmea-IsTrusted whole_numbers 50 764426121 rmc_line rmc_fix rmc_parsed refl

abbrev old_fix : PositionFix ℕ
old_fix = record rmc_fix { monotonic_seconds = 40 }

abbrev late_fix : PositionFix ℕ
late_fix = record rmc_fix { monotonic_seconds = 60 }

position_at_iff_example :
    (position_at whole_numbers 51 (old_fix ∷ rmc_fix ∷ late_fix ∷ []) ≡ some rmc_fix)
    ↔ IsLast whole_numbers 51 rmc_fix (old_fix ∷ rmc_fix ∷ late_fix ∷ [])
position_at_iff_example =
    position_at_iff whole_numbers 51 (old_fix ∷ rmc_fix ∷ late_fix ∷ []) rmc_fix refl refl

-- A newer fix that is invalid hides the older one.
position_hidden :
    position_at whole_numbers 51 (rmc_fix ∷ record rmc_fix { valid = false } ∷ []) ≡ none
unfolding position_at position_loop
position_hidden = refl

abbrev arrivals : Bytes → List (Arrival ℕ)
arrivals s =
    map (λ (c : ℕ). record { byte = c; monotonic = 50; utc = 764426121; callback_throws = false }) s

abbrev connected : List (Event whole_numbers)
connected =
    started true (codes "/dev/ttyACM0") 9600 opened
    ∷ round (arrived (arrivals (codes "noise$GP" ++ rmc_line ++ codes "$GPGGA")))
    ∷ []

-- The sentence behind the noise is delivered, and the next one is pending.
connected_state :
    live whole_numbers connected (new_gps whole_numbers) ≡ record (new_gps whole_numbers) {
      running = true;
      worker = true;
      pending = codes "$GPGGA";
      last_utc = 764426119;
      last_monotonic = 50;
      last_fix = some rmc_fix;
      connection = record {
        state = valid_fix;
        device_path = codes "/dev/ttyACM0";
        detail = codes "GPS fix valid";
      };
      fresh_fix_monotonic = 50;
    }
unfolding live happen start start_checked start_error open_device read_round take_bytes take_byte
    complete_line deliver order_fix connect call_back complement has_byte has_text equal parse_nmea
    sentence_body without_line_end break_at hex_value checksum_loop split_commas parse_nmea_fields
    sentence_kind clock_seconds digits all_of bounded_integer integer_loop decimal magnitude_value
    whole_loop fraction_loop parse_rmc date_seconds date_ok sys_days days_before_year day_sum
    month_lengths is_leap one_of coordinate conclude_fix
connected_state = refl

live-new_gps_example :
    IsSerial (live whole_numbers connected (new_gps whole_numbers))
    × IsShown whole_numbers 51
        (status whole_numbers 51 (live whole_numbers connected (new_gps whole_numbers))).state
        (live whole_numbers connected (new_gps whole_numbers)).last_fix
live-new_gps_example = live-new_gps whole_numbers connected 51
