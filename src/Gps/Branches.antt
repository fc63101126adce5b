-- ===== src/Gps/Branches.antt =====
-- The branches of `parse_nmea` in src/gps.cpp for the two kinds of sentences.
use ovmesh_drpp.Base.{
  true, false, not, ◌&&◌, ◌||◌, List, some, Gives, bind-Gives, guard-Gives, if-Gives, some-Gives,
  Bytes, length, ltb, ◌==◌, equal, equal_iff, codes, ◌≡◌, refl, arith,
}
use ovmesh_drpp.Floats.{Doubles, whole}
use ovmesh_drpp.Gps.{PositionFix}
use ovmesh_drpp.Gps.Numbers.{bounded_integer, decimal, clock_seconds, date_seconds, coordinate}
use ovmesh_drpp.Gps.Nmea.{
  field_at, one_of, conclude_fix, nearest_day, altitude, parse_rmc, parse_gga,
}
use ovmesh_drpp.Gps.Origin.{conclude_fix-valid, RmcResult, GgaResult, may_be}

module _ {F : Type 0} (d : Doubles F) (received_monotonic received_utc time : F)
    (fields : List Bytes) (started : PositionFix F) where
  module _ (manual : started.manual ≡ false)
      (received : started.monotonic_seconds ≡ received_monotonic)
      (read_time : clock_seconds d (field_at fields 1) ≡ some time) where
    pub parse_rmc-Gives :
        Gives
          (RmcResult d received_monotonic received_utc fields)
          (parse_rmc d received_utc time fields started)
    unfolding parse_rmc
    parse_rmc-Gives = bind-Gives (date_seconds d (field_at fields 9)) _ (λ date dated.
        guard-Gives (equal (field_at fields 2) (codes "A") || equal (field_at fields 2) (codes "V"))
          _
          (λ known.
            if-Gives (equal (field_at fields 2) (codes "V")) _ _ (λ _. some-Gives _ (λ no. cc))
              (λ active.
                let status = (equal_iff (field_at fields 2) (codes "A")).0 (ground arith) in
                if-Gives
                  (ltb 12 (length fields)
                    && (not (length (field_at fields 12) == 0)
                        && not (one_of (codes "ADFPR") (field_at fields 12))))
                  _ _ (λ _. some-Gives _ (λ no. cc))
                  (λ mode.
                    if-Gives
                      (ltb 13 (length fields)
                        && (not (length (field_at fields 13) == 0)
                            && not (one_of (codes "ADV") (field_at fields 13))))
                      _ _ (λ _. some-Gives _ (λ no. cc))
                      (λ navigation.
                        bind-Gives (coordinate d true (field_at fields 3) (field_at fields 4)) _
                          (λ lat latitude.
                            bind-Gives (coordinate d false (field_at fields 5) (field_at fields 6))
                              _
                              (λ lon longitude.
                                let fix : PositionFix F = record started {
                                  utc_seconds = d.plus date time;
                                  latitude = lat;
                                  longitude = lon;
                                } in
                                some-Gives (conclude_fix d received_utc fix) (λ v.
                                  let (fresh, same) = conclude_fix-valid d received_utc fix v in
                                  rw same (
                                    record {
                                      status = status;
                                      mode = may_be _ fields 12 mode;
                                      navigation = may_be _ fields 13 navigation;
                                      time = (date, time, dated, read_time, refl);
                                      latitude = latitude;
                                      longitude = longitude;
                                    },
                                    (fresh, received, manual),
                                  )))))))))

    pub parse_gga-Gives :
        Gives
          (GgaResult d received_monotonic received_utc fields)
          (parse_gga d received_utc time fields started)
    unfolding parse_gga
    parse_gga-Gives = bind-Gives (bounded_integer (field_at fields 6) 8) _ (λ q quality.
        if-Gives (q == 0) _ _ (λ _. some-Gives _ (λ no. cc))
          (λ some_fix.
            if-Gives (ltb 5 q) _ _ (λ _. some-Gives _ (λ no. cc))
              (λ measured.
                bind-Gives (coordinate d true (field_at fields 2) (field_at fields 3)) _
                  (λ lat latitude.
                    bind-Gives (coordinate d false (field_at fields 4) (field_at fields 5)) _
                      (λ lon longitude.
                        bind-Gives (bounded_integer (field_at fields 7) 99) _ (λ n satellites.
                          guard-Gives (not (n == 0)) _ (λ some_satellite.
                            bind-Gives (decimal d false (field_at fields 8)) _ (λ hdop precision.
                              guard-Gives (not (d.less (whole d 1000) hdop)) _ (λ _.
                                bind-Gives (altitude d (field_at fields 9) (field_at fields 10)) _
                                  (λ altitude_m _.
                                    let fix : PositionFix F = record started {
                                      utc_seconds = nearest_day d received_utc time;
                                      latitude = lat;
                                      longitude = lon;
                                      satellites = n;
                                      hdop = some hdop;
                                      altitude_m = altitude_m;
                                    } in
                                    some-Gives (conclude_fix d received_utc fix) (λ v.
                                      let (fresh, same) = conclude_fix-valid d received_utc fix v in
                                      rw same (
                                        record {
                                          quality = (q, quality, ground arith, ground arith);
                                          time = (time, read_time, refl);
                                          latitude = latitude;
                                          longitude = longitude;
                                          satellites = satellites;
                                          some_satellite = ground arith;
                                          precision = precision;
                                        },
                                        (fresh, received, manual),
                                      ))))))))))))
