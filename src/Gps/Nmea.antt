-- ===== src/Gps/Nmea.antt =====
-- `parse_nmea` of src/gps.cpp.
use ovmesh_drpp.Base.{
  ℕ, zero, suc, ◌-◌, Bool, true, false, not, ◌&&◌, ◌||◌, List, [], ◌∷◌, ◌++◌, Option, none, some,
  ◌>>=◌, ◌>>◌, guard, Bytes, length, take, drop, get_or, ltb, leb, ◌==◌, if◌then◌else◌, codes,
  equal, bit_xor, bit_or, ◌<<<◌, negsuc,
}
use ovmesh_drpp.Floats.{Doubles, whole}
use ovmesh_drpp.Preferences.Fields.{break_at}
use ovmesh_drpp.Gps.{PositionFix, maximum_sentence, invalidate, no_fix}
use ovmesh_drpp.Gps.Numbers.{
  bounded_integer, hex_value, decimal, clock_seconds, date_seconds, coordinate,
}

-- `ends_with`
abbrev pub ends_with : Bytes → (suffix : Bytes) → Bool
ends_with s suffix = equal (drop (length s - length suffix) s) suffix

-- The sentence without its line end.
unfoldable pub without_line_end : Bytes → Bytes
without_line_end s =
    if ends_with s (13 ∷ 10 ∷ [])
    then take (length s - 2) s
    else if ends_with s (10 ∷ [])
    then take (length s - 1) s
    else s

-- The loop of the checksum; a `char` above 0x7e is refused, whatever its sign is.
unfoldable pub checksum_loop : (checksum : ℕ) → Bytes → Option ℕ
checksum_loop checksum [] = some checksum
checksum_loop checksum (c ∷ s) =
    let next = checksum_loop (bit_xor checksum c) s in
    if ltb c 0x20 || ltb 0x7e c || c == b'$' then none else next

-- The text between `$` and `*`, if the checksum behind it fits.
unfoldable pub sentence_body : Bytes → Option Bytes
sentence_body sentence = do
  guard (leb 10 (length sentence) && get_or sentence 0 0 == b'$')
  (front, back) ← break_at b'*' sentence
  guard (length back == 2)
  h ← hex_value (get_or back 0 0)
  l ← hex_value (get_or back 1 0)
  checksum ← checksum_loop 0 (drop 1 front)
  guard (checksum == bit_or (h <<< 4) l)
  some (drop 1 front)

-- The fields between the commas, if there are `left` at most.
unfoldable pub split_commas : (left : ℕ) → Bytes → Option (List Bytes)
split_commas zero body = none
split_commas (suc left) body = elim (break_at b',' body) [
  | none ↦ some (body ∷ [])
  | some (field, rest) ↦ split_commas left rest >>= λ fields. some (field ∷ fields)
]

-- A field; one behind the last is empty.
abbrev pub field_at : List Bytes → ℕ → Bytes
field_at fields i = get_or fields i []

abbrev pub upper_case : ℕ → Bool
upper_case c = leb b'A' c && leb c b'Z'

-- The kind behind the two letters of the talker, if the number of fields fits it.
unfoldable pub sentence_kind : List Bytes → Option Bytes
sentence_kind fields = do
  let talker = field_at fields 0
  let count = length fields
  guard (length talker == 5 && upper_case (get_or talker 0 0) && upper_case (get_or talker 1 0))
  let kind = drop 2 talker
  guard (equal kind (codes "RMC") || equal kind (codes "GGA"))
  guard (not (equal kind (codes "RMC")) || (leb 12 count && leb count 14))
  guard (not (equal kind (codes "GGA")) || count == 15)
  some kind

unfoldable pub one_of : (letters field : Bytes) → Bool
one_of [] field = false
one_of (letter ∷ letters) field = equal field (letter ∷ []) || one_of letters field

module _ {F : Type 0} (d : Doubles F) where
  -- The end of `parse_nmea`: the fix is valid if the clocks agree.
  unfoldable pub conclude_fix : (received_utc : F) → PositionFix F → PositionFix F
  conclude_fix received_utc fix =
      let valid_fix = record fix { valid = true } in
      if d.less (whole d 10) (d.minus received_utc fix.utc_seconds)
        || d.less (whole d 5) (d.minus fix.utc_seconds received_utc)
      then invalidate (codes "stale/future sentence or host clock disagreement") valid_fix
      else valid_fix

  -- The branch for RMC, with the fix so far and the time of day.
  unfoldable pub parse_rmc :
      (received_utc time : F) → List Bytes → PositionFix F → Option (PositionFix F)
  parse_rmc received_utc time fields started = do
    let count = length fields
    let status = field_at fields 2
    let mode = field_at fields 12
    let navigation = field_at fields 13
    date ← date_seconds d (field_at fields 9)
    let fix = record started { utc_seconds = d.plus date time }
    guard (equal status (codes "A") || equal status (codes "V"))
    if equal status (codes "V")
        then some (invalidate (codes "receiver reports invalid fix") fix)
        else if ltb 12 count && (not (length mode == 0) && not (one_of (codes "ADFPR") mode))
        then some (invalidate (codes "unsupported or invalid navigation mode") fix)
        else if ltb 13 count
            && (not (length navigation == 0) && not (one_of (codes "ADV") navigation))
        then some (invalidate (codes "invalid navigation status") fix)
        else do
          lat ← coordinate d true (field_at fields 3) (field_at fields 4)
          lon ← coordinate d false (field_at fields 5) (field_at fields 6)
          some (conclude_fix received_utc (record fix { latitude = lat; longitude = lon }))

  -- The time of a GGA sentence, on the day for which it is nearest.
  unfoldable pub nearest_day : (received_utc time : F) → F
  nearest_day received_utc time =
      let day = d.times (d.floor (d.divide received_utc (whole d 86400))) (whole d 86400) in
      let utc = d.plus day time in
      let earlier =
        if d.less (whole d 43200) (d.minus utc received_utc)
        then d.minus utc (whole d 86400)
        else utc in
      if d.less (whole d 43200) (d.minus received_utc earlier)
      then d.plus earlier (whole d 86400)
      else earlier

  -- The altitude of a GGA sentence; an empty field gives none.
  unfoldable pub altitude : (value unit : Bytes) → Option (Option F)
  altitude value unit = if length value == 0 then some none else do
    read ← decimal d true value
    guard (
        not (d.less read (d.value (negsuc 11999)))
        && not (d.less (whole d 100000) read)
        && equal unit (codes "M"))
    some (some read)

  -- The branch for GGA.
  unfoldable pub parse_gga :
      (received_utc time : F) → List Bytes → PositionFix F → Option (PositionFix F)
  parse_gga received_utc time fields started = do
    let fix = record started { utc_seconds = nearest_day received_utc time }
    quality ← bounded_integer (field_at fields 6) 8
    if quality == 0
        then some (invalidate (codes "receiver reports no fix") fix)
        else if ltb 5 quality
        then some (invalidate (codes "estimated/manual/simulated fix excluded") fix)
        else do
          lat ← coordinate d true (field_at fields 2) (field_at fields 3)
          lon ← coordinate d false (field_at fields 4) (field_at fields 5)
          satellites ← bounded_integer (field_at fields 7) 99
          guard (not (satellites == 0))
          hdop ← decimal d false (field_at fields 8)
          guard (not (d.less (whole d 1000) hdop))
          altitude_m ← altitude (field_at fields 9) (field_at fields 10)
          some (
              conclude_fix received_utc (record fix {
                latitude = lat;
                longitude = lon;
                satellites = satellites;
                hdop = some hdop;
                altitude_m = altitude_m;
              }))

  unfoldable pub parse_nmea_fields :
      (received_monotonic received_utc : F) → List Bytes → Option (PositionFix F)
  parse_nmea_fields received_monotonic received_utc fields = do
    kind ← sentence_kind fields
    let origin =
        if equal kind (codes "RMC")
        then codes "; GNSS UTC"
        else codes "; date inferred from host UTC"
    let started = record (no_fix d) {
      monotonic_seconds = received_monotonic;
      utc_seconds = received_utc;
      source = codes "NMEA " ++ kind ++ origin;
    }
    time ← clock_seconds d (field_at fields 1)
    if equal kind (codes "RMC")
        then parse_rmc received_utc time fields started
        else parse_gga received_utc time fields started

  abbrev pub clocks_accepted : (received_monotonic received_utc : F) → Bool
  clocks_accepted received_monotonic received_utc =
      d.finite received_monotonic
      && not (d.less received_monotonic (whole d 0))
      && d.finite received_utc
      && not (d.less received_utc (whole d 0))
      && not (d.less (whole d 4102444800) received_utc)

  unfoldable pub parse_nmea :
      (sentence : Bytes) → (received_monotonic received_utc : F) → Option (PositionFix F)
  parse_nmea sentence received_monotonic received_utc = do
    guard
        (clocks_accepted received_monotonic received_utc && leb (length sentence) maximum_sentence)
    body ← sentence_body (without_line_end sentence)
    fields ← split_commas 20 body
    parse_nmea_fields received_monotonic received_utc fields
