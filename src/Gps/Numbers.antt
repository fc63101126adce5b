-- ===== src/Gps/Numbers.antt =====
-- The numbers in the fields of a sentence: `digits`, `integer`, `decimal`, `clock_seconds`,
-- `date_seconds`, `coordinate` and `hex` of src/gps.cpp. The calendar is that of `std::chrono`.
use ovmesh_drpp.Base.{
  ℕ, zero, suc, ◌+◌, ◌-◌, ◌*◌, ◌%◌, Bool, false, not, ◌&&◌, ◌||◌, List, [], ◌∷◌, Option, none, some,
  ◌>>=◌, ◌>>◌, guard, Bytes, length, take, drop, get_or, ltb, leb, ◌==◌, if◌then◌else◌, codes,
  equal,
}
use ovmesh_drpp.Floats.{Doubles, whole, fraction}
use ovmesh_drpp.Devices.{all_of, digit_char}
use ovmesh_drpp.Preferences.Fields.{break_at}

unfoldable pub digits : Bytes → Bool
digits value = not (length value == 0) && all_of digit_char value

-- The loop of `integer`, with its test after each digit.
unfoldable pub integer_loop : (maximum result : ℕ) → Bytes → Option ℕ
integer_loop maximum result [] = some result
integer_loop maximum result (c ∷ value) =
    let next = integer_loop maximum (result * 10 + (c - b'0')) value in
    if ltb maximum (result * 10 + (c - b'0')) then none else next

unfoldable pub bounded_integer : Bytes → (maximum : ℕ) → Option ℕ
bounded_integer value maximum = do
  guard (digits value && leb (length value) 9)
  integer_loop maximum 0 value

unfoldable pub is_leap : (year : ℕ) → Bool
is_leap year = year % 4 == 0 && (not (year % 100 == 0) || year % 400 == 0)

-- The days of each month of a year.
unfoldable pub month_lengths : (year : ℕ) → List ℕ
month_lengths year =
    31 ∷ (if is_leap year then 29 else 28) ∷ 31 ∷ 30 ∷ 31 ∷ 30 ∷ 31 ∷ 31 ∷ 30 ∷ 31 ∷ 30 ∷ 31 ∷ []

unfoldable pub day_sum : List ℕ → ℕ
day_sum [] = 0
day_sum (days ∷ months) = days + day_sum months

-- The days from 1970 on to the first day of a year, for `years` years behind 1970.
unfoldable pub days_before_year : (years : ℕ) → ℕ
days_before_year zero = 0
days_before_year (suc years) = days_before_year years + day_sum (month_lengths (1970 + years))

-- `std::chrono::sys_days` of a date of the calendar.
unfoldable pub sys_days : (year month day : ℕ) → ℕ
sys_days year month day =
    days_before_year (year - 1970) + day_sum (take (month - 1) (month_lengths year)) + (day - 1)

-- `year_month_day::ok`
unfoldable pub date_ok : (year month day : ℕ) → Bool
date_ok year month day =
    not (month == 0)
    && leb month 12
    && not (day == 0)
    && leb day (get_or (month_lengths year) (month - 1) 0)

unfoldable pub hex_value : (c : ℕ) → Option ℕ
hex_value c =
    if leb b'0' c && leb c b'9'
    then some (c - b'0')
    else if leb b'A' c && leb c b'F'
    then some (c - b'A' + 10)
    else if leb b'a' c && leb c b'f'
    then some (c - b'a' + 10)
    else none

module _ {F : Type 0} (d : Doubles F) where
  -- The loop over the digits in front of the point.
  unfoldable pub whole_loop : (result : F) → Bytes → F
  whole_loop result [] = result
  whole_loop result (c ∷ value) =
      whole_loop (d.plus (d.times result (whole d 10)) (whole d (c - b'0'))) value

  -- The loop over those behind it.
  unfoldable pub fraction_loop : (result scale : F) → Bytes → F
  fraction_loop result scale [] = result
  fraction_loop result scale (c ∷ value) =
      fraction_loop (d.plus result (d.times (whole d (c - b'0')) scale))
        (d.times scale (fraction d 1 10)) value

  -- `decimal` behind the sign.
  unfoldable pub magnitude_value : Bytes → Option F
  magnitude_value value = elim (break_at b'.' value) [
    | none ↦ do guard (digits value && leb (length value) 9); some (whole_loop (whole d 0) value)
    | some (front, back) ↦ do
      guard (digits front && leb (length front) 9)
      guard (digits back && leb (length back) 12)
      some (fraction_loop (whole_loop (whole d 0) front) (fraction d 1 10) back)
  ]

  unfoldable pub decimal : (signed_value : Bool) → Bytes → Option F
  decimal signed_value value = do
    guard (not (length value == 0) && leb (length value) 24)
    let negative = get_or value 0 0 == b'-' && signed_value
    result ← magnitude_value (if negative then drop 1 value else value)
    some (d.times result (if negative then d.negate (whole d 1) else whole d 1))

  unfoldable pub clock_seconds : Bytes → Option F
  clock_seconds value = do
    guard (
        leb 6 (length value)
        && digits (take 6 value)
        && (leb (length value) 6 || get_or value 6 0 == b'.'))
    hour ← bounded_integer (take 2 value) 23
    minute ← bounded_integer (take 2 (drop 2 value)) 59
    second ← decimal false (drop 4 value)
    guard (not (d.less_equal (whole d 60) second))
    some (d.plus (whole d (hour * 3600 + minute * 60)) second)

  unfoldable pub date_seconds : Bytes → Option F
  date_seconds date = do
    guard (length date == 6 && digits date)
    day ← bounded_integer (take 2 date) 31
    month ← bounded_integer (take 2 (drop 2 date)) 12
    year ← bounded_integer (take 2 (drop 4 date)) 99
    guard (not (day == 0) && not (month == 0))
    let full_year = if leb 80 year then 1900 + year else 2000 + year
    guard (date_ok full_year month day)
    some (whole d (sys_days full_year month day * 86400))

  unfoldable pub coordinate : (latitude : Bool) → (value direction : Bytes) → Option F
  coordinate latitude value direction = do
    let degree_digits = if latitude then 2 else 3
    let limit = if latitude then 90 else 180
    guard (
        leb (degree_digits + 2) (length value)
        && (leb (length value) (degree_digits + 2) || get_or value (degree_digits + 2) 0 == b'.'))
    degree ← bounded_integer (take degree_digits value) limit
    minute ← decimal false (drop degree_digits value)
    guard (not (d.less_equal (whole d 60) minute))
    guard (not (degree == limit) || d.same minute (whole d 0))
    let result = d.plus (whole d degree) (d.divide minute (whole d 60))
    if equal direction (if latitude then codes "S" else codes "W")
        then some (d.negate result)
        else if equal direction (if latitude then codes "N" else codes "E")
        then some result
        else none
