-- ===== src/Gps.antt =====
-- The GPS receiver: src/gps.cpp, and the position of include/ovmesh/survey.hpp. A `double` is a
-- value of a type `F`; a `std::string` is the list of its bytes.
pub mod Numbers
pub mod Nmea
pub mod Checksum
pub mod Origin
pub mod Branches
pub mod Valid
pub mod History
pub mod Serial
use ovmesh_drpp.Base.{
  ℕ, zero, Bool, false, not, ◌||◌, List, [], ◌∷◌, ◌++◌, Option, none, some, Bytes, if◌then◌else◌,
  codes,
}
use ovmesh_drpp.Floats.{Doubles, whole}

pub record PositionFix (F : Type 0) : Type 0 where
  pub latitude : F
  pub longitude : F
  pub altitude_m : Option F
  pub utc_seconds : F
  pub monotonic_seconds : F
  pub valid : Bool
  pub manual : Bool
  pub source : Bytes
  pub hdop : Option F
  pub satellites : ℕ

-- The longest sentence, with its line end.
abbrev pub maximum_sentence : ℕ
maximum_sentence = 128

module _ {F : Type 0} where
  abbrev pub invalidate : (reason : Bytes) → PositionFix F → PositionFix F
  invalidate reason fix = record fix { valid = false; source = fix.source ++ codes "; " ++ reason }

module _ {F : Type 0} (d : Doubles F) where
  -- `PositionFix{}`
  abbrev pub no_fix : PositionFix F
  no_fix = record {
    latitude = whole d 0;
    longitude = whole d 0;
    altitude_m = none;
    utc_seconds = whole d 0;
    monotonic_seconds = whole d 0;
    valid = false;
    manual = false;
    source = [];
    hdop = none;
    satellites = 0;
  }

  -- The test of the fix at which the loop of `position_at` stops.
  abbrev pub is_current : (target : F) → PositionFix F → Bool
  is_current target fix =
      fix.manual || d.less_equal (d.minus target fix.monotonic_seconds) (whole d 2)

  -- The loop, over the history from its last fix on.
  unfoldable pub position_loop : (target : F) → List (PositionFix F) → Option (PositionFix F)
  position_loop target [] = none
  position_loop target (fix ∷ older) =
      let before = position_loop target older in
      if d.less target fix.monotonic_seconds
      then before
      else if not fix.valid
      then none
      else if is_current target fix
      then some fix
      else none
