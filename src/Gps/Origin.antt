-- ===== src/Gps/Origin.antt =====
-- What the fields of a sentence say of a fix that `parse_nmea` of src/gps.cpp calls valid.
use ovmesh_drpp.Base.{
  ℕ, ◌≤◌, true, false, not, ◌&&◌, ◌||◌, List, some, Bytes, length, ltb, ◌==◌, codes, Bool-cases,
  ◌≡◌, ◌⊎◌, inl, inr, refl, arith,
}
use ovmesh_drpp.Floats.{Doubles, whole}
use ovmesh_drpp.Gps.{PositionFix}
use ovmesh_drpp.Gps.Numbers.{bounded_integer, decimal, clock_seconds, date_seconds, coordinate}
use ovmesh_drpp.Gps.Nmea.{field_at, one_of, conclude_fix, nearest_day}

-- An optional field is absent, empty or one of the letters.
abbrev pub MayBe : (letters : Bytes) → List Bytes → (i : ℕ) → Type 0
MayBe letters fields i =
    (length fields ≤ i)
    ⊎ ((length (field_at fields i) ≡ 0) ⊎ (one_of letters (field_at fields i) ≡ true))

module _ {F : Type 0} (d : Doubles F) where
  -- The clock of the host and that of the fix agree.
  abbrev pub IsFresh : (received_utc : F) → PositionFix F → Type 0
  IsFresh received_utc fix =
      (d.less (whole d 10) (d.minus received_utc fix.utc_seconds) ≡ false)
      × (d.less (whole d 5) (d.minus fix.utc_seconds received_utc) ≡ false)

  -- A fix that the fields of an RMC sentence give: its status is A, no field names a simulated or
  -- estimated position, and date, time and position are read from the fields.
  pub record IsRmcFix (fields : List Bytes) (fix : PositionFix F) : Type 0 where
    pub status : field_at fields 2 ≡ codes "A"
    pub mode : MayBe (codes "ADFPR") fields 12
    pub navigation : MayBe (codes "ADV") fields 13
    pub time :
        (date : F) × (time : F) × (date_seconds d (field_at fields 9) ≡ some date)
        × (clock_seconds d (field_at fields 1) ≡ some time)
        × (fix.utc_seconds ≡ d.plus date time)
    pub latitude : coordinate d true (field_at fields 3) (field_at fields 4) ≡ some fix.latitude
    pub longitude : coordinate d false (field_at fields 5) (field_at fields 6) ≡ some fix.longitude

  -- The same for GGA, whose quality is that of a measured position.
  pub record IsGgaFix (received_utc : F) (fields : List Bytes) (fix : PositionFix F) : Type 0 where
    pub quality : (q : ℕ) × (bounded_integer (field_at fields 6) 8 ≡ some q) × (1 ≤ q) × (q ≤ 5)
    pub time :
        (time : F) × (clock_seconds d (field_at fields 1) ≡ some time)
        × (fix.utc_seconds ≡ nearest_day d received_utc time)
    pub latitude : coordinate d true (field_at fields 2) (field_at fields 3) ≡ some fix.latitude
    pub longitude : coordinate d false (field_at fields 4) (field_at fields 5) ≡ some fix.longitude
    pub satellites : bounded_integer (field_at fields 7) 99 ≡ some fix.satellites
    pub some_satellite : 1 ≤ fix.satellites
    pub precision : decimal d false (field_at fields 8) ≡ fix.hdop

  -- The rest of a fix: when it was received, and that nobody typed it in.
  abbrev pub IsReceived : (received_monotonic received_utc : F) → PositionFix F → Type 0
  IsReceived received_monotonic received_utc fix =
      IsFresh received_utc fix × (fix.monotonic_seconds ≡ received_monotonic) × (fix.manual ≡ false)

  pub conclude_fix-valid :
      (received_utc : F) (fix : PositionFix F)
      → (conclude_fix d received_utc fix).valid ≡ true
      → IsFresh received_utc fix × (conclude_fix d received_utc fix ≡ record fix { valid = true })
  unfolding conclude_fix
  conclude_fix-valid received_utc fix v =
      elim (Bool-cases (
        d.less (whole d 10) (d.minus received_utc fix.utc_seconds)
        || d.less (whole d 5) (d.minus fix.utc_seconds received_utc))) [
          | inl late ↦ let no : false ≡ true = rw late at v in cc
          | inr fresh ↦ ((ground arith, ground arith), rw fresh refl)
        ]

  abbrev pub RmcResult : (received_monotonic received_utc : F) → List Bytes → PositionFix F → Type 0
  RmcResult received_monotonic received_utc fields fix =
      fix.valid ≡ true → IsRmcFix fields fix × IsReceived received_monotonic received_utc fix

  abbrev pub GgaResult : (received_monotonic received_utc : F) → List Bytes → PositionFix F → Type 0
  GgaResult received_monotonic received_utc fields fix =
      fix.valid ≡ true
      → IsGgaFix received_utc fields fix × IsReceived received_monotonic received_utc fix

pub may_be :
    (letters : Bytes) (fields : List Bytes) (i : ℕ)
    → ltb i (length fields)
        && (not (length (field_at fields i) == 0) && not (one_of letters (field_at fields i)))
      ≡ false
    → MayBe letters fields i
may_be letters fields i e = elim (Bool-cases (ltb i (length fields))) [
  | inr few ↦ inl (ground arith)
  | inl many ↦ elim (Bool-cases (length (field_at fields i) == 0)) [
    | inl empty ↦ inr (inl (ground arith))
    | inr full ↦ inr (inr (ground arith))
  ]
]
