-- ===== src/Gps/Serial/Shown.antt =====
-- What `status` of `SerialGps` in src/gps.cpp reports.
use ovmesh_drpp.Base.{true, false, ◌&&◌, Option, some, Bool-cases, ◌≡◌, inl, inr}
use ovmesh_drpp.Floats.{Doubles}
use ovmesh_drpp.Gps.Serial.{SerialGps}
use ovmesh_drpp.Gps.Serial.Start.{status}
use ovmesh_drpp.Floats.{whole}
use ovmesh_drpp.Base.{subst, sym}
use ovmesh_drpp.Gps.{PositionFix}
use ovmesh_drpp.Gps.Serial.{
  GpsConnectionState, unconnected, waiting_for_fix, valid_fix, stale_fix, read_error, is_valid_fix,
}
use ovmesh_drpp.Gps.Serial.Connection.{Fits, IsKept, IsSerial}

module _ {F : Type 0} (d : Doubles F) where
  -- What the status may say at a time: a valid fix only while a valid one is kept that is at most
  -- two seconds old.
  abbrev pub IsShown : (now : F) → GpsConnectionState → Option (PositionFix F) → Type 0
  IsShown now unconnected last = Unit
  IsShown now waiting_for_fix last = Unit
  IsShown now valid_fix last =
      (fix : PositionFix F) × (last ≡ some fix)
      × (fix.valid ≡ true)
      × (d.less (whole d 2) (d.minus now fix.monotonic_seconds) ≡ false)
  IsShown now stale_fix last = Unit
  IsShown now read_error last = Unit

  shown :
      (now : F) (state : GpsConnectionState) (last : Option (PositionFix F))
      (fresh last_monotonic : F)
      → Fits state last fresh
      → IsKept last_monotonic last
      → is_valid_fix state && d.less (whole d 2) (d.minus now fresh) ≡ false
      → IsShown now state last
  shown now unconnected last fresh last_monotonic f k e = tt
  shown now waiting_for_fix last fresh last_monotonic f k e = tt
  shown now valid_fix last fresh last_monotonic (fix, held, age) k e =
      let kept : IsKept last_monotonic (some fix) = subst (IsKept last_monotonic) held k in
      (fix, held, kept.0, subst (λ t. d.less (whole d 2) (d.minus now t) ≡ false) (sym age) e)
  shown now stale_fix last fresh last_monotonic f k e = tt
  shown now read_error last fresh last_monotonic f k e = tt

  pub status-IsShown :
      (now : F) (s : SerialGps F) → IsSerial s → IsShown now (status d now s).state s.last_fix
  unfolding status
  status-IsShown now s h =
      elim (Bool-cases (
        is_valid_fix s.connection.state
        && d.less (whole d 2) (d.minus now s.fresh_fix_monotonic))) [
          | inl old ↦ rw old tt
          | inr young ↦ rw young (
              shown now s.connection.state s.last_fix s.fresh_fix_monotonic s.last_monotonic h.fits
                h.kept young)
        ]
