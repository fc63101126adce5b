-- ===== src/Gps/Serial.antt =====
-- The serial receiver: `SerialGps` and its `Impl` of src/gps.cpp, with the connection's state of
-- include/ovmesh/engine.hpp. The clocks, the callback and the operating system (POSIX) answer by
-- arguments; the worker thread's loop is a sequence of rounds.
pub mod Connection
pub mod Life
pub mod Shown
pub mod Start
use ovmesh_drpp.Base.{
  ℕ, ◌-◌, Bool, true, false, not, ◌&&◌, ◌||◌, List, [], ◌∷◌, ◌++◌, Option, none, some, Bytes,
  length, ltb, leb, ◌==◌, if◌then◌else◌, codes, negsuc,
}
use ovmesh_drpp.Floats.{Doubles, whole, fraction}
use ovmesh_drpp.Devices.{has_byte, starts_with}
use ovmesh_drpp.Gps.{PositionFix, maximum_sentence, invalidate, no_fix}
use ovmesh_drpp.Gps.Nmea.{parse_nmea}

pub data GpsConnectionState : Type 0 where
  unconnected waiting_for_fix valid_fix stale_fix read_error : GpsConnectionState

pub record GpsConnectionStatus : Type 0 where
  pub state : GpsConnectionState
  pub device_path : Bytes
  pub detail : Bytes

-- `worker` is whether the thread can be joined.
pub record SerialGps (F : Type 0) : Type 0 where
  pub running : Bool
  pub worker : Bool
  pub pending : Bytes
  pub last_utc : F
  pub last_monotonic : F
  pub last_fix : Option (PositionFix F)
  pub connection : GpsConnectionStatus
  pub fresh_fix_monotonic : F

-- A byte of the device, with the clocks as `bytes` would read them behind it, and whether the
-- callback would throw.
pub record Arrival (F : Type 0) : Type 0 where
  pub byte : ℕ
  pub monotonic : F
  pub utc : F
  pub callback_throws : Bool

-- How a round of `read_loop` goes on behind `poll`.
pub data Round (F : Type 0) : Type 0 where
  nothing : Round F
  arrived : List (Arrival F) → Round F
  lost : (monotonic utc : F) (callback_throws : Bool) → Round F

abbrev pub no_connection : GpsConnectionStatus
no_connection = record { state = unconnected; device_path = []; detail = codes "GPS disconnected" }

abbrev pub is_read_error : GpsConnectionState → Bool
is_read_error read_error = true
is_read_error _ = false

abbrev pub is_valid_fix : GpsConnectionState → Bool
is_valid_fix valid_fix = true
is_valid_fix _ = false

abbrev pub with_state :
    GpsConnectionState → (detail : Bytes) → GpsConnectionStatus → GpsConnectionStatus
with_state state detail c = record c { state = state; detail = detail }

abbrev pub or_last : {A : Type 0} → Option A → Option A → Option A
or_last none last = last
or_last (some a) last = some a

module _ {F : Type 0} where
  -- What a fix of the same epoch takes over from the last one.
  unfoldable pub complement : Option (PositionFix F) → PositionFix F → PositionFix F
  complement none fix = fix
  complement (some last) fix = record fix {
    altitude_m = or_last fix.altitude_m last.altitude_m;
    hdop = or_last fix.hdop last.hdop;
    satellites = if fix.satellites == 0 then last.satellites else fix.satellites;
  }

  -- The change of the status, under its lock.
  unfoldable pub connect : PositionFix F → SerialGps F → SerialGps F
  connect fix s =
      if is_read_error s.connection.state
      then s
      else if fix.valid
      then record s {
        connection = with_state valid_fix (codes "GPS fix valid") s.connection;
        fresh_fix_monotonic = fix.monotonic_seconds;
      }
      else record s {
        connection = elim s.last_fix [
          | some _ ↦
              with_state stale_fix (codes "GPS fix lost; waiting for a valid fix") s.connection
          | none ↦
              with_state waiting_for_fix (codes "GPS connected; waiting for a valid fix")
                s.connection
        ];
      }

  -- The call of the callback, with its handler.
  unfoldable pub call_back : (callback_throws : Bool) → SerialGps F → SerialGps F
  call_back throws s =
      if throws
      then record s {
        running = false;
        connection = with_state read_error (codes "GPS receiver callback failed") s.connection;
      }
      else s

module _ {F : Type 0} (d : Doubles F) where
  -- The order of a valid fix behind the last ones, and what is kept of it.
  unfoldable pub order_fix : PositionFix F → SerialGps F → PositionFix F × SerialGps F
  order_fix fix s =
      let same_epoch =
        record (complement s.last_fix (record fix { monotonic_seconds = s.last_monotonic })) {
          source = fix.source ++ codes "; same epoch freshness preserved";
        } in
      if d.less fix.utc_seconds (d.minus s.last_utc (fraction d 1 10000))
      then (invalidate (codes "out-of-order fix") fix, s)
      else if d.less (d.magnitude (d.minus fix.utc_seconds s.last_utc)) (fraction d 1 10000)
      then (same_epoch, record s { last_fix = some same_epoch })
      else (
        fix,
        record s {
          last_utc = fix.utc_seconds;
          last_monotonic = fix.monotonic_seconds;
          last_fix = some fix;
        },
      )

  -- The fix that the callback gets, and the state behind it.
  unfoldable pub deliver :
      (callback_throws : Bool) → PositionFix F → SerialGps F → PositionFix F × SerialGps F
  deliver throws fix s =
      let ordered = if fix.valid then order_fix fix s else (fix, s) in
      (ordered.0, call_back throws (connect ordered.0 ordered.1))

  -- A line is complete: it is parsed, and a fix is delivered.
  unfoldable pub complete_line : Arrival F → SerialGps F → List (PositionFix F) × SerialGps F
  complete_line a s = elim (parse_nmea d (s.pending ++ a.byte ∷ []) a.monotonic a.utc) [
    | none ↦ ([], record s { pending = [] })
    | some fix ↦
        let delivered = deliver a.callback_throws fix s in
        (delivered.0 ∷ [], record delivered.1 { pending = [] })
  ]

  -- One round of the loop of `bytes`.
  unfoldable pub take_byte : Arrival F → SerialGps F → List (PositionFix F) × SerialGps F
  take_byte a s =
      if a.byte == b'$'
      then ([], record s { pending = b'$' ∷ [] })
      else if length s.pending == 0
      then ([], s)
      else if a.byte == 10
      then complete_line a s
      else if leb (maximum_sentence - 1) (length s.pending)
          || (not (a.byte == 13) && (ltb a.byte 0x20 || ltb 0x7e a.byte))
      then ([], record s { pending = [] })
      else ([], record s { pending = s.pending ++ a.byte ∷ [] })

  unfoldable pub take_bytes : List (Arrival F) → SerialGps F → List (PositionFix F) × SerialGps F
  take_bytes [] s = ([], s)
  take_bytes (a ∷ input) s =
      let first = take_byte a s in
      let rest = take_bytes input first.1 in (first.0 ++ rest.0, rest.1)

  unfoldable pub disconnected :
      (monotonic utc : F) (callback_throws : Bool)
      → SerialGps F
      → List (PositionFix F) × SerialGps F
  disconnected monotonic utc throws s =
      let fix = record (no_fix d) {
        monotonic_seconds = monotonic;
        utc_seconds = utc;
        source = codes "Serial GPS disconnected or read failed";
      } in
      let stopped = record s {
        running = false;
        connection =
            with_state read_error (codes "GPS serial device disconnected or read failed")
              s.connection;
      } in
      let delivered = deliver throws fix stopped in
      if s.running then (delivered.0 ∷ [], delivered.1) else ([], s)

  -- One round of `read_loop`.
  unfoldable pub read_round : Round F → SerialGps F → List (PositionFix F) × SerialGps F
  read_round round s = if not s.running then ([], s) else elim round [
    | nothing ↦ ([], s)
    | arrived input ↦ take_bytes input s
    | lost monotonic utc throws ↦ disconnected monotonic utc throws s
  ]

  -- `SerialGps::SerialGps`
  abbrev pub new_gps : SerialGps F
  new_gps = record {
    running = false;
    worker = false;
    pending = [];
    last_utc = d.value (negsuc 0);
    last_monotonic = whole d 0;
    last_fix = none;
    connection = no_connection;
    fresh_fix_monotonic = whole d 0;
  }
